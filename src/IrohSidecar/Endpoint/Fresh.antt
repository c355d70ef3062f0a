-- ===== src/IrohSidecar/Endpoint/Fresh.antt =====
-- How a service of iroh-sidecar/src/service.rs starts.
use godot_network_audio.Common.{◌≡◌, Bool, arith}
use godot_network_audio.IrohSidecar.Service.{Iroh}
use godot_network_audio.IrohSidecar.Endpoint.{
  VoiceIrohService, fresh, Setup, VoiceIrohConfig, bind, ready,
}

module _ (i : Iroh) {Addr Endpoint : Type 0} where
  pub bound-fresh :
      (u : Setup Addr Endpoint) (config : VoiceIrohConfig Addr) {v : VoiceIrohService i}
      {e : Endpoint} {online : Bool}
      → bind i u config ≡ ready (v, e, online)
      → v ≡ fresh i config.alpn
  unfolding bind
  bound-fresh u config h = ground arith
