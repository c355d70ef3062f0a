-- ===== src/GdextIroh/Tests.antt =====
-- The theorem of gdext-iroh applied to a concrete run.
use godot_network_audio.Common.{refl, true, none, [], ◌∷◌, pos, arith}
use godot_network_audio.IrohSidecar.Service.{receive}
use godot_network_audio.IrohSidecar.Service.Races.{move, moves}
use godot_network_audio.IrohSidecar.Fixtures.{net, quiet, crossing}
use godot_network_audio.GdextIroh.Transport.{IrohVoiceTransport, drain_events}
use godot_network_audio.GdextIroh.Transport.Drain.{Hears, drain-Hears}

abbrev node : IrohVoiceTransport net
node = record {
  service = none;
  has_target = true;
  process_mode_enabled = true;
  last_error = none;
  packets_sent = 0;
  packets_received = 0;
  peers_connected = pos 0;
  pushed = [];
  signals = [];
}

drain-Hears_example :
    Hears net node
      (7 ∷ 8 ∷ [])
      quiet
      crossing
      (drain_events net (moves net quiet crossing).shared.events node)
unfolding move receive
drain-Hears_example =
    drain-Hears net node (7 ∷ 8 ∷ []) quiet crossing (moves net quiet crossing).shared.events refl
      refl (omega arith) (omega arith) refl refl refl refl refl refl refl
