-- ===== src/Gdext/Sender/Queues.antt =====
-- The bounded input queue of gdext/src/sender.rs over any pushed PCM.
use godot_network_audio.Common.{
  ◌+◌, ◌%◌, ◌^◌, ◌≤◌, ◌≡◌, refl, sym, ap, ◌∙◌, List, [], ◌∷◌, ◌++◌, length, drop, arith,
  append_assoc, append-nil, length-append, length-drop,
}
use godot_network_audio.Common.Bounded.{newest, newest_short, newest_step, newest-append}
use godot_network_audio.VoiceCore.Float.{Floats}
use godot_network_audio.VoiceCore.Encoder.{OpusEncoder}
use godot_network_audio.Gdext.Sender.{
  PipelineState, push_sample, push_samples, push_input_pcm, max_pending_pcm_samples,
}

module _ (f : Floats) (o : OpusEncoder f.F32) where
  open f use {F32}

  -- What pushing `xs` does to the input queue, and to it alone.
  pub record Keeps (s : PipelineState F32) (xs : List F32) (s' : PipelineState F32) : Type 0 where
    pub pcm : s'.pcm_samples ≡ newest max_pending_pcm_samples (s.pcm_samples ++ xs)
    pub accounted :
        (s'.stats.pcm_samples_dropped + length s'.pcm_samples) % 2 ^ 64
        ≡ (s.stats.pcm_samples_dropped + length s.pcm_samples + length xs) % 2 ^ 64
    pub bounded : length s'.pcm_samples ≤ max_pending_pcm_samples
    pub packets : s'.encoded_packets ≡ s.encoded_packets

  push_sample-Keeps :
      (s : PipelineState F32) (x : F32)
      → length s.pcm_samples ≤ max_pending_pcm_samples
      → Keeps s (x ∷ []) (push_sample f o s x)
  unfolding push_sample
  push_sample-Keeps s x room = ground (
    arith,
    newest_short max_pending_pcm_samples (s.pcm_samples ++ (x ∷ [])),
    newest_step max_pending_pcm_samples s.pcm_samples x,
    length-append s.pcm_samples (x ∷ []),
    length-append (drop 1 s.pcm_samples) (x ∷ []),
    length-drop 1 s.pcm_samples,
  )

  push_samples-Keeps :
      (s : PipelineState F32) (xs : List F32)
      → length s.pcm_samples ≤ max_pending_pcm_samples
      → Keeps s xs (push_samples f o s xs)
  unfolding push_samples
  push_samples-Keeps s [] room = record {
    pcm = rw append-nil (sym (newest_short max_pending_pcm_samples s.pcm_samples room));
    accounted = omega arith;
    bounded = room;
    packets = refl;
  }
  push_samples-Keeps s (x ∷ xs) room =
      let first = push_sample-Keeps s x room in
      let rest = push_samples-Keeps (push_sample f o s x) xs first.bounded in
      record {
        pcm =
            rest.pcm
            ∙ ap (λ l. newest max_pending_pcm_samples (l ++ xs)) first.pcm
            ∙ newest-append max_pending_pcm_samples (s.pcm_samples ++ (x ∷ [])) xs
            ∙ ap (newest max_pending_pcm_samples) (append_assoc s.pcm_samples (x ∷ []) xs);
        accounted = omega (arith, rest.accounted, first.accounted);
        bounded = rest.bounded;
        packets = rest.packets ∙ first.packets;
      }

  -- After a push of any PCM the input queue holds the newest 96,000 samples of what it held and what
  -- came, in order; each sample is queued or counted as dropped (as a word of 64 bits), and the
  -- packets that wait are as before.
  push_input_pcm-Keeps :
      (s : PipelineState F32) (xs : List F32)
      → length s.pcm_samples ≤ max_pending_pcm_samples
      → Keeps s xs (push_input_pcm f o s xs)
  unfolding push_input_pcm
  push_input_pcm-Keeps s xs room =
      let k = push_samples-Keeps s xs room in
      record { pcm = k.pcm; accounted = k.accounted; bounded = k.bounded; packets = k.packets }
