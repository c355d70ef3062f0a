-- ===== src/Lib.antt =====
-- A model of godot-network-audio: voice chat for the Godot engine over Opus, the NetEq jitter buffer
-- and iroh datagrams, with the theorems that its parts are to satisfy.
--
-- The program. Microphone PCM goes through a gate and a resampler into an encoder, which makes voice
-- packets with talkspurt markers. Packets travel as datagrams between peers. On arrival they are
-- routed to the stream of their sender, wait in its bounded queue, and are drained by the audio
-- callback into a receiver, which feeds NetEq and tells an intended silence from lost media.
--
-- The transport's service keeps one connection for each peer and tells of changes by events; the node of
-- the engine drains these, gives each peer a stream, and sends encoded packets to its connections.
--
-- Common holds the numbers, lists, machine words, maps and runs that all parts share: Common.Bounded
-- the queue that drops its oldest entry, Common.Run the outcome of code that may panic or run out of
-- fuel, Common.Keys a hash map by what `get` answers, Common.Bits fields in one word.
--
-- VoiceCore is the crate voice-core:
--   VoiceCore.Packet     voice-core/src/packet.rs, the wire format (encode_to_bytes,
--                        decode_from_bytes) and the flags
--   VoiceCore.Vad        voice-core/src/vad.rs, EnergyVad and MicrophoneGate
--   VoiceCore.Resample   voice-core/src/resample.rs, InputResampler
--   VoiceCore.Encoder    voice-core/src/encoder.rs, VoiceEncoder; poll_packet is cut at its call of
--                        Opus into encode_frame and finish_poll
--   VoiceCore.Decoder    voice-core/src/decoder.rs, OpusAudioDecoder, which NetEq is given
--   VoiceCore.Receiver   voice-core/src/receiver.rs, VoiceReceiver; a push is `marked` (the talkspurt
--                        markers) and then `insert_media` (the call of NetEq)
--   VoiceCore.Harness    voice-core/src/fixture_harness.rs, the simulated network of the tests;
--                        Harness.Metrics adds the measurements, the encoding and the report to it,
--                        Harness.Resampled is linear_resample_mono
-- Gdext is the crate gdext:
--   Gdext.PcmTap            gdext/src/pcm_tap.rs
--   Gdext.Stream            gdext/src/stream.rs, SharedStreamState and LoopbackTarget
--   Gdext.Stream.Playback   gdext/src/stream.rs, the drain and the copy loop of a callback
--   Gdext.Stream.Playback.Mix   gdext/src/stream.rs, mix_resampled_rawptr and its timing guard; what it
--                               guarantees is in Gdext.Stream.Playback.Callback
--   Gdext.Sender            gdext/src/sender.rs, LocalSendPipeline and the packet loop of worker_loop;
--                           Gdext.Sender.Tick is a tick of it without capture, Gdext.Sender.Capture
--                           one with it, Gdext.Sender.Pacing the times of the ticks;
--                           Gdext.Sender.Devices is the microphone on the main thread
--   Gdext.Sender.Main       gdext/src/sender.rs, NetworkAudioSender on the main thread: rebuild_encoder,
--                           stop_sender, push_pcm_slice, drain_worker_packets; the worker's encoder is
--                           part of the pipeline between its start and its stop
--   Gdext.Router            gdext/src/transport_iroh.rs, ReceiveRouter
--   Gdext.Node              gdext/src/transport_iroh.rs, IrohVoiceTransport and SendRouter; a run of the
--                           node is a list of Gdext.Node.Calls.Call;
--                           Gdext.Node.Hearing follows datagrams from the handler to a stream's queue
-- IrohSidecar is the crate iroh-sidecar:
--   IrohSidecar.Service     iroh-sidecar/src/service.rs, the map of connections, the reader tasks and
--                           the events; Races holds the change of the map and its event as two steps of
--                           threads, Orderly and Interleaved what holds of them
--   IrohSidecar.Endpoint    iroh-sidecar/src/service.rs, VoiceIrohConfig, bind, the accept loop and its
--                           tasks, connect and shutdown around the map
-- GdextIroh is the crate gdext-iroh:
--   GdextIroh.Transport     gdext-iroh/src/transport.rs, a node that hands packets to a target object
-- VoiceMeshBench is the crate voice-mesh-bench:
--   VoiceMeshBench.Arguments  voice-mesh-bench/src/main.rs, Config::parse: the loop over the arguments
--                             in Options, the checks in Checks
--   VoiceMeshBench.Relay      voice-mesh-bench/src/main.rs, the datagrams' envelope, the fan-out of
--                             encode_and_send, and spawn_sfu_reader
--   VoiceMeshBench.Impairment voice-mesh-bench/src/main.rs, ImpairmentRouteState and should_drop
--   VoiceMeshBench.Receive    voice-mesh-bench/src/main.rs, drain_received with the slots and counters
--                             that it changes
--   VoiceMeshBench.Schedule   voice-mesh-bench/src/main.rs, speaker_active and listener_interested
--   VoiceMeshBench.Samples    voice-mesh-bench/src/main.rs, MetricSamples; the heap is a list from its
--                             largest sample down
--
-- State is passed explicitly: an operation takes the record of its state and returns it with its
-- result. What other crates do is a parameter: the floats (VoiceCore.Float, with the exactness of
-- small integers as the one law that is assumed, where it is named), the Opus encoder and decoder, NetEq
-- with its instants (VoiceCore.Receiver.Jitter), the clock (Gdext.Stream.Clock), the connections of iroh. Readings
-- of a clock, and packets that other threads enqueue during a callback, are arguments.
--
-- Fuel. The resampler's loop makes one sample per round and moves by at least a sample where the input
-- rate is a multiple of the output rate, so more fuel than samples is enough; the copy loop of a
-- callback writes at least one frame per round, so one round more than the frames is enough; the
-- packet loop of a worker drains samples in every round that goes on, so more fuel than pending
-- samples is enough; a drain pops one packet per round, so one round more than the packets is enough; a
-- step of the fixture harness is 10 ms, so fuel for each 10 ms is enough.
-- Words wrap as in Rust: `% 2 ^ w` is written out.
--
-- Not modelled: the meters of a pump in gdext/src/sender.rs, the engine's dictionaries and the sockets and
-- reports of the benchmarks. Atomic counters are read and written in program order; tearing between several
-- of them is not modelled. In a run of IrohSidecar.Service the insertion of a connection and its event
-- are one step, as are a removal and its event, which is the schedule without another thread between
-- them; IrohSidecar.Service.Races takes them apart. Counts that are i64s are modelled
-- below 2 ^ 63. What a node drains is all that the channel held: the loss of events when it lags is not
-- modelled.
pub mod Common
pub mod VoiceCore
pub mod Gdext
pub mod IrohSidecar
pub mod GdextIroh
pub mod VoiceMeshBench
