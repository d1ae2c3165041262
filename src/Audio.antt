-- ===== src/Audio.antt =====
-- The controller of the voice bitrate, `AdaptiveBitrate` of native/conest_native/src/audio.rs.
pub mod Rates
mod Tests
use conest.Base.{
  ℕ, zero, suc, ◌+◌, ◌-◌, ◌*◌, Bool, true, false, ◌&&◌, Option, none, some, List, [], ◌∷◌, ltb, leb,
  ◌==◌, if◌then◌else◌,
}
use Prim.Native.Nat.{◌/◌, min, max}

abbrev pub opus_packet_queue : ℕ
opus_packet_queue = 12

abbrev pub high_queue_watermark : ℕ
high_queue_watermark = opus_packet_queue * 2 / 3

abbrev pub low_queue_watermark : ℕ
low_queue_watermark = opus_packet_queue / 6

abbrev pub min_bitrate : ℕ
min_bitrate = 16000

abbrev pub max_bitrate : ℕ
max_bitrate = 32000

pub record AdaptiveBitrate : Type 0 where
  pub current : ℕ
  pub congested_frames : ℕ
  pub clear_frames : ℕ

-- `saturating_add` of u8.
abbrev pub add_sat8 : ℕ → ℕ → ℕ
add_sat8 a b = min (a + b) 255

abbrev pub default : AdaptiveBitrate
default = record { current = 0; congested_frames = 0; clear_frames = 0 }

-- The rate that the controller stands at; a new one stands at the highest.
abbrev pub rate : AdaptiveBitrate → ℕ
rate c = if c.current == 0 then max_bitrate else c.current

abbrev pub on_congestion : ℕ → ℕ → AdaptiveBitrate × Option ℕ
on_congestion current frames =
    let lower = max (current - 8000) min_bitrate in
    if leb 5 frames && ltb min_bitrate current
    then (record { current = lower; congested_frames = 0; clear_frames = 0 }, some lower)
    else (record { current = current; congested_frames = frames; clear_frames = 0 }, none)

abbrev pub on_clear : ℕ → ℕ → AdaptiveBitrate × Option ℕ
on_clear current frames =
    let higher = min (current + 8000) max_bitrate in
    if leb 50 frames && ltb current max_bitrate
    then (record { current = higher; congested_frames = 0; clear_frames = 0 }, some higher)
    else (record { current = current; congested_frames = 0; clear_frames = frames }, none)

unfoldable pub observe : ℕ → AdaptiveBitrate → AdaptiveBitrate × Option ℕ
observe queued_packets c =
    if leb high_queue_watermark queued_packets
    then on_congestion (rate c) (add_sat8 c.congested_frames 1)
    else if leb queued_packets low_queue_watermark
    then on_clear (rate c) (add_sat8 c.clear_frames 1)
    else (record { current = rate c; congested_frames = 0; clear_frames = 0 }, none)

abbrev pub set_bitrate : Option ℕ → List ℕ → List ℕ
set_bitrate none rates = rates
set_bitrate (some r) rates = r ∷ rates

-- The rates that the encoder is set to, while the queue has these lengths.
unfoldable pub rates : List ℕ → AdaptiveBitrate → List ℕ
rates [] c = []
rates (q ∷ queues) c = let (next, answer) = observe q c in set_bitrate answer (rates queues next)
