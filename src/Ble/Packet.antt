-- ===== src/Ble/Packet.antt =====
-- `packet_size` of native/conest_native/src/ble/core.rs: how long the packet is whose first bytes
-- are given. A byte slice is a list of numbers.
pub mod Prefix
pub mod Bounds
pub mod Tests
use Prim.Native.Nat.{bit_and}
use conest.Base.{
  ℕ, ◌+◌, ◌*◌, ◌≡◌, Bool, true, false, not, ◌&&◌, ◌||◌, Option, none, some, List, ltb, leb, ◌==◌,
  if◌then◌else◌, length,
}
use conest.Base.Outcome.{
  Outcome, ok, err, panics, ◌>>=◌, ◌>>◌, bail_if, index, read_be16, read_be32,
}

abbrev pub max_packet : ℕ
max_packet = 4096

-- `Result<Option<usize>, ()>`
abbrev pub Size : Type 0
Size = Outcome (Unit {0}) (Option ℕ)

-- `flags & mask != 0`
abbrev pub has : ℕ → ℕ → Bool
has flags mask = not (bit_and flags mask == 0)

finish : ℕ → ℕ → ℕ → Size
finish flags payload size =
    let total = size + payload + (if has flags 2 then 64 else 0) in
    do bail_if (ltb max_packet total) tt; ok (some total)

-- The part behind the payload's length: signature of the sender, route, body.
routed : List ℕ → ℕ → ℕ → ℕ → Size
routed bytes flags payload size =
    if has flags 8
    then (if leb (length bytes) size
        then ok none
        else (do hops ← index bytes size; finish flags payload (size + 1 + hops * 8)))
    else finish flags payload size

-- `!15` is 240 on a byte.
pub sized : List ℕ → ℕ → ℕ → Size
sized bytes version header = do
  flags ← index bytes 11
  bail_if (has flags 240 || (version == 1 && has flags 8)) tt
  payload ← if version == 1 then read_be16 bytes 12 else read_be32 bytes 12
  bail_if (ltb max_packet payload) tt
  routed bytes flags payload (header + 8 + (if has flags 1 then 8 else 0))

unfoldable pub packet_size : List ℕ → Size
packet_size bytes = do
  version ← index bytes 0
  bail_if (not (version == 1) && not (version == 2)) tt
  let header = if version == 1 then 14 else 16
  if ltb (length bytes) header then ok none else sized bytes version header
