-- ===== src/Ble/Reassembler.antt =====
-- `Reassembler` of native/conest_native/src/ble/core.rs: packets out of the chunks that a link
-- delivers. Each operation returns the new state with its result, also where it fails.
pub mod Valid
pub mod Packets
pub mod Chunks
mod Tests
use conest.Base.{
  ℕ, ◌+◌, ◌-◌, ◌<◌, ◌≡◌, Bool, true, false, not, ◌&&◌, Option, none, some, List, [], ◌∷◌, ◌++◌, ltb,
  leb, ◌==◌, if◌then◌else◌, length, replicate,
}
use conest.Base.Outcome.{Outcome, ok, err, panics}
use conest.Ble.Packet.{packet_size, max_packet}

pub record Reassembler : Type 0 where
  pub bytes : List ℕ
  pub padding : ℕ × ℕ
  pub last : ℕ

abbrev pub default : Reassembler
default = record { bytes = []; padding = (0, 0); last = 0 }

abbrev pub is_empty {ℓ} : {A : Type ℓ} → List A → Bool
is_empty [] = true
is_empty (x ∷ xs) = false

-- The block that a packet of `n` bytes is padded to, and the padding's byte and count.
unfoldable pub block_padding : ℕ → ℕ × ℕ
block_padding n =
    let count =
      if leb (n + 16) 256
      then 256 - n
      else (if leb (n + 16) 512
          then 512 - n
          else (if leb (n + 16) 1024
              then 1024 - n
              else (if leb (n + 16) 2048 then 2048 - n else 0))) in
    if leb count 255 then (count, count) else (0, 0)

-- What one round of the loop leaves: a packet that is complete, nothing yet, or the failure.
abbrev pub Round : Type 0
Round = Reassembler × Outcome (Unit {0}) (Option (List ℕ))

-- `size == Some(self.bytes.len())`
abbrev pub completes : Option ℕ → ℕ → Bool
completes none n = false
completes (some m) n = m == n

settle : Reassembler → Outcome (Unit {0}) (Option ℕ) → Round
settle r (err e) = (default, err e)
settle r panics = (r, panics)
settle r (ok size) =
    if completes size (length r.bytes)
    then (record r { bytes = []; padding = block_padding (length r.bytes) }, ok (some r.bytes))
    else (r, ok none)

pub append : Reassembler → ℕ → Round
append r b = let r' = record r { bytes = r.bytes ++ b ∷ [] } in settle r' (packet_size r'.bytes)

-- One round of `while !chunk.is_empty()`.
pub take_byte : Reassembler → ℕ → Round
take_byte r b =
    if is_empty r.bytes && ltb 0 r.padding.1
    then (if b == r.padding.0
        then (record r { padding = (r.padding.0, r.padding.1 - 1) }, ok none)
        else append (record r { padding = (0, 0) }) b)
    else append r b

abbrev pub Pushed : Type 0
Pushed = Reassembler × Outcome (Unit {0}) (List (List ℕ))

-- `out.push(raw)`
abbrev pub emit : List (List ℕ) → Option (List ℕ) → List (List ℕ)
emit out none = out
emit out (some raw) = out ++ raw ∷ []

pub push_loop : Reassembler → List (List ℕ) → List ℕ → Pushed
push_loop r out [] = (r, ok out)
push_loop r out (b ∷ chunk) =
    let (r', round) = take_byte r b in
    elim round [
      | ok raw ↦ push_loop r' (emit out raw) chunk
      | err e ↦ (r', err e)
      | panics ↦ (r', panics)
    ]

-- The state that a chunk at `now` finds: one that has waited for 5 seconds is dropped.
pub fresh : Reassembler → ℕ → Reassembler
fresh r now = record (if ltb 5000 (now - r.last) then default else r) { last = now }

pub push : Reassembler → List ℕ → ℕ → Pushed
push r chunk now =
    let r' = fresh r now in
    if ltb max_packet (length chunk)
    then (default, err tt)
    else (if ltb max_packet (length r'.bytes + length chunk)
        then (default, err tt)
        else push_loop r' [] chunk)
