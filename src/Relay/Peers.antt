-- ===== src/Relay/Peers.antt =====
-- How native/conest_relay/src/main.rs groups addresses, and the slots of an address.
pub mod Slots
use conest.Base.{
  ℕ, ◌+◌, ◌-◌, ◌≡◌, Bool, true, false, ◌&&◌, Option, none, some, List, [], ◌∷◌, ◌++◌, leb, ltb,
  ◌==◌, if◌then◌else◌, length, take, drop,
}
use conest.Base.Text.{Text, TextMap, same_text, get, put, remove}

-- `strip_prefix` and `strip_suffix`
abbrev strip_prefix : Text → Text → Option Text
strip_prefix prefix t =
    if same_text (take (length prefix) t) prefix then some (drop (length prefix) t) else none

abbrev strip_suffix : Text → Text → Option Text
strip_suffix suffix t =
    let n = length t - length suffix in
    if leb (length suffix) (length t) && same_text (drop n t) suffix then some (take n t) else none

-- `unwrap_or`
abbrev or_text : Option Text → Text → Text
or_text none t = t
or_text (some s) t = s

-- `split(':')`: the first segment grows by the byte in front of it.
abbrev grow : ℕ → List Text → List Text
grow b [] = (b ∷ []) ∷ []
grow b (t ∷ ts) = (b ∷ t) ∷ ts

split_colon : Text → List Text
split_colon [] = [] ∷ []
split_colon (b ∷ t) = let rest = split_colon t in if b == b':' then [] ∷ rest else grow b rest

-- `format!("{}:{}:{}::/48", …)` of exactly four segments.
widen : List Text → Text → Text
widen (a ∷ b ∷ c ∷ d ∷ []) peer = a ++ b':' ∷ b ++ b':' ∷ c ++ b':' ∷ b':' ∷ 47 ∷ b'4' ∷ b'8' ∷ []
widen _ peer = peer

abbrev udp : Text
udp = b'u' ∷ b'd' ∷ b'p' ∷ b':' ∷ []

abbrev site : Text
site = b':' ∷ b':' ∷ 47 ∷ b'6' ∷ b'4' ∷ []

pub peer_group : Text → Text
peer_group key =
    let peer = or_text (strip_prefix udp key) key in
    elim (strip_suffix site peer) [ none ↦ peer | some prefix ↦ widen (split_colon prefix) peer ]

abbrev pub Slots : Type 0
Slots = TextMap ℕ

abbrev pub held_by : Option ℕ → ℕ
held_by none = 0
held_by (some n) = n

-- The map afterwards, which has an entry of the peer in any case, and whether there was a slot.
pub take_peer_slot : Slots → Text → ℕ → Slots × Bool
take_peer_slot slots peer max =
    let count = held_by (get peer slots) in
    if leb max count then (put peer count slots, false) else (put peer (count + 1) slots, true)

-- `PeerSlot::drop`
pub drop_slot : Slots → Text → Slots
drop_slot slots peer = elim (get peer slots) [
  | none ↦ slots
  | some n ↦ if n - 1 == 0 then remove peer slots else put peer (n - 1) slots
]
