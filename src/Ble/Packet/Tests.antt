-- ===== src/Ble/Packet/Tests.antt =====
-- A packet at a concrete input.
use conest.Base.{get_elem?, ◌≡◌, refl, some, List, ℕ, [], ◌∷◌, ◌++◌, replicate}
use conest.Base.Outcome.{ok, index, read_be16}
use conest.Ble.Packet.{packet_size, sized, routed, finish}

-- A whole packet of version 1: 14 bytes of header, 8 of sender, 2 of payload.
abbrev pub small : List ℕ
small = 1 ∷ 2 ∷ 7 ∷ replicate 8 0 ++ 0 ∷ 0 ∷ 2 ∷ replicate 8 9 ++ 5 ∷ 6 ∷ []

pub small_size : packet_size small ≡ ok (some 24)
unfolding packet_size sized routed finish index get_elem? read_be16
small_size = refl
