-- ===== src/Ble/Packet/Bounds.antt =====
-- What `packet_size` can answer: it never panics, and how far a buffer can wait for its size.
use conest.Base.{
  ℕ, ◌+◌, ◌≤◌, ◌<◌, ◌≡◌, ◌≢◌, ◌⊎◌, List, [], ◌∷◌, ◌++◌, none, some, arith, length, length-append,
  get_elem?,
}
use conest.Base.Outcome.{
  ok, panics, index, index-append, index_below, read_be16_below, read_be32_below,
}
use conest.Ble.Packet.Prefix.{read_be16-append, read_be32-append}
use conest.Ble.Packet.{packet_size, sized, routed, finish}

routed-ne-panics : (xs : List ℕ) (flags payload size : ℕ) → routed xs flags payload size ≢ panics
unfolding routed finish
routed-ne-panics xs flags payload size h = ground (arith, index_below {E = Unit {0}} xs size)

sized-ne-panics :
    (xs : List ℕ) (version header : ℕ)
    → 12 ≤ length xs
    → version ≡ 1 × (14 ≤ length xs) ⊎ (16 ≤ length xs)
    → sized xs version header ≢ panics
unfolding sized
sized-ne-panics xs version header h12 room h = grind (
  arith,
  index_below {E = Unit {0}} xs 11,
  read_be16_below {E = Unit {0}} xs 12,
  read_be32_below {E = Unit {0}} xs 12,
  routed-ne-panics xs,
)

-- On a buffer that holds a byte every slice is in range.
pub packet_size-ne-panics : (xs : List ℕ) → 0 < length xs → packet_size xs ≢ panics
unfolding packet_size
packet_size-ne-panics xs h e = grind (arith, index_below {E = Unit {0}} xs 0, sized-ne-panics xs)

routed-some :
    (xs : List ℕ) (flags payload size n : ℕ)
    → routed xs flags payload size ≡ ok (some n)
    → (size ≤ n) × (n ≤ 4096)
unfolding routed finish
routed-some xs flags payload size n h = ground arith

routed-none :
    (xs : List ℕ) (flags payload size : ℕ)
    → routed xs flags payload size ≡ ok none
    → length xs ≤ size
unfolding routed finish
routed-none xs flags payload size h = ground arith

-- The size of a packet lies between the shortest header and `MAX_PACKET`.
pub packet_size-some : (xs : List ℕ) (n : ℕ) → packet_size xs ≡ ok (some n) → (22 ≤ n) × (n ≤ 4096)
unfolding packet_size sized
packet_size-some xs n h = grind (arith, routed-some xs)

-- A buffer of 33 bytes has its size, or is refused.
pub packet_size-none : (xs : List ℕ) → packet_size xs ≡ ok none → length xs ≤ 32
unfolding packet_size sized
packet_size-none xs h = grind (arith, routed-none xs)

-- While the size is open, the next byte cannot put the buffer past it.
routed_waits :
    (xs : List ℕ) (flags payload size b n : ℕ)
    → routed xs flags payload size ≡ ok none
    → routed (xs ++ b ∷ []) flags payload size ≡ ok (some n)
    → length xs + 1 ≤ n
unfolding routed finish
routed_waits xs flags payload size b n h k = ground arith

sized-some :
    (xs : List ℕ) (version header n : ℕ) → sized xs version header ≡ ok (some n) → header + 8 ≤ n
unfolding sized
sized-some xs version header n h = grind (arith, routed-some xs)

sized_waits :
    (xs : List ℕ) (version header b n : ℕ)
    → 12 ≤ length xs
    → version ≡ 1 × (14 ≤ length xs) ⊎ (16 ≤ length xs)
    → sized xs version header ≡ ok none
    → sized (xs ++ b ∷ []) version header ≡ ok (some n)
    → length xs + 1 ≤ n
unfolding sized
sized_waits xs version header b n h12 room h k = grind (
  arith,
  index-append {E = Unit {0}} xs (b ∷ []) 11,
  read_be16-append xs (b ∷ []) 12,
  read_be32-append xs (b ∷ []) 12,
  routed_waits xs,
)

-- While the size of the buffer is open, the next byte cannot put the buffer past it.
pub packet_size_waits :
    (xs : List ℕ) (b n : ℕ)
    → packet_size xs ≡ ok none
    → packet_size (xs ++ b ∷ []) ≡ ok (some n)
    → length xs + 1 ≤ n
unfolding packet_size
packet_size_waits [] b n h k = unfold index get_elem? in cc
packet_size_waits (x ∷ xs) b n h k = grind (
  arith,
  index-append {E = Unit {0}} (x ∷ xs) (b ∷ []) 0,
  length-append (x ∷ xs) (b ∷ []),
  sized_waits (x ∷ xs),
  sized-some (x ∷ xs ++ b ∷ []),
)

-- A packet begins with its version.
pub packet_size_version :
    (b : ℕ) (ys : List ℕ) (n : ℕ) → packet_size (b ∷ ys) ≡ ok (some n) → b < 16
unfolding packet_size index get_elem?
packet_size_version b ys n h = ground arith
