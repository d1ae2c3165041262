-- ===== src/Ble/Packet/Prefix.antt =====
-- How `packet_size` behaves as bytes arrive one after the other.
use conest.Base.{
  ℕ, ◌+◌, ◌≤◌, ◌<◌, ◌≡◌, refl, List, [], ◌∷◌, ◌++◌, some, arith, length, length-append, get_elem?,
  ◌⊎◌,
}
use conest.Base.Outcome.{ok, err, index, index-append, read_be16, read_be32}
use conest.Ble.Packet.{packet_size, sized, routed}

pub read_be16-append :
    (xs ys : List ℕ) (i : ℕ)
    → i + 1 < length xs
    → read_be16 {E = Unit {0}} (xs ++ ys) i ≡ read_be16 xs i
unfolding read_be16
read_be16-append xs ys i h =
    rw (index-append xs ys i (omega arith), index-append xs ys (i + 1) h) refl

pub read_be32-append :
    (xs ys : List ℕ) (i : ℕ)
    → i + 3 < length xs
    → read_be32 {E = Unit {0}} (xs ++ ys) i ≡ read_be32 xs i
unfolding read_be32
read_be32-append xs ys i h = ground (
  arith,
  index-append {E = Unit {0}} xs ys i,
  index-append {E = Unit {0}} xs ys (i + 1),
  index-append {E = Unit {0}} xs ys (i + 2),
  index-append {E = Unit {0}} xs ys (i + 2 + 1),
)

-- Once the size is read, more bytes do not change it.
routed-append :
    (xs ys : List ℕ) (flags payload size n : ℕ)
    → routed xs flags payload size ≡ ok (some n)
    → routed (xs ++ ys) flags payload size ≡ ok (some n)
unfolding routed
routed-append xs ys flags payload size n h =
    ground (arith, index-append {E = Unit {0}} xs ys size, length-append xs ys)

routed-append_err :
    (xs ys : List ℕ) (flags payload size : ℕ)
    → routed xs flags payload size ≡ err tt
    → routed (xs ++ ys) flags payload size ≡ err tt
unfolding routed
routed-append_err xs ys flags payload size h =
    ground (arith, index-append {E = Unit {0}} xs ys size, length-append xs ys)

sized-append :
    (xs ys : List ℕ) (version header n : ℕ)
    → 12 ≤ length xs
    → version ≡ 1 × (14 ≤ length xs) ⊎ (16 ≤ length xs)
    → sized xs version header ≡ ok (some n)
    → sized (xs ++ ys) version header ≡ ok (some n)
unfolding sized
sized-append xs ys version header n h12 room h = grind (
  arith,
  index-append {E = Unit {0}} xs ys 11,
  read_be16-append xs ys 12,
  read_be32-append xs ys 12,
  routed-append xs ys,
)

sized-append_err :
    (xs ys : List ℕ) (version header : ℕ)
    → 12 ≤ length xs
    → version ≡ 1 × (14 ≤ length xs) ⊎ (16 ≤ length xs)
    → sized xs version header ≡ err tt
    → sized (xs ++ ys) version header ≡ err tt
unfolding sized
sized-append_err xs ys version header h12 room h = grind (
  arith,
  index-append {E = Unit {0}} xs ys 11,
  read_be16-append xs ys 12,
  read_be32-append xs ys 12,
  routed-append_err xs ys,
)

-- A size that a prefix fixes is the size of everything that begins with it.
pub packet_size-append :
    (xs ys : List ℕ) (n : ℕ) → packet_size xs ≡ ok (some n) → packet_size (xs ++ ys) ≡ ok (some n)
unfolding packet_size
packet_size-append [] ys n h = unfold index get_elem? in cc
packet_size-append (x ∷ xs) ys n h = grind (
  arith,
  index-append {E = Unit {0}} (x ∷ xs) ys 0,
  length-append (x ∷ xs) ys,
  sized-append (x ∷ xs) ys,
)

-- A prefix that is refused makes everything that begins with it refused.
pub packet_size-append_err :
    (xs ys : List ℕ) → packet_size xs ≡ err tt → packet_size (xs ++ ys) ≡ err tt
unfolding packet_size
packet_size-append_err [] ys h = unfold index get_elem? in cc
packet_size-append_err (x ∷ xs) ys h = grind (
  arith,
  index-append {E = Unit {0}} (x ∷ xs) ys 0,
  length-append (x ∷ xs) ys,
  sized-append_err (x ∷ xs) ys,
)
