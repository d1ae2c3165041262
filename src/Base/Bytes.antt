-- ===== src/Base/Bytes.antt =====
-- Big-endian bytes of a number, `to_be_bytes` and `from_be_bytes`, and slices of a byte string.
use Prim.Native.Nat.{ℕ, zero, suc, ◌+◌, ◌-◌, ◌*◌, ◌/◌, ◌%◌, ◌^◌, ◌≤◌, ◌<◌}
use mathlib.Core.Path.{◌≡◌, refl, ap}
use mathlib.Core.Bool.{◌&&◌}
use mathlib.Core.List.{List, [], ◌∷◌, ◌++◌}
use native.Mathlib.Nat.{mul-le-mul_right}
use native.Mathlib.Omega.{arith}
use conest.Base.Tests.{leb, if◌then◌else◌}
use conest.Base.Lists.{length, take, drop, All, length-append}
use conest.Base.Outcome.{Outcome, ok, panics}

abbrev pub IsByte : ℕ → Type 0
IsByte b = b < 256

-- The `w` bytes of a number, the highest first.
unfoldable pub be_bytes : ℕ → ℕ → List ℕ
be_bytes zero v = []
be_bytes (suc w) v = be_bytes w (v / 256) ++ v % 256 ∷ []

unfoldable pub from_be_onto : ℕ → List ℕ → ℕ
from_be_onto acc [] = acc
from_be_onto acc (b ∷ bs) = from_be_onto (acc * 256 + b) bs

unfoldable pub from_be : List ℕ → ℕ
from_be bytes = from_be_onto 0 bytes

-- `bytes[i..j]`
unfoldable pub slice : {E : Type 0} → ℕ → ℕ → List ℕ → Outcome E (List ℕ)
slice i j bytes =
    if leb i j && leb j (length bytes) then ok (take (j - i) (drop i bytes)) else panics

pub length-be_bytes : (w v : ℕ) → length (be_bytes w v) ≡ w
unfolding be_bytes
length-be_bytes zero v = refl
length-be_bytes (suc w) v = rw (length-append) (omega (arith, length-be_bytes w (v / 256)))

from_be_onto-append :
    (acc : ℕ) (xs ys : List ℕ) → from_be_onto acc (xs ++ ys) ≡ from_be_onto (from_be_onto acc xs) ys
unfolding from_be_onto
from_be_onto-append acc [] ys = refl
from_be_onto-append acc (x ∷ xs) ys = from_be_onto-append (acc * 256 + x) xs ys

pow_suc : (w : ℕ) → 256 ^ suc w ≡ 256 * 256 ^ w
pow_suc w = omega arith

pub from_be-be_bytes : (w v : ℕ) → v < 256 ^ w → from_be (be_bytes w v) ≡ v
unfolding be_bytes from_be from_be_onto
from_be-be_bytes zero v h = omega arith
from_be-be_bytes (suc w) v h =
    rw (from_be_onto-append 0 (be_bytes w (v / 256)) (v % 256 ∷ []))
      (ground (arith, pow_suc w, from_be-be_bytes w (v / 256)))

from_be_onto_below :
    (acc : ℕ) (bs : List ℕ) → All IsByte bs → from_be_onto acc bs + 1 ≤ (acc + 1) * 256 ^ length bs
unfolding from_be_onto
from_be_onto_below acc [] h = omega arith
from_be_onto_below acc (b ∷ bs) h = omega (
  arith,
  from_be_onto_below (acc * 256 + b) bs h.1,
  ap (λ (t : ℕ). (acc + 1) * t) (pow_suc (length bs)),
  mul-le-mul_right {m = acc * 256 + b + 1} {n = acc * 256 + 256} (256 ^ length bs) (omega arith),
)

pub from_be_below : (bs : List ℕ) → All IsByte bs → from_be bs < 256 ^ length bs
unfolding from_be
from_be_below bs h = omega (arith, from_be_onto_below 0 bs h)

pub slice_within :
    {E : Type 0} (i j : ℕ) (bytes : List ℕ)
    → i ≤ j
    → j ≤ length bytes
    → slice {E = E} i j bytes ≡ ok (take (j - i) (drop i bytes))
unfolding slice
slice_within i j bytes h k = ground arith
