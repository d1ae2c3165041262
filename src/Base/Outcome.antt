-- ===== src/Base/Outcome.antt =====
-- What a fallible function of the source does: return, return an error, or panic (a slice or an
-- index out of range).
use Prim.Native.Nat.{ℕ, ◌+◌, ◌*◌, ◌<◌}
use mathlib.Core.Path.{◌≡◌, refl}
use mathlib.Core.Logic.{◌⊎◌, inl, inr}
use mathlib.Core.Bool.{Bool, true, false}
use mathlib.Core.List.{List, ◌++◌}
use mathlib.Core.Option.{none, some}
use native.Mathlib.Omega.{arith}
use conest.Base.Lists.{length, get_elem?, get_elem?-append_left, get_elem?_below}

pub data Outcome {ℓ} (E : Type 0) (A : Type ℓ) : Type ℓ where
  ok : A → Outcome E A
  err : E → Outcome E A
  panics : Outcome E A

pub Outcome-cases {ℓ} :
    {E : Type 0} {A : Type ℓ} (o : Outcome E A)
    → ((a : A) × (o ≡ ok a)) ⊎ (((e : E) × (o ≡ err e)) ⊎ (o ≡ panics))
Outcome-cases (ok a) = inl (a, refl)
Outcome-cases (err e) = inr (inl (e, refl))
Outcome-cases panics = inr (inr refl)

pub ok_injective {ℓ} :
    {E : Type 0} {A : Type ℓ} {a b : A} → ◌≡◌ {A = Outcome E A} (ok a) (ok b) → a ≡ b
ok_injective h = cc h

infixl 5 ◌>>=◌ ◌>>◌
abbrev pub ◌>>=◌ {ℓ κ} :
    {E : Type 0} {A : Type ℓ} {B : Type κ} → Outcome E A → (A → Outcome E B) → Outcome E B
ok a >>= f = f a
err e >>= f = err e
panics >>= f = panics

abbrev pub ◌>>◌ {ℓ} : {E : Type 0} {B : Type ℓ} → Outcome E (Unit {0}) → Outcome E B → Outcome E B
m >> k = m >>= λ _. k

-- `if … { return Err(e); }`
abbrev pub bail_if : {E : Type 0} → Bool → E → Outcome E (Unit {0})
bail_if true e = err e
bail_if false e = ok tt

-- `bytes[i]`
unfoldable pub index : {E : Type 0} → List ℕ → ℕ → Outcome E ℕ
index bytes i = elim (get_elem? bytes i) [ none ↦ panics | some b ↦ ok b ]

pub index-append :
    {E : Type 0} (xs ys : List ℕ) (i : ℕ) → i < length xs → index {E = E} (xs ++ ys) i ≡ index xs i
unfolding index
index-append xs ys i h = rw (get_elem?-append_left xs ys i h, index) refl

pub index_below :
    {E : Type 0} (xs : List ℕ) (i : ℕ) → i < length xs → (b : ℕ) × (index {E = E} xs i ≡ ok b)
unfolding index
index_below xs i h = let (b, e) = get_elem?_below xs i h in (b, rw (e, index) refl)

-- Big-endian numbers at a position.
unfoldable pub read_be16 : {E : Type 0} → List ℕ → ℕ → Outcome E ℕ
read_be16 bytes i = do a ← index bytes i; b ← index bytes (i + 1); ok (a * 256 + b)

unfoldable pub read_be32 : {E : Type 0} → List ℕ → ℕ → Outcome E ℕ
unfolding read_be16
read_be32 bytes i = do a ← read_be16 bytes i; b ← read_be16 bytes (i + 2); ok (a * 65536 + b)

pub read_be16_below :
    {E : Type 0} (xs : List ℕ) (i : ℕ)
    → i + 1 < length xs
    → (v : ℕ) × (read_be16 {E = E} xs i ≡ ok v)
unfolding read_be16
read_be16_below {E} xs i h =
    let (a, p) = index_below {E = E} xs i (omega arith) in
    let (b, q) = index_below {E = E} xs (i + 1) h in (a * 256 + b, rw (p, q) refl)

pub read_be32_below :
    {E : Type 0} (xs : List ℕ) (i : ℕ)
    → i + 3 < length xs
    → (v : ℕ) × (read_be32 {E = E} xs i ≡ ok v)
unfolding read_be32
read_be32_below {E} xs i h =
    let (a, p) = read_be16_below {E = E} xs i (omega arith) in
    let (b, q) = read_be16_below {E = E} xs (i + 2) (omega arith) in (a * 65536 + b, rw (p, q) refl)

-- `?` in a method that changes its object: the result of a call with the object behind it, and
-- what follows when the call returns.
abbrev pub and_then {ℓ κ ν} :
    {E : Type 0} {A : Type ℓ} {B : Type κ} {S : Type ν}
    → Outcome E A × S
    → (A → S → Outcome E B × S)
    → Outcome E B × S
and_then (ok a, s) k = k a s
and_then (err e, s) k = (err e, s)
and_then (panics, s) k = (panics, s)

-- What holds of an object when a call ends, and what follows keeps, holds at the end.
pub and_then_keeps {ℓ κ ν μ} :
    {E : Type 0} {A : Type ℓ} {B : Type κ} {S : Type ν} (P : S → Type μ) (r : Outcome E A × S)
    (k : A → S → Outcome E B × S)
    → P r.1
    → ((a : A) (s : S) → P s → P (k a s).1)
    → P (and_then r k).1
and_then_keeps P (ok a, s) k h f = f a s h
and_then_keeps P (err e, s) k h f = h
and_then_keeps P (panics, s) k h f = h

-- What holds of a result when there is one.
abbrev pub Holds {ℓ κ} : {E : Type 0} {A : Type ℓ} → (A → Type κ) → Outcome E A → Type (ℓ ⊔ κ)
Holds {E} {A} P o = (a : A) → o ≡ ok a → P a

pub bind-Holds {ℓ κ ν} :
    {E : Type 0} {A : Type ℓ} {B : Type κ} (P : B → Type ν) (m : Outcome E A) (f : A → Outcome E B)
    → ((a : A) → m ≡ ok a → Holds P (f a))
    → Holds P (m >>= f)
bind-Holds P (ok a) f h b e = h a refl b e
bind-Holds P (err x) f h b e = absurd (cc e)
bind-Holds P panics f h b e = absurd (cc e)

pub bail_if-Holds {ℓ ν} :
    {E : Type 0} {B : Type ℓ} (P : B → Type ν) (c : Bool) (x : E) (k : Outcome E B)
    → (c ≡ false → Holds P k)
    → Holds P (bail_if c x >> k)
bail_if-Holds P true x k h b e = absurd (cc e)
bail_if-Holds P false x k h b e = h refl b e
