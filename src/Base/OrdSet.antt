-- ===== src/Base/OrdSet.antt =====
-- `BTreeSet` of numbers: a list in ascending order.
use Prim.Native.Nat.{ℕ, suc, ◌+◌, ◌≤◌, ◌<◌}
use mathlib.Core.Path.{◌≡◌, refl}
use mathlib.Core.Bool.{Bool, true, false, ◌||◌}
use mathlib.Core.List.{List, [], ◌∷◌}
use native.Mathlib.Omega.{arith}
use conest.Base.Tests.{ltb, ◌==◌, if◌then◌else◌}
use conest.Base.Lists.{length, All}

unfoldable pub contains : ℕ → List ℕ → Bool
contains j [] = false
contains j (x ∷ xs) = x == j || contains j xs

unfoldable pub insert : ℕ → List ℕ → List ℕ
insert j [] = j ∷ []
insert j (x ∷ xs) =
    let rest = insert j xs in if x == j then x ∷ xs else (if ltb j x then j ∷ x ∷ xs else x ∷ rest)

-- The elements ascend, from `n` on.
abbrev pub From : ℕ → List ℕ → Type 0
From n [] = Unit {0}
From n (x ∷ xs) = (n ≤ x) × From (suc x) xs

abbrev pub Below : ℕ → List ℕ → Type 0
Below c xs = All (λ x. x < c) xs

pub insert-From : (n j : ℕ) (xs : List ℕ) → From n xs → n ≤ j → From n (insert j xs)
unfolding insert
insert-From n j [] a h = (h, tt)
insert-From n j (x ∷ xs) a h = ground (arith, insert-From (suc x) j xs a.1)

pub insert-Below : (c j : ℕ) (xs : List ℕ) → Below c xs → j < c → Below c (insert j xs)
unfolding insert
insert-Below c j [] a h = (h, tt)
insert-Below c j (x ∷ xs) a h = ground (arith, insert-Below c j xs a.1 h)

pub contains-insert : (i j : ℕ) (xs : List ℕ) → contains i (insert j xs) ≡ (j == i || contains i xs)
unfolding contains insert
contains-insert i j [] = refl
contains-insert i j (x ∷ xs) = ground (arith, contains-insert i j xs)

pub contains-Below : (i c : ℕ) (xs : List ℕ) → Below c xs → contains i xs ≡ true → i < c
unfolding contains
contains-Below i c [] a h = cc
contains-Below i c (x ∷ xs) a h = ground (arith, contains-Below i c xs a.1)

pub length-Below : (n c : ℕ) (xs : List ℕ) → From n xs → Below c xs → n ≤ c → length xs + n ≤ c
length-Below n c [] a b h = omega arith
length-Below n c (x ∷ xs) a b h = omega (arith, length-Below (suc x) c xs a.1 b.1 (omega arith))

-- A set of numbers below `c` with as many elements as there are holds all of them.
pub contains_full :
    (n c i : ℕ) (xs : List ℕ)
    → From n xs
    → Below c xs
    → length xs + n ≡ c
    → n ≤ i
    → i < c
    → contains i xs ≡ true
unfolding contains
contains_full n c i [] a b e h k = absurd (omega arith)
contains_full n c i (x ∷ xs) a b e h k =
    ground
      (arith, length-Below (suc x) c xs a.1 b.1 (omega arith), contains_full (suc x) c i xs a.1 b.1)

From-contains : (n i : ℕ) (xs : List ℕ) → From n xs → contains i xs ≡ true → n ≤ i
unfolding contains
From-contains n i [] a h = cc
From-contains n i (x ∷ xs) a h = ground (arith, From-contains (suc x) i xs a.1)

-- A set of numbers below `c` that holds all of them has as many elements as there are.
pub length_full :
    (n c : ℕ) (xs : List ℕ)
    → From n xs
    → Below c xs
    → n ≤ c
    → ((i : ℕ) → n ≤ i → i < c → contains i xs ≡ true)
    → length xs + n ≡ c
unfolding contains
length_full n c [] a b h k = ground (arith, k n)
length_full n c (x ∷ xs) a b h k =
    let first : x ≡ n = ground (arith, k n, From-contains (suc x) n xs a.1) in
    omega (
      arith,
      first,
      length_full (suc x) c xs a.1 b.1 (omega arith) (λ i l r. ground (arith, k i, first)),
    )
