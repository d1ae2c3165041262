-- ===== src/Base/OrdMap.antt =====
-- `BTreeMap` with numeric keys: an association list in ascending order of its keys.
use Prim.Native.Nat.{ℕ, ◌+◌, ◌≤◌, ◌<◌}
use mathlib.Core.Path.{◌≡◌, refl}
use mathlib.Core.Bool.{Bool, true}
use mathlib.Core.List.{List, [], ◌∷◌}
use mathlib.Core.Option.{Option, none, some}
use native.Mathlib.Omega.{arith}
use conest.Base.Tests.{ltb, ◌==◌, if◌then◌else◌, is_some}
use conest.Base.Lists.{length}

-- The keys ascend, and lie above `n`.
abbrev pub Above {ℓ} : {V : Type ℓ} → ℕ → List (ℕ × V) → Type 0
Above n [] = Unit {0}
Above n ((k, v) ∷ m) = (n < k) × Above k m

-- Every value satisfies `P`.
abbrev pub Values {ℓ κ} : {V : Type ℓ} → (V → Type κ) → List (ℕ × V) → Type κ
Values P [] = Unit {κ}
Values P ((k, v) ∷ m) = P v × Values P m

module _ {ℓ} {V : Type ℓ} where
  unfoldable pub lookup : ℕ → List (ℕ × V) → Option V
  lookup j [] = none
  lookup j ((k, v) ∷ m) = if k == j then some v else lookup j m

  unfoldable pub contains_key : ℕ → List (ℕ × V) → Bool
  contains_key j m = is_some (lookup j m)

  unfoldable pub insert : ℕ → V → List (ℕ × V) → List (ℕ × V)
  insert j w [] = (j, w) ∷ []
  insert j w ((k, v) ∷ m) =
      if k == j
      then (j, w) ∷ m
      else (if ltb j k then (j, w) ∷ (k, v) ∷ m else (k, v) ∷ insert j w m)

  unfoldable pub remove : ℕ → List (ℕ × V) → List (ℕ × V)
  remove j [] = []
  remove j ((k, v) ∷ m) = if k == j then m else (k, v) ∷ remove j m

  pub Above-mono : (n p : ℕ) (m : List (ℕ × V)) → n ≤ p → Above p m → Above n m
  Above-mono n p [] h a = tt
  Above-mono n p ((k, v) ∷ m) h a = (omega arith, a.1)

  pub lookup_below : (j n : ℕ) (m : List (ℕ × V)) → Above n m → j ≤ n → lookup j m ≡ none
  unfolding lookup
  lookup_below j n [] a h = refl
  lookup_below j n ((k, v) ∷ m) a h = ground (arith, lookup_below j k m a.1)

  pub lookup-insert :
      (j i : ℕ) (w : V) (m : List (ℕ × V))
      → lookup j (insert i w m) ≡ (if i == j then some w else lookup j m)
  unfolding lookup insert
  lookup-insert j i w [] = refl
  lookup-insert j i w ((k, v) ∷ m) = ground (arith, lookup-insert j i w m)

  pub lookup-remove :
      (j i n : ℕ) (m : List (ℕ × V))
      → Above n m
      → lookup j (remove i m) ≡ (if i == j then none else lookup j m)
  unfolding lookup remove
  lookup-remove j i n [] a = ground arith
  lookup-remove j i n ((k, v) ∷ m) a =
      ground (arith, lookup-remove j i k m a.1, lookup_below j k m a.1)

  pub insert-Above :
      (n j : ℕ) (w : V) (m : List (ℕ × V)) → Above n m → n < j → Above n (insert j w m)
  unfolding insert
  insert-Above n j w [] a h = (h, tt)
  insert-Above n j w ((k, v) ∷ m) a h = ground (arith, insert-Above k j w m a.1, Above-mono j k m)

  pub remove-Above : (n j : ℕ) (m : List (ℕ × V)) → Above n m → Above n (remove j m)
  unfolding remove
  remove-Above n j [] a = tt
  remove-Above n j ((k, v) ∷ m) a = ground (arith, remove-Above k j m a.1, Above-mono n k m)

  pub length-remove : (j : ℕ) (m : List (ℕ × V)) → length (remove j m) ≤ length m
  unfolding remove
  length-remove j [] = omega arith
  length-remove j ((k, v) ∷ m) = ground (arith, length-remove j m)

  pub remove_absent : (j : ℕ) (m : List (ℕ × V)) → lookup j m ≡ none → remove j m ≡ m
  unfolding remove lookup
  remove_absent j [] h = refl
  remove_absent j ((k, v) ∷ m) h = ground (arith, remove_absent j m)

  -- Removing a key that is there makes the map one shorter.
  pub length-remove_self :
      (j : ℕ) (m : List (ℕ × V)) → contains_key j m ≡ true → length (remove j m) + 1 ≡ length m
  unfolding remove contains_key lookup
  length-remove_self j [] h = cc
  length-remove_self j ((k, v) ∷ m) h = ground (arith, length-remove_self j m)

  pub length-insert : (j : ℕ) (w : V) (m : List (ℕ × V)) → length (insert j w m) ≤ length m + 1
  unfolding insert
  length-insert j w [] = omega arith
  length-insert j w ((k, v) ∷ m) = ground (arith, length-insert j w m)

  -- Replacing a value keeps the number of entries.
  pub length-insert_self :
      (n j : ℕ) (w : V) (m : List (ℕ × V))
      → Above n m
      → contains_key j m ≡ true
      → length (insert j w m) ≡ length m
  unfolding insert contains_key lookup
  length-insert_self n j w [] a h = cc
  length-insert_self n j w ((k, v) ∷ m) a h =
      ground (arith, length-insert_self k j w m a.1, lookup_below j k m a.1)

module _ {ℓ κ} {V : Type ℓ} (P : V → Type κ) where
  pub insert-Values :
      (j : ℕ) (w : V) (m : List (ℕ × V)) → P w → Values P m → Values P (insert j w m)
  unfolding insert
  insert-Values j w [] h a = (h, tt)
  insert-Values j w ((k, v) ∷ m) h a = ground (arith, insert-Values j w m h a.1)

  pub remove-Values : (j : ℕ) (m : List (ℕ × V)) → Values P m → Values P (remove j m)
  unfolding remove
  remove-Values j [] a = tt
  remove-Values j ((k, v) ∷ m) a = ground (arith, remove-Values j m a.1)

  pub lookup-Values : (j : ℕ) (v : V) (m : List (ℕ × V)) → Values P m → lookup j m ≡ some v → P v
  unfolding lookup
  lookup-Values j v [] a h = cc
  lookup-Values j v ((k, w) ∷ m) a h = ground (arith, lookup-Values j v m a.1)

module _ {ℓ} {V : Type ℓ} where
  -- A write through `get_mut`: the value of a key that is there is replaced.
  unfoldable pub update : ℕ → V → List (ℕ × V) → List (ℕ × V)
  update j w [] = []
  update j w ((k, v) ∷ m) = if k == j then (k, w) ∷ m else (k, v) ∷ update j w m

  pub length-update : (j : ℕ) (w : V) (m : List (ℕ × V)) → length (update j w m) ≡ length m
  unfolding update
  length-update j w [] = refl
  length-update j w ((k, v) ∷ m) = ground (arith, length-update j w m)

  pub update-Above : (n j : ℕ) (w : V) (m : List (ℕ × V)) → Above n m → Above n (update j w m)
  unfolding update
  update-Above n j w [] a = tt
  update-Above n j w ((k, v) ∷ m) a = ground (arith, update-Above k j w m a.1)

  pub lookup-update :
      (j i : ℕ) (w : V) (m : List (ℕ × V))
      → lookup j (update i w m)
        ≡ (if i == j then (if contains_key i m then some w else none) else lookup j m)
  unfolding lookup update contains_key
  lookup-update j i w [] = ground arith
  lookup-update j i w ((k, v) ∷ m) = ground (arith, lookup-update j i w m)

module _ {ℓ κ} {V : Type ℓ} (P : V → Type κ) where
  pub update-Values :
      (j : ℕ) (w : V) (m : List (ℕ × V)) → P w → Values P m → Values P (update j w m)
  unfolding update
  update-Values j w [] h a = tt
  update-Values j w ((k, v) ∷ m) h a = ground (arith, update-Values j w m h a.1)
