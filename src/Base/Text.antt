-- ===== src/Base/Text.antt =====
-- Texts as lists of their bytes, and maps with texts as keys: a `HashMap` whose order nothing
-- depends on, as an association list.
use Prim.Native.Nat.{ℕ, ◌≤◌}
use mathlib.Core.Path.{◌≡◌, refl}
use mathlib.Core.Bool.{Bool, true, false, ◌&&◌}
use mathlib.Core.List.{List, [], ◌∷◌}
use mathlib.Core.Option.{Option, none, some}
use native.Mathlib.Omega.{arith}
use conest.Base.Lists.{length}
use conest.Base.Tests.{◌==◌, if◌then◌else◌}

abbrev pub Text : Type 0
Text = List ℕ

unfoldable pub same_text : Text → Text → Bool
same_text [] [] = true
same_text [] (y ∷ ys) = false
same_text (x ∷ xs) [] = false
same_text (x ∷ xs) (y ∷ ys) = x == y && same_text xs ys

pub same_text_self : (t : Text) → same_text t t ≡ true
unfolding same_text
same_text_self [] = refl
same_text_self (x ∷ xs) = ground (arith, same_text_self xs)

pub same_text→≡ : (s t : Text) → same_text s t ≡ true → s ≡ t
unfolding same_text
same_text→≡ [] [] h = refl
same_text→≡ [] (y ∷ ys) h = cc
same_text→≡ (x ∷ xs) [] h = cc
same_text→≡ (x ∷ xs) (y ∷ ys) h = ground (arith, same_text→≡ xs ys)

-- `a IS b` of SQL on nullable texts, and `==` on optional ones.
unfoldable pub same_option : Option Text → Option Text → Bool
same_option none none = true
same_option (some s) (some t) = same_text s t
same_option _ _ = false

abbrev pub TextMap {ℓ} : Type ℓ → Type ℓ
TextMap V = List (Text × V)

module _ {ℓ} {V : Type ℓ} where
  unfoldable pub get : Text → TextMap V → Option V
  get t [] = none
  get t ((k, v) ∷ m) = if same_text k t then some v else get t m

  unfoldable pub put : Text → V → TextMap V → TextMap V
  put t w [] = (t, w) ∷ []
  put t w ((k, v) ∷ m) = if same_text k t then (k, w) ∷ m else (k, v) ∷ put t w m

  unfoldable pub remove : Text → TextMap V → TextMap V
  remove t [] = []
  remove t ((k, v) ∷ m) = let rest = remove t m in if same_text k t then rest else (k, v) ∷ rest

  -- `retain` with a test of the value.
  unfoldable pub retain_values : (V → Bool) → TextMap V → TextMap V
  retain_values p [] = []
  retain_values p ((k, v) ∷ m) = let rest = retain_values p m in if p v then (k, v) ∷ rest else rest

  pub get-put_self : (t : Text) (w : V) (m : TextMap V) → get t (put t w m) ≡ some w
  unfolding get put
  get-put_self t w [] = ground (arith, same_text_self t)
  get-put_self t w ((k, v) ∷ m) = ground (arith, get-put_self t w m)

  pub get-put :
      (s t : Text) (w : V) (m : TextMap V)
      → get s (put t w m) ≡ (if same_text t s then some w else get s m)
  unfolding get put
  get-put s t w [] = refl
  get-put s t w ((k, v) ∷ m) = ground (
    arith,
    get-put s t w m,
    same_text→≡ k t,
    same_text→≡ k s,
    same_text→≡ t s,
    same_text_self s,
    same_text_self t,
  )

  pub get-remove :
      (s t : Text) (m : TextMap V) → get s (remove t m) ≡ (if same_text t s then none else get s m)
  unfolding get remove
  get-remove s t [] = ground arith
  get-remove s t ((k, v) ∷ m) = ground (
    arith,
    get-remove s t m,
    same_text→≡ k t,
    same_text→≡ k s,
    same_text→≡ t s,
    same_text_self s,
    same_text_self t,
  )

  pub length-put : (t : Text) (w : V) (m : TextMap V) → length m ≤ length (put t w m)
  unfolding put
  length-put t w [] = omega arith
  length-put t w ((k, v) ∷ m) = ground (arith, length-put t w m)
