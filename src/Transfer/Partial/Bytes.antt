-- ===== src/Transfer/Partial/Bytes.antt =====
-- Bytes of a file by their positions: writes, cuts and reads.
use conest.Base.{
  ℕ, zero, suc, ◌+◌, ◌-◌, ◌≤◌, ◌<◌, ◌≡◌, refl, ◌∙◌, List, [], ◌∷◌, ◌++◌, length, take, drop,
  get_elem?, arith, length-append, length-take, length-drop, length-replicate,
  get_elem?-append_left, replicate, take_all,
}
use mathlib.Core.List.{append-nil}
use native.Mathlib.Nat.{zero-add, suc-add}
use conest.Transfer.Partial.{write_at, set_len}

module _ {ℓ} {A : Type ℓ} where
  get_elem?-append_right :
      (xs ys : List A) (x : ℕ) → get_elem? (xs ++ ys) (length xs + x) ≡ get_elem? ys x
  unfolding get_elem?
  get_elem?-append_right [] ys x = rw (zero-add x) refl
  get_elem?-append_right (a ∷ xs) ys x = rw (suc-add (length xs) x) (get_elem?-append_right xs ys x)

  pub get_elem?-take : (k x : ℕ) (xs : List A) → x < k → get_elem? (take k xs) x ≡ get_elem? xs x
  unfolding get_elem?
  get_elem?-take zero x xs h = absurd (omega arith)
  get_elem?-take (suc k) x [] h = refl
  get_elem?-take (suc k) zero (a ∷ xs) h = refl
  get_elem?-take (suc k) (suc x) (a ∷ xs) h = get_elem?-take k x xs (omega arith)

  pub get_elem?-drop : (k x : ℕ) (xs : List A) → get_elem? (drop k xs) x ≡ get_elem? xs (k + x)
  unfolding get_elem?
  get_elem?-drop zero x xs = rw (zero-add x) refl
  get_elem?-drop (suc k) x [] = refl
  get_elem?-drop (suc k) x (a ∷ xs) = rw (suc-add k x) (get_elem?-drop k x xs)

  pub list_ext :
      (xs ys : List A)
      → length xs ≡ length ys
      → ((x : ℕ) → x < length xs → get_elem? xs x ≡ get_elem? ys x)
      → xs ≡ ys
  unfolding get_elem?
  list_ext [] [] h e = refl
  list_ext [] (y ∷ ys) h e = absurd (omega arith)
  list_ext (x ∷ xs) [] h e = absurd (omega arith)
  list_ext (x ∷ xs) (y ∷ ys) h e =
      cc (e 0 (omega arith), list_ext xs ys (omega arith) (λ i l. e (suc i) (omega arith)))

-- A write within a file keeps its length.
pub length-write_at :
    (offset : ℕ) (bytes file : List ℕ)
    → offset + length bytes ≤ length file
    → length (write_at offset bytes file) ≡ length file
unfolding write_at
length-write_at offset bytes file h =
    let front : length (take offset file) ≡ offset = omega (arith, length-take offset file) in
    omega (
      arith,
      front,
      length-append (take offset file ++ bytes) (drop (offset + length bytes) file),
      length-append (take offset file) bytes,
      length-drop (offset + length bytes) file,
    )

pub write_at_inside :
    (offset x : ℕ) (bytes file : List ℕ)
    → offset + length bytes ≤ length file
    → x < length bytes
    → get_elem? (write_at offset bytes file) (offset + x) ≡ get_elem? bytes x
unfolding write_at
write_at_inside offset x bytes file h k =
    let front : length (take offset file) ≡ offset = omega (arith, length-take offset file) in
    get_elem?-append_left (take offset file ++ bytes) _ (offset + x)
      (omega (arith, front, length-append (take offset file) bytes))
    ∙ rw front at (get_elem?-append_right (take offset file) bytes x)

pub write_at_before :
    (offset x : ℕ) (bytes file : List ℕ)
    → offset + length bytes ≤ length file
    → x < offset
    → get_elem? (write_at offset bytes file) x ≡ get_elem? file x
unfolding write_at
write_at_before offset x bytes file h k =
    let front : length (take offset file) ≡ offset = omega (arith, length-take offset file) in
    get_elem?-append_left (take offset file ++ bytes) _ x
      (omega (arith, front, length-append (take offset file) bytes))
    ∙ get_elem?-append_left (take offset file) bytes x (omega (arith, front))
    ∙ get_elem?-take offset x file k

pub write_at_after :
    (offset x : ℕ) (bytes file : List ℕ)
    → offset + length bytes ≤ length file
    → get_elem? (write_at offset bytes file) (offset + length bytes + x)
      ≡ get_elem? file (offset + length bytes + x)
unfolding write_at
write_at_after offset x bytes file h =
    let front : length (take offset file ++ bytes) ≡ offset + length bytes =
      omega (arith, length-take offset file, length-append (take offset file) bytes) in
    rw front at
      (get_elem?-append_right (take offset file ++ bytes) (drop (offset + length bytes) file) x)
    ∙ get_elem?-drop (offset + length bytes) x file

pub length-set_len : (n : ℕ) (file : List ℕ) → length (set_len n file) ≡ n
unfolding set_len
length-set_len n file = omega (
  arith,
  length-append (take n file) (replicate (n - length file) 0),
  length-take n file,
  length-replicate {A = ℕ} (n - length file) 0,
)

zero_sub : (n : ℕ) (file : List ℕ) → length file ≡ n → n - length file ≡ 0
zero_sub n file h = omega arith

pub set_len_same : (n : ℕ) (file : List ℕ) → length file ≡ n → set_len n file ≡ file
unfolding set_len
set_len_same n file h = rw (take_all file n (omega arith), zero_sub n file h) (append-nil file)
