-- ===== src/Ble/LinkId.antt =====
-- `Core::id` and `Core::parse_id` of native/conest_native/src/ble/core.rs. A text is the list of
-- its bytes.
use conest.Base.{
  ℕ, zero, suc, ◌+◌, ◌-◌, ◌*◌, ◌/◌, ◌%◌, ◌^◌, ◌≤◌, ◌<◌, ◌≡◌, refl, ◌&&◌, Option, none, some, List,
  [], ◌∷◌, ◌++◌, arith, ltb, leb, ◌==◌, if◌then◌else◌, length, length-append, All, All-append,
  le→leb, ap, ◌∙◌, subst,
}
use mathlib.Core.List.{append_assoc, append-nil}
use native.Mathlib.Nat.{pow-suc}
use conest.Base.Words.{u64_max}

-- A digit of `{:x}`.
abbrev hex_digit : ℕ → ℕ
hex_digit d = if ltb d 10 then b'0' + d else b'a' + (d - 10)

-- `char::to_digit(16)`
abbrev digit_value : ℕ → Option ℕ
digit_value c =
    if leb b'0' c && leb c b'9'
    then some (c - b'0')
    else (if leb b'a' c && leb c b'f'
        then some (c - b'a' + 10)
        else (if leb b'A' c && leb c b'F' then some (c - b'A' + 10) else none))

-- The last `k` digits of `n`, highest first: `{n:016x}` at k = 16 for a u64.
hex_text : ℕ → ℕ → List ℕ
hex_text zero n = []
hex_text (suc k) n = hex_text k (n / 16) ++ hex_digit (n % 16) ∷ []

abbrev prefix : List ℕ
prefix = b'b' ∷ b'l' ∷ b'e' ∷ b':' ∷ []

pub id : ℕ → List ℕ
id n = prefix ++ hex_text 16 n

-- The digits of `u64::from_str_radix(_, 16)`: `none` on a bad digit or past the u64.
digits_from : ℕ → List ℕ → Option ℕ
digits_from acc [] = some acc
digits_from acc (c ∷ cs) = elim (digit_value c) [
  | none ↦ none
  | some d ↦
      let next = acc * 16 + d in
      let rest = digits_from next cs in if leb next u64_max then rest else none
]

-- A sign of plus may stand in front of at least one digit.
from_str_radix16 : List ℕ → Option ℕ
from_str_radix16 [] = none
from_str_radix16 (c ∷ []) = if c == b'+' then none else digits_from 0 (c ∷ [])
from_str_radix16 (c ∷ d ∷ cs) =
    if c == b'+' then digits_from 0 (d ∷ cs) else digits_from 0 (c ∷ d ∷ cs)

-- `starts_with("ble:")`, with what follows it.
after_prefix : List ℕ → Option (List ℕ)
after_prefix (a ∷ b ∷ c ∷ d ∷ rest) =
    if a == b'b' && b == b'l' && c == b'e' && d == b':' then some rest else none
after_prefix _ = none

pub parse_id : List ℕ → Option ℕ
parse_id text =
    if length text == 20
    then (elim (after_prefix text) [ none ↦ none | some rest ↦ from_str_radix16 rest ])
    else none

digit_value-hex_digit : (d : ℕ) → d < 16 → digit_value (hex_digit d) ≡ some d
digit_value-hex_digit d h = ground arith

length-hex_text : (k n : ℕ) → length (hex_text k n) ≡ k
unfolding hex_text
length-hex_text zero n = refl
length-hex_text (suc k) n = omega (
  arith,
  length-append (hex_text k (n / 16)) (hex_digit (n % 16) ∷ []),
  length-hex_text k (n / 16),
)

hex_text_digits : (k n : ℕ) → All (λ c. 48 ≤ c) (hex_text k n)
unfolding hex_text
hex_text_digits zero n = tt
hex_text_digits (suc k) n =
    All-append (λ c. 48 ≤ c) (hex_text k (n / 16)) (hex_digit (n % 16) ∷ [])
      (hex_text_digits k (n / 16)) (ground arith)

digits_from_step :
    (acc d : ℕ) (cs : List ℕ)
    → d < 16
    → acc * 16 + d ≤ u64_max
    → digits_from acc (hex_digit d ∷ cs) ≡ digits_from (acc * 16 + d) cs
unfolding digits_from
digits_from_step acc d cs h fits =
    rw (digit_value-hex_digit d h, digits_from) (rw (le→leb (acc * 16 + d) u64_max fits) refl)

digits_from-hex_text :
    (k n acc : ℕ) (cs : List ℕ)
    → n < 16 ^ k
    → acc * 16 ^ k + n ≤ u64_max
    → digits_from acc (hex_text k n ++ cs) ≡ digits_from (acc * 16 ^ k + n) cs
unfolding hex_text
digits_from-hex_text zero n acc cs h fits = ap (λ (m : ℕ). digits_from m cs) (omega arith)
digits_from-hex_text (suc k) n acc cs h fits =
    rw (append_assoc (hex_text k (n / 16)) (hex_digit (n % 16) ∷ []) cs) (
      digits_from-hex_text k (n / 16) acc (hex_digit (n % 16) ∷ cs) (omega (arith, pow-suc 16 k))
        (omega (arith, shift))
      ∙ digits_from_step (acc * 16 ^ k + n / 16) (n % 16) cs (omega arith) (omega (arith, shift))
      ∙ ap (λ (m : ℕ). digits_from m cs) (omega (arith, shift)))
  where
    shift : acc * 16 ^ suc k ≡ acc * 16 ^ k * 16
    shift = omega (arith, ap (λ (t : ℕ). acc * t) (pow-suc 16 k))

from_str_radix16_plain :
    (text : List ℕ)
    → 0 < length text
    → All (λ c. 48 ≤ c) text
    → from_str_radix16 text ≡ digits_from 0 text
unfolding from_str_radix16
from_str_radix16_plain [] h a = elim h [ ]
from_str_radix16_plain (c ∷ []) h a = ground arith
from_str_radix16_plain (c ∷ d ∷ cs) h a = ground arith

from_str_radix16-hex_text : (n : ℕ) → n ≤ u64_max → from_str_radix16 (hex_text 16 n) ≡ some n
from_str_radix16-hex_text n h =
    from_str_radix16_plain (hex_text 16 n) (omega (arith, length-hex_text 16 n))
      (hex_text_digits 16 n)
    ∙ subst (λ (t : List ℕ). digits_from 0 t ≡ some n) (append-nil (hex_text 16 n))
        (digits_from-hex_text 16 n 0 [] (omega arith) (omega arith)
          ∙ unfold digits_from in ap some (omega arith))

parse_prefixed : (t : List ℕ) → length t ≡ 16 → parse_id (prefix ++ t) ≡ from_str_radix16 t
unfolding parse_id after_prefix
parse_prefixed t h = rw h refl

-- Reading an id's text gives the id back, for every id of 64 bits.
pub parse_id-id : (n : ℕ) → n ≤ u64_max → parse_id (id n) ≡ some n
unfolding id
parse_id-id n h =
    parse_prefixed (hex_text 16 n) (length-hex_text 16 n) ∙ from_str_radix16-hex_text n h
