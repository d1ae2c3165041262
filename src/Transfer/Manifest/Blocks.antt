-- ===== src/Transfer/Manifest/Blocks.antt =====
-- The blocks of a valid manifest tile its file.
use native.Mathlib.Nat.{mul-le-mul_left, mul-le-mul_right, div-add-mod'}
use conest.Base.{
  ℕ, zero, suc, ◌+◌, ◌-◌, ◌*◌, ◌≤◌, ◌<◌, ◌≡◌, min, true, arith, Bool-cases, ltb→lt, leb-false, leb,
  inl, inr,
}
use conest.Base.Outcome.{Outcome-cases, ok, err, panics}
use conest.Transfer.Manifest.{
  TransferManifest, div_ceil, known_block_size, max_attachment_bytes, validate,
  expected_plaintext_len,
}

-- What validation finds out about a file's size and its blocks.
pub record Geometry (m : TransferManifest) : Type 0 where
  pub not_empty : 0 < m.size_bytes
  pub within : m.size_bytes ≤ max_attachment_bytes
  pub known : known_block_size m.block_size ≡ true
  pub counted : m.block_count ≡ div_ceil m.size_bytes m.block_size

pub validate-Geometry : (m : TransferManifest) → validate m ≡ ok tt → Geometry m
unfolding validate
validate-Geometry m h = ground arith

div_ceil_lem : (a b : ℕ) → 0 < b → (a ≤ div_ceil a b * b) × (div_ceil a b * b < a + b)
div_ceil_lem a b h = ground (arith, div-add-mod' a b)

known_below : (b : ℕ) → known_block_size b ≡ true → (128 * 1024 ≤ b) × (b ≤ 4 * 1024 * 1024)
known_below b h = ground arith

module _ (m : TransferManifest) (g : Geometry m) where
  pub block_size_bounds : (128 * 1024 ≤ m.block_size) × (m.block_size ≤ 4 * 1024 * 1024)
  block_size_bounds = known_below m.block_size g.known

  pub blocks_cover :
      (m.size_bytes ≤ m.block_count * m.block_size)
      × (m.block_count * m.block_size < m.size_bytes + m.block_size)
  blocks_cover =
      rw (g.counted) (div_ceil_lem m.size_bytes m.block_size (omega (arith, block_size_bounds)))

  pub block_starts_below : (i : ℕ) → i < m.block_count → i * m.block_size < m.size_bytes
  block_starts_below i h = omega (
    arith,
    blocks_cover,
    mul-le-mul_right {m = i + 1} {n = m.block_count} m.block_size (omega arith),
  )

  pub block_count_below : (0 < m.block_count) × (m.block_count ≤ 16384)
  block_count_below = ground (
    arith,
    g.not_empty,
    g.within,
    blocks_cover,
    block_starts_below (m.block_count - 1),
    mul-le-mul_left {n = m.block_size} (m.block_count - 1) block_size_bounds.0,
  )

-- The blocks of a manifest before the index `k`, laid end to end, where a block that it refuses
-- counts for nothing.
unfoldable pub bytes_before : TransferManifest → ℕ → ℕ
bytes_before m zero = 0
bytes_before m (suc k) =
    bytes_before m k + (elim (expected_plaintext_len m k) [ ok n ↦ n | err e ↦ 0 | panics ↦ 0 ])

pub expected_plaintext_len-ok :
    (m : TransferManifest) (i : ℕ)
    → validate m ≡ ok tt
    → i < m.block_count
    → expected_plaintext_len m i ≡ ok (min (m.size_bytes - i * m.block_size) m.block_size)
unfolding expected_plaintext_len
expected_plaintext_len-ok m i v h = rw (v) (ground arith)

-- A manifest that gives a length is valid.
pub expected-valid :
    (m : TransferManifest) (i n : ℕ) → expected_plaintext_len m i ≡ ok n → validate m ≡ ok tt
unfolding expected_plaintext_len
expected-valid m i n h = elim (Outcome-cases (validate m)) [
  | inl (tt, v) ↦ v
  | inr (inl (e, v)) ↦ absurd (cc (rw v at h))
  | inr (inr v) ↦ absurd (cc (rw v at h))
]

-- A length that the manifest gives is of a block of it, positive, at most a block, and the block
-- ends within the file; any other index is refused.
pub expected_plaintext_len-bounds :
    (m : TransferManifest) (i n : ℕ)
    → expected_plaintext_len m i ≡ ok n
    → (i < m.block_count) × (0 < n) × (n ≤ m.block_size) × (i * m.block_size + n ≤ m.size_bytes)
unfolding expected_plaintext_len
expected_plaintext_len-bounds m i n h = elim (Outcome-cases (validate m)) [
  | inl (tt, v) ↦ elim (Bool-cases (leb m.block_count i)) [
    | inl out ↦ absurd (cc (rw (v, out) at h))
    | inr e ↦ ground (
      arith,
      rw (v, e) at h,
      block_starts_below m (validate-Geometry m v) i (ltb→lt i m.block_count (leb-false _ i e)),
      block_size_bounds m (validate-Geometry m v),
    )
  ]
  | inr (inl (e, v)) ↦ absurd (cc (rw v at h))
  | inr (inr v) ↦ absurd (cc (rw v at h))
]

pub expected_plaintext_len-min :
    (m : TransferManifest) (i n : ℕ)
    → expected_plaintext_len m i ≡ ok n
    → n ≡ min (m.size_bytes - i * m.block_size) m.block_size
expected_plaintext_len-min m i n h =
    let valid = expected-valid m i n h in
    let below = (expected_plaintext_len-bounds m i n h).0 in
    cc (h, expected_plaintext_len-ok m i valid below)

bytes_before-min :
    (m : TransferManifest) (k : ℕ)
    → validate m ≡ ok tt
    → k ≤ m.block_count
    → bytes_before m k ≡ min (k * m.block_size) m.size_bytes
unfolding bytes_before
bytes_before-min m zero v h = omega arith
bytes_before-min m (suc k) v h =
    rw (expected_plaintext_len-ok m k v (omega arith), bytes_before-min m k v (omega arith))
      (omega arith)

-- The blocks of a valid manifest, laid end to end, are as long as its file.
pub bytes_before-block_count :
    (m : TransferManifest) → validate m ≡ ok tt → bytes_before m m.block_count ≡ m.size_bytes
bytes_before-block_count m v = omega (
  arith,
  bytes_before-min m m.block_count v (omega arith),
  blocks_cover m (validate-Geometry m v),
)
