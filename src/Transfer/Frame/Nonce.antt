-- ===== src/Transfer/Frame/Nonce.antt =====
-- Nonces and associated data keep blocks apart.
use conest.Base.{
  ℕ, ◌^◌, ◌<◌, ◌≡◌, sym, ap, ◌∙◌, List, length, replicate, ◌++◌, arith, append_injective,
  length-append,
}
use conest.Base.Bytes.{be_bytes, length-be_bytes, from_be, from_be-be_bytes}
use conest.Transfer.Frame.{block_nonce, block_aad}

be_bytes_injective : (i j : ℕ) → i < 2 ^ 32 → j < 2 ^ 32 → be_bytes 4 i ≡ be_bytes 4 j → i ≡ j
be_bytes_injective i j h k e =
    sym (from_be-be_bytes 4 i (omega arith)) ∙ ap from_be e ∙ from_be-be_bytes 4 j (omega arith)

-- Of prefixes of 16 bytes and indices of 32 bits, two nonces are equal only when both the prefixes
-- and the indices are.
pub block_nonce_injective :
    (p q : List ℕ) (i j : ℕ)
    → length p ≡ 16
    → length q ≡ 16
    → i < 2 ^ 32
    → j < 2 ^ 32
    → block_nonce p i ≡ block_nonce q j
    → (p ≡ q) × (i ≡ j)
unfolding block_nonce
block_nonce_injective p q i j hp hq hi hj e =
    let (starts, indices) =
      append_injective (p ++ replicate 4 0) (be_bytes 4 i) (q ++ replicate 4 0) (be_bytes 4 j) 20
        (omega (arith, length-append p (replicate 4 0)))
        (omega (arith, length-append q (replicate 4 0))) e in
    (
      (append_injective p (replicate 4 0) q (replicate 4 0) 16 hp hq starts).0,
      be_bytes_injective i j hi hj indices,
    )

-- Associated data of one manifest digest's length tell the digest, the block and its length.
pub block_aad_injective :
    (d e : List ℕ) (i j n p : ℕ)
    → length d ≡ 32
    → length e ≡ 32
    → i < 2 ^ 32
    → j < 2 ^ 32
    → n < 2 ^ 32
    → p < 2 ^ 32
    → block_aad d i n ≡ block_aad e j p
    → (d ≡ e) × (i ≡ j) × (n ≡ p)
unfolding block_aad
block_aad_injective d e i j n p hd he hi hj hn hp h =
    let (starts, lengths) =
      append_injective (d ++ be_bytes 4 i) (be_bytes 4 n) (e ++ be_bytes 4 j) (be_bytes 4 p) 36
        (omega (arith, length-append d (be_bytes 4 i), length-be_bytes 4 i))
        (omega (arith, length-append e (be_bytes 4 j), length-be_bytes 4 j)) h in
    let (digests, indices) = append_injective d (be_bytes 4 i) e (be_bytes 4 j) 32 hd he starts in
    (digests, be_bytes_injective i j hi hj indices, be_bytes_injective n p hn hp lengths)
