-- ===== src/Transfer/Frame/Sealed.antt =====
-- `encrypt` and `decrypt`: what a sealed block opens to, and what an opened block has passed.
use conest.Base.{
  ℕ, ◌+◌, ◌^◌, ◌<◌, ◌≡◌, refl, true, Option, some, List, length, take, arith, All-take,
  Option-cases, inl, inr, length-take, ==_self,
}
use conest.Base.Bytes.{IsByte, from_be_below}
use conest.Base.Outcome.{Outcome-cases, ok}
use conest.Base.Text.{same_text, same_text_self, same_text→≡}
use conest.Transfer.{Crypto, IsLawful, aead_tag_len}
use conest.Transfer.Manifest.{TransferManifest, expected_plaintext_len, digest, digest_input}
use conest.Transfer.Manifest.Blocks.{
  expected_plaintext_len-bounds, Geometry, validate-Geometry, block_size_bounds, block_count_below,
  expected-valid,
}
use conest.Transfer.Frame.{
  AttachmentBlockFrame, block_nonce, block_aad, digest_prefix, encrypt, decrypt, encode, decode,
}
use conest.Transfer.Frame.RoundTrip.{IsSound, decode-encode}

module _ (C : Crypto) (m : TransferManifest) (key : List ℕ) where
  -- What the block `i` of a manifest is sealed with.
  abbrev pub unseal_block : ℕ → ℕ → List ℕ → Option (List ℕ)
  unseal_block i n c = C.unseal key (block_nonce m.nonce_prefix i) (block_aad (digest C m) i n) c

  -- What a frame that opens has passed.
  pub record Opened (f : AttachmentBlockFrame) (plaintext : List ℕ) : Type 0 where
    pub expected : expected_plaintext_len m f.block_index ≡ ok f.plaintext_len
    pub unsealed : unseal_block f.block_index f.plaintext_len f.ciphertext ≡ some plaintext
    pub hashed : C.sha256 plaintext ≡ f.plaintext_sha256
    pub sealed : length f.ciphertext ≡ f.plaintext_len + aead_tag_len

  pub decrypt-Opened :
      (f : AttachmentBlockFrame) (plaintext : List ℕ)
      → decrypt C f m key ≡ ok plaintext
      → Opened f plaintext
  unfolding decrypt
  decrypt-Opened f plaintext h = elim (Outcome-cases (expected_plaintext_len m f.block_index)) [
    | inl (n, e) ↦ elim (Option-cases (unseal_block f.block_index n f.ciphertext)) [
      | inl u ↦ absurd (ground (arith, rw (e, u) at h))
      | inr (p, u) ↦
          let passed : (f.plaintext_len ≡ n)
              × (length f.ciphertext ≡ n + aead_tag_len)
              × (same_text (C.sha256 p) f.plaintext_sha256 ≡ true)
              × (p ≡ plaintext) =
            ground (arith, rw (e, u) at h) in
          record {
            expected = rw (e, passed.0) refl;
            unsealed = rw (passed.0, u, passed.3) refl;
            hashed = rw passed.3 at (same_text→≡ (C.sha256 p) f.plaintext_sha256 passed.2);
            sealed = rw (passed.1, passed.0) refl;
          }
    ]
    | inr (inl (x, e)) ↦ absurd (ground (arith, rw e at h))
    | inr (inr e) ↦ absurd (ground (arith, rw e at h))
  ]

  -- A block that is opened lies within the file, and fills its place.
  pub Opened-length :
      IsLawful C
      → (f : AttachmentBlockFrame) (plaintext : List ℕ) → Opened f plaintext
      → length plaintext ≡ f.plaintext_len
  Opened-length L f plaintext o = omega (arith, o.sealed, L.unseal-length _ _ _ _ _ o.unsealed)

module _ (C : Crypto) (L : IsLawful C) (m : TransferManifest) (key : List ℕ) where
  digest_prefix_below : digest_prefix (digest C m) < 2 ^ 64
  unfolding digest
  digest_prefix_below =
      let d = C.sha256 (digest_input m) in
      ground (
        arith,
        from_be_below (take 8 d) (All-take IsByte 8 d (L.sha256-IsByte _)),
        length-take 8 d,
        L.sha256-length (digest_input m),
      )

  -- The frame of a block and its ciphertext.
  frame_of : ℕ → List ℕ → List ℕ → AttachmentBlockFrame
  frame_of i plaintext c = record {
    manifest_digest_prefix = digest_prefix (digest C m);
    block_index = i;
    plaintext_len = length plaintext;
    plaintext_sha256 = C.sha256 plaintext;
    ciphertext = c;
  }

  module _ (i : ℕ) (plaintext : List ℕ)
      (h : expected_plaintext_len m i ≡ ok (length plaintext)) where
    nonce : List ℕ
    nonce = block_nonce m.nonce_prefix i

    aad : List ℕ
    aad = block_aad (digest C m) i (length plaintext)

    geometry : Geometry m
    geometry = validate-Geometry m (expected-valid m i (length plaintext) h)

    frame_of-IsSound :
        (c : List ℕ) → C.seal key nonce aad plaintext ≡ some c → IsSound (frame_of i plaintext c)
    unfolding frame_of
    frame_of-IsSound c e =
        let bounds = expected_plaintext_len-bounds m i (length plaintext) h in
        record {
          prefix = digest_prefix_below;
          index = omega (arith, bounds, block_count_below m geometry);
          small = omega (arith, bounds, block_size_bounds m geometry);
          positive = bounds.1;
          hashed = L.sha256-length plaintext;
          sealed = L.seal-length key nonce aad plaintext c e;
        }

    encrypt-frame_of :
        (c : List ℕ)
        → C.seal key nonce aad plaintext ≡ some c
        → encrypt C m key i plaintext ≡ ok (frame_of i plaintext c)
    unfolding frame_of encrypt nonce aad
    encrypt-frame_of c e = rw (h, ==_self (length plaintext), e) refl

    decrypt-frame_of :
        (c : List ℕ)
        → C.seal key nonce aad plaintext ≡ some c
        → decrypt C (frame_of i plaintext c) m key ≡ ok plaintext
    unfolding frame_of decrypt nonce aad
    decrypt-frame_of c e =
        rw
          (
            ==_self (digest_prefix (digest C m)),
            h,
            ==_self (length plaintext),
            L.seal-length key nonce aad plaintext c e,
            ==_self (length plaintext + aead_tag_len),
            L.unseal-seal key nonce aad plaintext c e,
            same_text_self (C.sha256 plaintext),
          )
          refl

    -- A block of the right length is sealed, encoded and, at the other end, decoded and opened to
    -- itself.
    pub decrypt-encrypt :
        (f : AttachmentBlockFrame) × (bytes : List ℕ) × (encrypt C m key i plaintext ≡ ok f)
        × (encode f ≡ ok bytes)
        × (decode bytes ≡ ok f)
        × (decrypt C f m key ≡ ok plaintext)
        × (f.block_index ≡ i)
    unfolding frame_of
    decrypt-encrypt =
        let bounds = expected_plaintext_len-bounds m i (length plaintext) h in
        let (c, e) =
          L.seals key nonce aad plaintext (omega (arith, bounds, block_size_bounds m geometry)) in
        let (bytes, sent, read) = decode-encode (frame_of i plaintext c) (frame_of-IsSound c e) in
        (
          frame_of i plaintext c,
          bytes,
          encrypt-frame_of c e,
          sent,
          read,
          decrypt-frame_of c e,
          refl,
        )
