-- ===== src/Transfer/Frame.antt =====
-- `AttachmentBlockFrame`: sealing a block, its bytes on the wire, and opening it again.
pub mod RoundTrip
pub mod Decode
pub mod Sealed
pub mod Nonce
use conest.Base.{
  ℕ, ◌+◌, Bool, not, ◌||◌, Option, none, some, List, [], ◌∷◌, ◌++◌, ltb, ◌==◌, length, take, drop,
  replicate,
}
use conest.Base.Bytes.{be_bytes, from_be, slice}
use conest.Base.Outcome.{Outcome, ok, err, ◌>>=◌, ◌>>◌, bail_if}
use conest.Base.Text.{same_text}
use conest.Transfer.{
  Crypto, TransferError, aead_tag_len, plaintext_length, encryption, other_manifest, frame_geometry,
  authentication, digest_mismatch, frame_lengths, frame_header, frame_version, payload_length,
}
use conest.Transfer.Manifest.{
  TransferManifest, attachment_protocol_version, expected_plaintext_len, digest,
}

abbrev pub frame_magic : List ℕ
frame_magic = b'C' ∷ b'A' ∷ b'T' ∷ b'2' ∷ []

abbrev pub frame_header_len : ℕ
frame_header_len = 4 + 2 + 2 + 8 + 4 + 4 + 32

pub record AttachmentBlockFrame : Type 0 where
  pub manifest_digest_prefix : ℕ
  pub block_index : ℕ
  pub plaintext_len : ℕ
  pub plaintext_sha256 : List ℕ
  pub ciphertext : List ℕ

unfoldable pub block_nonce : List ℕ → ℕ → List ℕ
block_nonce prefix i = prefix ++ replicate 4 0 ++ be_bytes 4 i

unfoldable pub block_aad : List ℕ → ℕ → ℕ → List ℕ
block_aad manifest_digest i n = manifest_digest ++ be_bytes 4 i ++ be_bytes 4 n

-- `u64::from_be_bytes(manifest_digest[..8])`
abbrev pub digest_prefix : List ℕ → ℕ
digest_prefix manifest_digest = from_be (take 8 manifest_digest)

-- `ok_or` of an option
abbrev pub or_fail {ℓ} : {A : Type ℓ} → Option A → TransferError → Outcome TransferError A
or_fail none e = err e
or_fail (some a) e = ok a

module _ (C : Crypto) where
  unfoldable pub encrypt :
      TransferManifest → List ℕ → ℕ → List ℕ → Outcome TransferError AttachmentBlockFrame
  encrypt m key i plaintext = do
    expected ← expected_plaintext_len m i
    bail_if (not (length plaintext == expected)) plaintext_length
    ciphertext ←
        or_fail
          (C.seal key (block_nonce m.nonce_prefix i) (block_aad (digest C m) i expected) plaintext)
          encryption
    ok (record {
      manifest_digest_prefix = digest_prefix (digest C m);
      block_index = i;
      plaintext_len = expected;
      plaintext_sha256 = C.sha256 plaintext;
      ciphertext = ciphertext;
    })

  unfoldable pub decrypt :
      AttachmentBlockFrame → TransferManifest → List ℕ → Outcome TransferError (List ℕ)
  decrypt f m key = do
    bail_if (not (f.manifest_digest_prefix == digest_prefix (digest C m))) other_manifest
    expected ← expected_plaintext_len m f.block_index
    bail_if
        (not (f.plaintext_len == expected) || not (length f.ciphertext == expected + aead_tag_len))
        frame_geometry
    plaintext ←
        or_fail
          (C.unseal key (block_nonce m.nonce_prefix f.block_index)
            (block_aad (digest C m) f.block_index expected) f.ciphertext)
          authentication
    bail_if (not (same_text (C.sha256 plaintext) f.plaintext_sha256)) digest_mismatch
    ok plaintext

-- The payload's length is not that of a sealed block.
abbrev pub bad_lengths : ℕ → List ℕ → Bool
bad_lengths n ciphertext = n == 0 || not (length ciphertext == n + aead_tag_len)

unfoldable pub encode : AttachmentBlockFrame → Outcome TransferError (List ℕ)
encode f = do
  bail_if (bad_lengths f.plaintext_len f.ciphertext) frame_lengths
  ok (
      frame_magic
      ++ be_bytes 2 attachment_protocol_version
      ++ be_bytes 2 0
      ++ be_bytes 8 f.manifest_digest_prefix
      ++ be_bytes 4 f.block_index
      ++ be_bytes 4 f.plaintext_len
      ++ f.plaintext_sha256
      ++ f.ciphertext)

unfoldable pub decode : List ℕ → Outcome TransferError AttachmentBlockFrame
decode encoded = do
  bail_if
      (ltb (length encoded) (frame_header_len + aead_tag_len)
        || not (same_text (take 4 encoded) frame_magic))
      frame_header
  version ← slice 4 6 encoded
  bail_if (not (from_be version == attachment_protocol_version)) frame_version
  prefix ← slice 8 16 encoded
  index ← slice 16 20 encoded
  len ← slice 20 24 encoded
  sha256 ← slice 24 56 encoded
  ciphertext ← slice 56 (length encoded) encoded
  bail_if (bad_lengths (from_be len) ciphertext) payload_length
  ok (record {
    manifest_digest_prefix = from_be prefix;
    block_index = from_be index;
    plaintext_len = from_be len;
    plaintext_sha256 = sha256;
    ciphertext = ciphertext;
  })
