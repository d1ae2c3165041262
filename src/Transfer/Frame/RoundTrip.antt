-- ===== src/Transfer/Frame/RoundTrip.antt =====
-- A frame survives the wire, and a sealed block opens to itself.
use conest.Base.{
  ℕ, ◌+◌, ◌^◌, ◌≤◌, ◌<◌, ◌≡◌, refl, List, ◌++◌, length, take, drop, arith, length-append,
  take-append_left, drop-append_left,
}
use conest.Base.Bytes.{be_bytes, from_be, from_be-be_bytes}
use conest.Base.Outcome.{ok}
use conest.Base.Text.{same_text_self}
use conest.Transfer.{aead_tag_len}
use conest.Transfer.Frame.{AttachmentBlockFrame, encode, decode, frame_magic}
use conest.Transfer.Frame.Decode.{fields, decode_long}

-- The numbers fit their fields, and the lengths are those of a sealed block.
pub record IsSound (f : AttachmentBlockFrame) : Type 0 where
  pub prefix : f.manifest_digest_prefix < 2 ^ 64
  pub index : f.block_index < 2 ^ 32
  pub small : f.plaintext_len < 2 ^ 32
  pub positive : 0 < f.plaintext_len
  pub hashed : length f.plaintext_sha256 ≡ 32
  pub sealed : length f.ciphertext ≡ f.plaintext_len + aead_tag_len

abbrev wire : AttachmentBlockFrame → List ℕ
wire f =
    frame_magic
    ++ be_bytes 2 2
    ++ be_bytes 2 0
    ++ be_bytes 8 f.manifest_digest_prefix
    ++ be_bytes 4 f.block_index
    ++ be_bytes 4 f.plaintext_len
    ++ f.plaintext_sha256
    ++ f.ciphertext

module _ (f : AttachmentBlockFrame) (s : IsSound f) where
  encode_sound : encode f ≡ ok (wire f)
  unfolding encode
  encode_sound = ground (arith, s.positive, s.sealed)

  length-wire : 72 ≤ length (wire f)
  unfolding be_bytes
  length-wire = rw (length-append) (omega (arith, s.hashed, s.sealed))

  prefix-wire : from_be (take 8 (drop 8 (wire f))) ≡ f.manifest_digest_prefix
  unfolding be_bytes
  prefix-wire = from_be-be_bytes 8 f.manifest_digest_prefix (omega (arith, s.prefix))

  index-wire : from_be (take 4 (drop 16 (wire f))) ≡ f.block_index
  unfolding be_bytes
  index-wire = from_be-be_bytes 4 f.block_index (omega (arith, s.index))

  len-wire : from_be (take 4 (drop 20 (wire f))) ≡ f.plaintext_len
  unfolding be_bytes
  len-wire = from_be-be_bytes 4 f.plaintext_len (omega (arith, s.small))

  sha256-wire : take 32 (drop 24 (wire f)) ≡ f.plaintext_sha256
  unfolding be_bytes
  sha256-wire = take-append_left f.plaintext_sha256 f.ciphertext 32 s.hashed

  ciphertext-wire : drop 56 (wire f) ≡ f.ciphertext
  unfolding be_bytes
  ciphertext-wire = drop-append_left f.plaintext_sha256 f.ciphertext 32 s.hashed

  fields-wire : fields (wire f) ≡ f
  fields-wire = rw (prefix-wire, index-wire, len-wire, sha256-wire, ciphertext-wire) refl

  header-wire : (take 4 (wire f) ≡ frame_magic) × (from_be (take 2 (drop 4 (wire f))) ≡ 2)
  unfolding be_bytes
  header-wire = (refl, from_be-be_bytes 2 2 (omega arith))

  decode-wire : decode (wire f) ≡ ok f
  decode-wire =
      rw
        (
          decode_long (wire f) length-wire,
          header-wire.0,
          header-wire.1,
          same_text_self frame_magic,
          fields-wire,
          len-wire,
          ciphertext-wire,
        )
        (ground (arith, s.positive, s.sealed))

  -- A frame whose numbers fit their fields, with a payload of the length it names, is encoded, and
  -- decoding the bytes gives it back.
  pub decode-encode : (bytes : List ℕ) × (encode f ≡ ok bytes) × (decode bytes ≡ ok f)
  decode-encode = (wire f, encode_sound, decode-wire)
