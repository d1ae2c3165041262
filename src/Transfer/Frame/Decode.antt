-- ===== src/Transfer/Frame/Decode.antt =====
-- `decode` on any input: its slices lie within the input.
use conest.Base.{
  refl, ℕ, ◌-◌, ◌≤◌, ◌≡◌, ◌≢◌, not, List, length, take, drop, ltb, ltb_ge, ◌==◌, arith, ltb-false,
  Bool-cases, inl, inr, take_all, length-drop,
}
use conest.Base.Bytes.{from_be, slice, slice_within}
use conest.Base.Outcome.{Outcome, ok, panics, ◌>>◌, bail_if}
use conest.Base.Text.{same_text}
use conest.Transfer.{TransferError, frame_header, frame_version, payload_length}
use conest.Transfer.Manifest.{attachment_protocol_version}
use conest.Transfer.Frame.{AttachmentBlockFrame, decode, frame_magic, bad_lengths}

-- The parts of an encoded frame.
abbrev pub fields : List ℕ → AttachmentBlockFrame
fields encoded = record {
  manifest_digest_prefix = from_be (take 8 (drop 8 encoded));
  block_index = from_be (take 4 (drop 16 encoded));
  plaintext_len = from_be (take 4 (drop 20 encoded));
  plaintext_sha256 = take 32 (drop 24 encoded);
  ciphertext = drop 56 encoded;
}

abbrev pub checked : List ℕ → Outcome TransferError AttachmentBlockFrame
checked encoded = do
  bail_if (not (same_text (take 4 encoded) frame_magic)) frame_header
  bail_if (not (from_be (take 2 (drop 4 encoded)) == attachment_protocol_version)) frame_version
  bail_if (bad_lengths (from_be (take 4 (drop 20 encoded))) (drop 56 encoded)) payload_length
  ok (fields encoded)

last_slice :
    (encoded : List ℕ)
    → 72 ≤ length encoded
    → slice {E = TransferError} 56 (length encoded) encoded ≡ ok (drop 56 encoded)
last_slice encoded h =
    rw
      (
        slice_within 56 (length encoded) encoded (omega arith) (omega arith),
        take_all (drop 56 encoded) (length encoded - 56) (omega (arith, length-drop 56 encoded)),
      )
      refl

pub decode_long : (encoded : List ℕ) → 72 ≤ length encoded → decode encoded ≡ checked encoded
unfolding decode
decode_long encoded h =
    rw
      (
        ltb_ge (length encoded) 72 h,
        slice_within 4 6 encoded (omega arith) (omega arith),
        slice_within 8 16 encoded (omega arith) (omega arith),
        slice_within 16 20 encoded (omega arith) (omega arith),
        slice_within 20 24 encoded (omega arith) (omega arith),
        slice_within 24 56 encoded (omega arith) (omega arith),
        last_slice encoded h,
      )
      refl

-- No input makes `decode` read past its end: it returns a frame or an error.
pub decode-ne-panics : (encoded : List ℕ) → decode encoded ≢ panics
unfolding decode
decode-ne-panics encoded = elim (Bool-cases (ltb (length encoded) 72)) [
  | inl short ↦ rw (short) (λ e. cc)
  | inr long ↦ rw (decode_long encoded (ltb-false _ _ long)) (λ e. ground arith)
]
