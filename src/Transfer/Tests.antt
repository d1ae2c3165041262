-- ===== src/Transfer/Tests.antt =====
-- A transfer of three bytes under a stand-in for the cryptography, and the theorems at it.
mod Whole
use conest.Base.{
  ℕ, ◌+◌, ◌-◌, ◌*◌, ◌%◌, ◌^◌, ◌≤◌, ◌<◌, ◌≡◌, ◌≢◌, refl, Bool, true, ◌==◌, Option, none, some, List,
  [], ◌∷◌, ◌++◌, map, length, take, drop, replicate, All, ltb, ltb_ge, subst, if◌then◌else◌, arith,
  length-append, length-take, take-append_left, get_elem?, inl,
}
use conest.Base.Bytes.{IsByte, be_bytes, from_be, from_be_onto, slice}
use conest.Base.OrdSet.{contains, insert}
use conest.Base.Outcome.{Outcome, ok, err, panics, ◌>>=◌}
use conest.Base.Text.{same_text}
use conest.Transfer.{Crypto, IsLawful, TransferError, unsupported_record}
use conest.Transfer.Manifest.{
  TransferManifest, AttachmentPresentation, media_presentation, validate, expected_plaintext_len,
  digest, digest_input,
}
use conest.Transfer.Manifest.Blocks.{
  expected_plaintext_len-bounds, bytes_before, bytes_before-block_count,
}
use conest.Transfer.Frame.{
  AttachmentBlockFrame, block_nonce, block_aad, encrypt, decrypt, encode, decode,
}
use conest.Transfer.Frame.Decode.{decode-ne-panics}
use conest.Transfer.Frame.RoundTrip.{decode-encode}
use conest.Transfer.Frame.Sealed.{decrypt-encrypt}
use conest.Transfer.Frame.Nonce.{block_nonce_injective}
use conest.Transfer.Journal.{
  TransferJournal, append, open_journal, load_journal_records, load_records, load_record,
  record_bytes, record_prefix, journal_tag,
}
use conest.Transfer.Journal.Records.{Entry, recorded, journal_bytes}
use conest.Transfer.Journal.Recovery.{Written, open_journal-append_torn, open_journal-append_twice}
use conest.Transfer.Partial.{
  PartialTransfer, System, promoted, set_len, write_at, open_partial, receive_encoded_block,
  store_block, settle, checkpoint, append_all, is_complete, deliver, finalize, received_bytes,
  durable_bytes, blocks_bytes, entries_bytes,
}

checksum : List ℕ → ℕ
checksum [] = 0
checksum (b ∷ bs) = b + checksum bs

abbrev hash : List ℕ → List ℕ
hash m = checksum m % 256 ∷ replicate 31 0

abbrev tag : List ℕ
tag = replicate 16 9

-- The message with a tag of nines behind it.
abbrev toy : Crypto
toy = record {
  sha256 = hash;
  hmac = λ k m. hash (k ++ m);
  seal = λ k n a m. some (m ++ tag);
  unseal = λ k n a c. if ltb (length c) 16 then none else some (take (length c - 16) c);
}

some_injective : {x y : List ℕ} → some x ≡ some y → x ≡ y
some_injective h = cc h

toy_length : (m : List ℕ) → length (m ++ tag) ≡ length m + 16
toy_length m = omega (arith, length-append m tag)

toy_start : (m : List ℕ) → take (length m + 16 - 16) (m ++ tag) ≡ m
toy_start m = take-append_left m tag (length m + 16 - 16) (omega arith)

toy_opens : (m : List ℕ) → toy.unseal [] [] [] (m ++ tag) ≡ some m
toy_opens m = rw (toy_length m, ltb_ge (length m + 16) 16 (omega arith), toy_start m) refl

toy-IsLawful : IsLawful toy
toy-IsLawful = record {
  sha256-length = λ m. refl;
  sha256-IsByte = λ m. omega arith;
  hmac-length = λ k m. refl;
  seals = λ k n a m h. (m ++ tag, refl);
  seal-length = λ k n a m c e. ground (arith, length-append m tag);
  unseal-seal =
      λ k n a m c e. subst (λ x. toy.unseal k n a x ≡ some m) (some_injective e) (toy_opens m);
  unseal-length = λ k n a c m e. ground (arith, length-take (length c - 16) c);
}

abbrev source : List ℕ
source = 7 ∷ 8 ∷ 9 ∷ []

manifest : TransferManifest
manifest = record {
  version = 2;
  transfer_id = b't' ∷ [];
  message_id = b'm' ∷ [];
  album_id = none;
  presentation = media_presentation;
  file_name = b'f' ∷ [];
  mime_type = b'x' ∷ [];
  media_metadata = none;
  thumbnail = [];
  size_bytes = 3;
  block_size = 131072;
  block_count = 1;
  whole_sha256 = 24 ∷ replicate 31 0;
  nonce_prefix = replicate 16 5;
}

manifest_valid : validate manifest ≡ ok tt
unfolding manifest validate
manifest_valid = refl

expected_three : expected_plaintext_len manifest 0 ≡ ok 3
unfolding manifest expected_plaintext_len validate
expected_three = refl

expected_plaintext_len-bounds_example : (0 < 1) × (0 < 3) × (3 ≤ 131072) × (0 * 131072 + 3 ≤ 3)
unfolding manifest
expected_plaintext_len-bounds_example = expected_plaintext_len-bounds manifest 0 3 expected_three

bytes_before-block_count_example : bytes_before manifest 1 ≡ 3
unfolding manifest
bytes_before-block_count_example = bytes_before-block_count manifest manifest_valid

decode-ne-panics_example : decode (67 ∷ 65 ∷ 84 ∷ 50 ∷ 0 ∷ []) ≢ panics
decode-ne-panics_example = decode-ne-panics (67 ∷ 65 ∷ 84 ∷ 50 ∷ 0 ∷ [])

small_frame : AttachmentBlockFrame
small_frame = record {
  manifest_digest_prefix = 77;
  block_index = 2;
  plaintext_len = 1;
  plaintext_sha256 = replicate 32 4;
  ciphertext = replicate 17 6;
}

decode-encode_example :
    (bytes : List ℕ) × (encode small_frame ≡ ok bytes) × (decode bytes ≡ ok small_frame)
unfolding small_frame
decode-encode_example = decode-encode small_frame (record {
  prefix = omega arith;
  index = omega arith;
  small = omega arith;
  positive = omega arith;
  hashed = refl;
  sealed = refl;
})

decrypt-encrypt_example :
    (f : AttachmentBlockFrame) × (bytes : List ℕ) × (encrypt toy manifest [] 0 source ≡ ok f)
    × (encode f ≡ ok bytes)
    × (decode bytes ≡ ok f)
    × (decrypt toy f manifest [] ≡ ok source)
    × (f.block_index ≡ 0)
decrypt-encrypt_example = decrypt-encrypt toy toy-IsLawful manifest [] 0 source expected_three

block_nonce_injective_example :
    (◌≡◌ {A = List ℕ} (replicate 16 5) (replicate 16 5)) × (◌≡◌ {A = ℕ} 3 3)
block_nonce_injective_example =
    block_nonce_injective (replicate 16 5) (replicate 16 5) 3 3 refl refl (omega arith)
      (omega arith) refl

-- A journal with no records, and two entries for it.
empty_journal : TransferJournal
empty_journal = record { file = []; key = 1 ∷ []; durable = [] }

empty_journal-Written : Written toy toy-IsLawful (1 ∷ []) empty_journal []
unfolding empty_journal journal_bytes recorded
empty_journal-Written = record { same_key = refl; stored = refl; listed = refl; sound = tt }

entry : ℕ → Entry
entry i = record { index = i; len = 3; digest = replicate 32 4 }

open_journal-append_torn_example :
    open_journal toy (1 ∷ []) (append toy empty_journal 5 3 (replicate 32 4) (some 70)).1.file
    ≡ ok empty_journal
unfolding entry
open_journal-append_torn_example =
    open_journal-append_torn toy toy-IsLawful (1 ∷ []) empty_journal [] (entry 5) 70
      empty_journal-Written (omega arith)

open_journal-append_twice_example :
    let torn = (append toy empty_journal 5 3 (replicate 32 4) (some 2)).1 in
    let (result, after) = append toy torn 6 3 (replicate 32 4) none in
    (result ≡ ok tt) × (open_journal toy (1 ∷ []) after.file ≡ err unsupported_record)
unfolding entry empty_journal contains
open_journal-append_twice_example =
    open_journal-append_twice toy toy-IsLawful (1 ∷ []) empty_journal [] (entry 5) (entry 6) 2
      empty_journal-Written (record { small = omega arith; hashed = refl })
      (record { small = omega arith; hashed = refl }) refl refl (omega arith) (omega arith)
