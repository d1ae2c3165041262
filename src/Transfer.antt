-- ===== src/Transfer.antt =====
-- Attachment transfer: native/conest_native/src/transfer.rs. The cryptography is of libraries, and
-- an interface here: its operations, and what their documents promise.
pub mod Manifest
pub mod Frame
pub mod Journal
pub mod Partial
mod Tests
use conest.Base.{ℕ, ◌+◌, ◌*◌, ◌-◌, ◌≤◌, ◌^◌, ◌≡◌, Option, some, List, length, All}
use conest.Base.Bytes.{IsByte}

-- `Sha256::digest`, HMAC-SHA256 under a key, and XChaCha20-Poly1305 under a key, a nonce and
-- associated data.
pub record Crypto : Type 0 where
  pub sha256 : List ℕ → List ℕ
  pub hmac : List ℕ → List ℕ → List ℕ
  pub seal : List ℕ → List ℕ → List ℕ → List ℕ → Option (List ℕ)
  pub unseal : List ℕ → List ℕ → List ℕ → List ℕ → Option (List ℕ)

-- The documented limit on a message of XChaCha20-Poly1305.
abbrev pub max_message : ℕ
max_message = 2 ^ 38 - 64

abbrev pub aead_tag_len : ℕ
aead_tag_len = 16

pub record IsLawful (C : Crypto) : Type 0 where
  pub sha256-length : (m : List ℕ) → length (C.sha256 m) ≡ 32
  pub sha256-IsByte : (m : List ℕ) → All IsByte (C.sha256 m)
  pub hmac-length : (k m : List ℕ) → length (C.hmac k m) ≡ 32
  -- A message within the limit is sealed.
  pub seals : (k n a m : List ℕ) → length m ≤ max_message → (c : List ℕ) × (C.seal k n a m ≡ some c)
  -- A sealed message is longer by the tag, and opens to itself.
  pub seal-length :
      (k n a m c : List ℕ) → C.seal k n a m ≡ some c → length c ≡ length m + aead_tag_len
  pub unseal-seal : (k n a m c : List ℕ) → C.seal k n a m ≡ some c → C.unseal k n a c ≡ some m
  -- What opens is shorter by the tag.
  pub unseal-length :
      (k n a c m : List ℕ) → C.unseal k n a c ≡ some m → length c ≡ length m + aead_tag_len

-- The failures of this module, named by the check that finds them.
pub data TransferError : Type 0 where
  protocol_version transfer_id_range message_id_range album_id_range file_name_range mime_type_range
        thumbnail_size metadata_zero size_range block_size_unknown block_geometry block_outside :
      TransferError
  plaintext_length encryption other_manifest frame_geometry authentication digest_mismatch :
      TransferError
  frame_lengths frame_header frame_version payload_length : TransferError
  unsupported_record record_authentication incomplete whole_digest io : TransferError
