-- ===== src/Transfer/Manifest.antt =====
-- `TransferManifest`: its validation, the geometry of its blocks and what its digest covers.
pub mod Blocks
use conest.Base.{
  ℕ, ◌+◌, ◌-◌, ◌*◌, ◌/◌, ◌%◌, ◌^◌, min, Bool, true, false, not, ◌&&◌, ◌||◌, Option, none, some,
  List, [], ◌∷◌, ◌++◌, ltb, leb, ◌==◌, if◌then◌else◌, length,
}
use conest.Base.Bytes.{be_bytes}
use conest.Base.Outcome.{Outcome, ok, ◌>>=◌, ◌>>◌, bail_if}
use conest.Base.Text.{Text}
use conest.Transfer.{
  Crypto, TransferError, protocol_version, transfer_id_range, message_id_range, album_id_range,
  file_name_range, mime_type_range, thumbnail_size, metadata_zero, size_range, block_size_unknown,
  block_geometry, block_outside,
}

abbrev pub attachment_protocol_version : ℕ
attachment_protocol_version = 2

abbrev pub attachment_block_size : ℕ
attachment_block_size = 128 * 1024

abbrev pub attachment_lan_block_size : ℕ
attachment_lan_block_size = 4 * 1024 * 1024

abbrev pub attachment_iroh_block_size : ℕ
attachment_iroh_block_size = 1024 * 1024

abbrev pub max_attachment_bytes : ℕ
max_attachment_bytes = 2 * 1024 * 1024 * 1024

pub data AttachmentPresentation : Type 0 where
  media_presentation file_presentation : AttachmentPresentation

pub record TransferMediaMetadata : Type 0 where
  pub width : Option ℕ
  pub height : Option ℕ
  pub duration_millis : Option ℕ

pub record TransferManifest : Type 0 where
  pub version : ℕ
  pub transfer_id : Text
  pub message_id : Text
  pub album_id : Option Text
  pub presentation : AttachmentPresentation
  pub file_name : Text
  pub mime_type : Text
  pub media_metadata : Option TransferMediaMetadata
  pub thumbnail : List ℕ
  pub size_bytes : ℕ
  pub block_size : ℕ
  pub block_count : ℕ
  pub whole_sha256 : List ℕ
  pub nonce_prefix : List ℕ

-- `x.is_empty() || x.len() > limit`
abbrev pub out_of_range : Text → ℕ → Bool
out_of_range x limit = length x == 0 || ltb limit (length x)

abbrev pub is_zero : Option ℕ → Bool
is_zero none = false
is_zero (some n) = n == 0

abbrev pub long_album : Option Text → Bool
long_album none = false
long_album (some x) = ltb 160 (length x)

abbrev pub zero_metadata : Option TransferMediaMetadata → Bool
zero_metadata none = false
zero_metadata (some m) = is_zero m.width || is_zero m.height || is_zero m.duration_millis

-- `div_ceil`
abbrev pub div_ceil : ℕ → ℕ → ℕ
div_ceil a b = a / b + (if ltb 0 (a % b) then 1 else 0)

abbrev pub known_block_size : ℕ → Bool
known_block_size b =
    b == attachment_block_size || b == attachment_iroh_block_size || b == attachment_lan_block_size

unfoldable pub validate : TransferManifest → Outcome TransferError (Unit {0})
validate m = do
  bail_if (not (m.version == attachment_protocol_version)) protocol_version
  bail_if (out_of_range m.transfer_id 160) transfer_id_range
  bail_if (out_of_range m.message_id 160) message_id_range
  bail_if (long_album m.album_id) album_id_range
  bail_if (out_of_range m.file_name 255) file_name_range
  bail_if (out_of_range m.mime_type 255) mime_type_range
  bail_if (ltb (64 * 1024) (length m.thumbnail)) thumbnail_size
  bail_if (zero_metadata m.media_metadata) metadata_zero
  bail_if (m.size_bytes == 0 || ltb max_attachment_bytes m.size_bytes) size_range
  bail_if (not (known_block_size m.block_size)) block_size_unknown
  bail_if (m.block_count == 0 || not (m.block_count == div_ceil m.size_bytes m.block_size))
      block_geometry
  ok tt

-- The cast to u32 keeps a number of at most a block's length.
unfoldable pub expected_plaintext_len : TransferManifest → ℕ → Outcome TransferError ℕ
expected_plaintext_len m i = do
  validate m
  bail_if (leb m.block_count i) block_outside
  ok (min (m.size_bytes - i * m.block_size) m.block_size)

abbrev presentation_byte : AttachmentPresentation → ℕ
presentation_byte media_presentation = 0
presentation_byte file_presentation = 1

-- A byte string behind its length as a u32.
abbrev measured : List ℕ → List ℕ
measured x = be_bytes 4 (length x % 2 ^ 32) ++ x

abbrev or_zero : Option ℕ → ℕ
or_zero none = 0
or_zero (some n) = n

abbrev or_empty : Option Text → Text
or_empty none = []
or_empty (some x) = x

abbrev metadata_bytes : Option TransferMediaMetadata → List ℕ
metadata_bytes none = 0 ∷ []
metadata_bytes (some m) =
    1 ∷ be_bytes 4 (or_zero m.width)
    ++ be_bytes 4 (or_zero m.height)
    ++ be_bytes 8 (or_zero m.duration_millis)

-- What the digest is fed, in order.
unfoldable pub digest_input : TransferManifest → List ℕ
digest_input m =
    be_bytes 2 m.version
    ++ measured m.transfer_id
    ++ measured m.message_id
    ++ measured (or_empty m.album_id)
    ++ presentation_byte m.presentation ∷ []
    ++ measured m.file_name
    ++ measured m.mime_type
    ++ metadata_bytes m.media_metadata
    ++ measured m.thumbnail
    ++ be_bytes 8 m.size_bytes
    ++ be_bytes 4 m.block_size
    ++ be_bytes 4 m.block_count
    ++ m.whole_sha256
    ++ m.nonce_prefix

unfoldable pub digest : Crypto → TransferManifest → List ℕ
digest C m = C.sha256 (digest_input m)
