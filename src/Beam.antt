-- ===== src/Beam.antt =====
-- The header of a light-beam frame: native/conest_native/src/beam.rs. The base64 decoder is a
-- library's, and a parameter.
pub mod Geometry
mod Tests
use Prim.Native.Nat.{bit_and, bit_xor}
use conest.Base.{
  ℕ, zero, suc, ◌+◌, ◌-◌, ◌*◌, ◌/◌, ◌%◌, ◌^◌, ◌≡◌, Bool, true, false, not, ◌&&◌, ◌||◌, Option, none,
  some, List, [], ◌∷◌, ◌++◌, ltb, leb, ◌==◌, if◌then◌else◌, length, take, drop,
}
use conest.Base.Text.{Text, same_text}
use conest.Base.Outcome.{
  Outcome, ok, err, panics, ◌>>=◌, ◌>>◌, bail_if, index, read_be16, read_be32,
}

abbrev pub header_length : ℕ
header_length = 50

abbrev pub max_block_size : ℕ
max_block_size = 2048

abbrev pub max_package_bytes : ℕ
max_package_bytes = 64 * 1024 * 1024 + 64 * 1024 + 4

pub record BeamFrameHeader : Type 0 where
  pub mode : ℕ
  pub systematic : Bool
  pub transfer_id : List ℕ
  pub original_length : ℕ
  pub block_size : ℕ
  pub source_block_count : ℕ
  pub seed : ℕ
  pub degree : ℕ

-- The failures of the parser, in the order of its checks.
pub data FrameError : Type 0 where
  not_beam bad_base64 bad_header bad_version bad_mode bad_flags bad_dimensions bad_geometry
        bad_crc :
      FrameError

abbrev magic : List ℕ
magic = b'C' ∷ b'B' ∷ b'M' ∷ b'1' ∷ []

-- The eight rounds of one byte.
pub crc_rounds : ℕ → ℕ → ℕ
crc_rounds zero crc = crc
crc_rounds (suc n) crc =
    crc_rounds n (if crc % 2 == 1 then bit_xor (crc / 2) 2197175160 else crc / 2)

pub crc_bytes : ℕ → List ℕ → ℕ
crc_bytes crc [] = crc
crc_bytes crc (b ∷ bs) = crc_bytes (crc_rounds 8 (bit_xor crc b)) bs

pub crc32c : List ℕ → ℕ
crc32c bytes = bit_xor (crc_bytes 4294967295 bytes) 4294967295

-- The header's numbers as they are read; every slice is of a fixed place.
pub record Fields : Type 0 where
  pub header : BeamFrameHeader
  pub payload_length : ℕ
  pub crc : ℕ

pub read_fields : List ℕ → ℕ → Bool → Outcome FrameError Fields
read_fields bytes mode systematic = do
  high ← read_be32 bytes 24
  low ← read_be32 bytes 28
  block_size ← read_be16 bytes 32
  source_block_count ← read_be32 bytes 34
  seed ← read_be32 bytes 38
  degree ← read_be16 bytes 42
  payload_length ← read_be16 bytes 44
  crc ← read_be32 bytes 46
  ok (record {
    header = record {
      mode = mode;
      systematic = systematic;
      transfer_id = take 16 (drop 8 bytes);
      original_length = high * 4294967296 + low;
      block_size = block_size;
      source_block_count = source_block_count;
      seed = seed;
      degree = degree;
    };
    payload_length = payload_length;
    crc = crc;
  })

abbrev pub bad_size : BeamFrameHeader → ℕ → ℕ → Bool
bad_size h payload n =
    h.original_length == 0
    || ltb max_package_bytes h.original_length
    || h.block_size == 0
    || ltb max_block_size h.block_size
    || not (payload == h.block_size)
    || not (n == header_length + payload)
    || h.source_block_count == 0
    || h.degree == 0
    || ltb h.source_block_count h.degree

-- `div_ceil`
abbrev pub div_ceil : ℕ → ℕ → ℕ
div_ceil a b = a / b + (if ltb 0 (a % b) then 1 else 0)

abbrev pub bad_blocks : BeamFrameHeader → Bool
bad_blocks h =
    not (div_ceil h.original_length h.block_size == h.source_block_count)
    || h.systematic && (not (h.degree == 1) || leb h.source_block_count h.seed)

-- The frame with the bytes of its checksum cleared.
abbrev pub cleared : List ℕ → List ℕ
cleared bytes = take 46 bytes ++ 0 ∷ 0 ∷ 0 ∷ 0 ∷ drop 50 bytes

pub check_fields : List ℕ → Fields → Outcome FrameError BeamFrameHeader
check_fields bytes f = do
  bail_if (bad_size f.header f.payload_length (length bytes)) bad_dimensions
  bail_if (bad_blocks f.header) bad_geometry
  bail_if (not (crc32c (cleared bytes) == f.crc)) bad_crc
  ok f.header

pub parse_bytes : List ℕ → Outcome FrameError BeamFrameHeader
parse_bytes bytes = do
  bail_if (ltb (length bytes) header_length || not (same_text (take 4 bytes) magic)) bad_header
  version ← index bytes 4
  bail_if (not (version == 1)) bad_version
  mode ← index bytes 5
  reserved ← index bytes 7
  bail_if (ltb 2 mode || not (reserved == 0)) bad_mode
  flags ← index bytes 6
  bail_if (not (bit_and flags 254 == 0)) bad_flags
  fields ← read_fields bytes mode (bit_and flags 1 == 1)
  check_fields bytes fields

abbrev beam_prefix : Text
beam_prefix = b'c' ∷ b'b' ∷ b'1' ∷ b':' ∷ []

pub parse_text : (Text → Option (List ℕ)) → Text → Outcome FrameError BeamFrameHeader
parse_text decode value =
    if same_text (take 4 value) beam_prefix
    then (elim (decode (drop 4 value)) [ none ↦ err bad_base64 | some bytes ↦ parse_bytes bytes ])
    else err not_beam
