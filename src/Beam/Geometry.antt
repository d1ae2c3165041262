-- ===== src/Beam/Geometry.antt =====
-- What a frame that parses is like, and that no bytes make the parser panic.
use conest.Base.{
  ℕ, ◌+◌, ◌*◌, ◌≤◌, ◌<◌, ◌≡◌, refl, subst, Bool-cases, inl, inr, Bool, true, false, not, ◌||◌, List,
  arith, ltb, ◌==◌, length, take,
}
use conest.Base.Text.{same_text}
use conest.Base.Outcome.{
  Outcome, ok, err, panics, ◌>>=◌, ◌>>◌, bail_if, index_below, read_be16_below, read_be32_below,
}
use Prim.Native.Nat.{bit_and}
use conest.Beam.{
  magic, bad_header, bad_version, bad_mode, bad_flags, BeamFrameHeader, Fields, FrameError,
  parse_bytes, read_fields, check_fields, bad_size, bad_blocks, div_ceil, crc32c, cleared,
  max_package_bytes, max_block_size,
}

-- The geometry of a frame of `n` bytes.
pub record IsFrame (n : ℕ) (h : BeamFrameHeader) : Type 0 where
  pub length : n ≡ 50 + h.block_size
  pub small : h.original_length ≤ max_package_bytes
  pub block : (0 < h.block_size) × (h.block_size ≤ max_block_size)
  pub enough : h.original_length ≤ h.source_block_count * h.block_size
  pub tight : h.source_block_count * h.block_size < h.original_length + h.block_size
  pub degree : (0 < h.degree) × (h.degree ≤ h.source_block_count)
  pub source : h.systematic ≡ true → (h.degree ≡ 1) × (h.seed < h.source_block_count)

abbrev pub Parses : ℕ → Outcome FrameError BeamFrameHeader → Type 0
Parses n (ok h) = IsFrame n h
Parses n (err e) = Unit {0}
Parses n panics = ⊥

abbrev IsOk : Outcome FrameError Fields → Type 0
IsOk (ok f) = Unit {0}
IsOk (err e) = ⊥
IsOk panics = ⊥

read_fields-IsOk :
    (bytes : List ℕ) (mode : ℕ) (systematic : Bool)
    → 50 ≤ length bytes
    → IsOk (read_fields bytes mode systematic)
unfolding read_fields
read_fields-IsOk bytes mode systematic h =
    let (a, pa) = read_be32_below {E = FrameError} bytes 24 (omega arith) in
    let (b, pb) = read_be32_below {E = FrameError} bytes 28 (omega arith) in
    let (c, pc) = read_be16_below {E = FrameError} bytes 32 (omega arith) in
    let (d, pd) = read_be32_below {E = FrameError} bytes 34 (omega arith) in
    let (e, pe) = read_be32_below {E = FrameError} bytes 38 (omega arith) in
    let (f, pf) = read_be16_below {E = FrameError} bytes 42 (omega arith) in
    let (g, pg) = read_be16_below {E = FrameError} bytes 44 (omega arith) in
    let (i, pi) = read_be32_below {E = FrameError} bytes 46 (omega arith) in
    rw (pa, pb, pc, pd, pe, pf, pg, pi) tt

div_ceil_enough : (a b : ℕ) → 0 < b → a ≤ div_ceil a b * b
div_ceil_enough a b h = grind arith

div_ceil_tight : (a b : ℕ) → 0 < b → div_ceil a b * b < a + b
div_ceil_tight a b h = grind arith

checked-IsFrame :
    (n : ℕ) (f : Fields)
    → bad_size f.header f.payload_length n ≡ false
    → bad_blocks f.header ≡ false
    → IsFrame n f.header
checked-IsFrame n f p q =
    let h = f.header in
    let size : 0 < h.block_size = ground arith in
    let blocks : div_ceil h.original_length h.block_size ≡ h.source_block_count = ground arith in
    record {
      length = ground arith;
      small = ground arith;
      block = (size, ground arith);
      enough =
          subst (λ k. h.original_length ≤ k * h.block_size) blocks
            (div_ceil_enough h.original_length h.block_size size);
      tight =
          subst (λ k. k * h.block_size < h.original_length + h.block_size) blocks
            (div_ceil_tight h.original_length h.block_size size);
      degree = ground arith;
      source = λ e. ground arith;
    }

check_fields-Parses : (bytes : List ℕ) (f : Fields) → Parses (length bytes) (check_fields bytes f)
unfolding check_fields
check_fields-Parses bytes f =
    elim (Bool-cases (bad_size f.header f.payload_length (length bytes))) [
      | inl e ↦ rw (e, check_fields) tt
      | inr e ↦ elim (Bool-cases (bad_blocks f.header)) [
        | inl k ↦ rw (e, k, check_fields) tt
        | inr k ↦ elim (Bool-cases (crc32c (cleared bytes) == f.crc)) [
          | inl c ↦ rw (e, k, c, check_fields) (checked-IsFrame (length bytes) f e k)
          | inr c ↦ rw (e, k, c, check_fields) tt
        ]
      ]
    ]

-- What follows the reading of the fields.
read-Parses :
    (bytes : List ℕ) (o : Outcome FrameError Fields)
    → IsOk o
    → Parses (length bytes) (o >>= check_fields bytes)
read-Parses bytes (ok f) h = check_fields-Parses bytes f
read-Parses bytes (err e) h = absurd h
read-Parses bytes panics h = absurd h

-- A check that fails ends the parse with an error.
bail-Parses :
    (n : ℕ) (b : Bool) (e : FrameError) (o : Outcome FrameError BeamFrameHeader)
    → (b ≡ false → Parses n o)
    → Parses n (bail_if b e >> o)
bail-Parses n true e o f = tt
bail-Parses n false e o f = f refl

-- Whatever bytes a camera reads, the parser does not panic, and a frame that it accepts is as long
-- as its block says, its blocks are within their bounds and just enough for the original, its
-- degree is at most their number, and a systematic frame carries one of them.
pub parse_bytes-Parses : (bytes : List ℕ) → Parses (length bytes) (parse_bytes bytes)
unfolding parse_bytes
parse_bytes-Parses bytes =
    bail-Parses (length bytes) (ltb (length bytes) 50 || not (same_text (take 4 bytes) magic))
      bad_header _
      (λ long.
        let h : 50 ≤ length bytes = ground arith in
        let (version, a) = index_below {E = FrameError} bytes 4 (omega arith) in
        let (mode, b) = index_below {E = FrameError} bytes 5 (omega arith) in
        let (reserved, c) = index_below {E = FrameError} bytes 7 (omega arith) in
        let (flags, d) = index_below {E = FrameError} bytes 6 (omega arith) in
        rw (a, b, c, d)
          (bail-Parses (length bytes) (not (version == 1)) bad_version _ (λ _.
            bail-Parses (length bytes) (ltb 2 mode || not (reserved == 0)) bad_mode _ (λ _.
              bail-Parses (length bytes) (not (bit_and flags 254 == 0)) bad_flags _ (λ _.
                read-Parses bytes (read_fields bytes mode (bit_and flags 1 == 1))
                  (read_fields-IsOk bytes mode (bit_and flags 1 == 1) h))))))
