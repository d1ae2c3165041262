-- ===== src/Beam/Tests.antt =====
-- A frame at a concrete input.
use conest.Base.{◌≡◌, refl, List, ℕ, [], ◌∷◌, length}
use conest.Beam.{parse_bytes, crc32c, crc_bytes, crc_rounds}
use conest.Beam.Geometry.{Parses, parse_bytes-Parses}

-- The check value of CRC32C.
crc32c_digits : crc32c (49 ∷ 50 ∷ 51 ∷ 52 ∷ 53 ∷ 54 ∷ 55 ∷ 56 ∷ 57 ∷ []) ≡ 3808858755
unfolding crc32c crc_bytes crc_rounds
crc32c_digits = refl

abbrev frame : List ℕ
frame =
    67 ∷ 66 ∷ 77 ∷ 49 ∷ 1 ∷ 0 ∷ 0 ∷ 0 ∷ 1 ∷ 2 ∷ 3 ∷ 4 ∷ 5 ∷ 6 ∷ 7 ∷ 8 ∷ 9 ∷ 10 ∷ 11 ∷ 12 ∷ 13 ∷ 14
    ∷ 15 ∷ 16 ∷ 0 ∷ 0 ∷ 0 ∷ 0 ∷ 0 ∷ 0 ∷ 0 ∷ 3 ∷ 0 ∷ 2 ∷ 0 ∷ 0 ∷ 0 ∷ 2 ∷ 0 ∷ 0 ∷ 0 ∷ 5 ∷ 0 ∷ 1 ∷ 0
    ∷ 2 ∷ 194 ∷ 142 ∷ 39 ∷ 140 ∷ 7 ∷ 8 ∷ []

parse_bytes-Parses_example : Parses (length frame) (parse_bytes frame)
parse_bytes-Parses_example = parse_bytes-Parses frame
