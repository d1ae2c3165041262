-- ===== src/Transfer/Journal/Records.antt =====
-- The records of a journal: their length, and what loading them gives.
use mathlib.Core.List.{append_assoc}
use native.Mathlib.Nat.{zero-add, suc-add}
use conest.Base.{
  ℕ, ◌+◌, ◌*◌, ◌^◌, ◌<◌, ◌≡◌, refl, List, [], ◌∷◌, ◌++◌, length, take, drop, All, arith,
  length-append, take-append_left, drop-append_left,
}
use conest.Base.Bytes.{be_bytes, from_be, from_be-be_bytes}
use conest.Base.OrdSet.{insert}
use conest.Base.Outcome.{ok}
use conest.Base.Text.{same_text_self}
use conest.Transfer.{Crypto, IsLawful}
use conest.Transfer.Journal.{
  journal_magic, record_prefix, journal_tag, record_bytes, load_record, load_records,
}

-- What one record says.
pub record Entry : Type 0 where
  pub index : ℕ
  pub len : ℕ
  pub digest : List ℕ

pub record IsSound (e : Entry) : Type 0 where
  pub small : e.index < 2 ^ 32
  pub hashed : length e.digest ≡ 32

-- The blocks that a journal names.
unfoldable pub recorded : List Entry → List ℕ → List ℕ
recorded [] durable = durable
recorded (e ∷ es) durable = recorded es (insert e.index durable)

pub recorded-append :
    (es fs : List Entry) (d : List ℕ) → recorded (es ++ fs) d ≡ recorded fs (recorded es d)
unfolding recorded
recorded-append [] fs d = refl
recorded-append (e ∷ es) fs d = recorded-append es fs (insert e.index d)

module _ (C : Crypto) (key : List ℕ) where
  unfoldable pub entry_bytes : Entry → List ℕ
  entry_bytes e = record_bytes C key e.index e.len e.digest

  -- The file of a journal with these records.
  unfoldable pub journal_bytes : List Entry → List ℕ
  journal_bytes [] = []
  journal_bytes (e ∷ es) = entry_bytes e ++ journal_bytes es

module _ (C : Crypto) (L : IsLawful C) (key : List ℕ) where
  abbrev bytes_of : Entry → List ℕ
  bytes_of e = entry_bytes C key e

  abbrev bytes_all : List Entry → List ℕ
  bytes_all es = journal_bytes C key es

  length-record_prefix :
      (e : Entry) → IsSound e → length (record_prefix e.index e.len e.digest) ≡ 48
  unfolding record_prefix be_bytes
  length-record_prefix e s = omega (arith, s.hashed)

  pub length-entry_bytes : (e : Entry) → IsSound e → length (bytes_of e) ≡ 80
  unfolding entry_bytes record_bytes journal_tag
  length-entry_bytes e s =
      let prefix = record_prefix e.index e.len e.digest in
      omega (
        arith,
        length-append prefix (C.hmac key prefix),
        length-record_prefix e s,
        L.hmac-length key prefix,
      )

  index-entry_bytes : (e : Entry) → IsSound e → from_be (take 4 (drop 8 (bytes_of e))) ≡ e.index
  unfolding entry_bytes record_bytes record_prefix be_bytes
  index-entry_bytes e s = from_be-be_bytes 4 e.index (omega (arith, s.small))

  magic-entry_bytes :
      (e : Entry)
      → (take 4 (bytes_of e) ≡ journal_magic) × (from_be (take 2 (drop 4 (bytes_of e))) ≡ 2)
  unfolding entry_bytes record_bytes record_prefix be_bytes
  magic-entry_bytes e = (refl, from_be-be_bytes 2 2 (omega arith))

  tag-entry_bytes :
      (e : Entry) → IsSound e → journal_tag C key (take 48 (bytes_of e)) ≡ drop 48 (bytes_of e)
  unfolding entry_bytes record_bytes
  tag-entry_bytes e s =
      let prefix = record_prefix e.index e.len e.digest in
      let tag = journal_tag C key prefix in
      rw
        (
          take-append_left prefix tag 48 (length-record_prefix e s),
          drop-append_left prefix tag 48 (length-record_prefix e s),
        )
        refl

  load_record-entry_bytes :
      (e : Entry) (d : List ℕ)
      → IsSound e
      → load_record C key (bytes_of e) d ≡ ok (insert e.index d)
  unfolding load_record
  load_record-entry_bytes e d s =
      rw
        (
          (magic-entry_bytes e).0,
          (magic-entry_bytes e).1,
          same_text_self journal_magic,
          tag-entry_bytes e s,
          same_text_self (drop 48 (bytes_of e)),
          index-entry_bytes e s,
        )
        refl

  -- Loading reads back the records, and goes on with what follows them.
  pub load_records-journal_bytes :
      (es : List Entry) (n : ℕ) (rest d : List ℕ)
      → All IsSound es
      → load_records C (length es + n) key (bytes_all es ++ rest) d
        ≡ load_records C n key rest (recorded es d)
  unfolding recorded journal_bytes load_records
  load_records-journal_bytes [] n rest d s = rw (zero-add n) refl
  load_records-journal_bytes (e ∷ es) n rest d s = rw (suc-add (length es) n) (
      rw
        (
          append_assoc (bytes_of e) (bytes_all es) rest,
          take-append_left (bytes_of e) (bytes_all es ++ rest) 80 (length-entry_bytes e s.0),
          drop-append_left (bytes_of e) (bytes_all es ++ rest) 80 (length-entry_bytes e s.0),
          load_record-entry_bytes e d s.0,
          load_records-journal_bytes es n rest (insert e.index d) s.1,
        )
        refl)

  pub length-journal_bytes :
      (es : List Entry) → All IsSound es → length (bytes_all es) ≡ length es * 80
  unfolding journal_bytes
  length-journal_bytes [] s = refl
  length-journal_bytes (e ∷ es) s = omega (
    arith,
    length-append (bytes_of e) (bytes_all es),
    length-entry_bytes e s.0,
    length-journal_bytes es s.1,
  )
