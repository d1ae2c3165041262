-- ===== src/Transfer/Journal.antt =====
-- `TransferJournal`: the file of authenticated records that says which blocks are on disk. A file
-- is its bytes, and an absent file has none: loading makes no difference between the two.
pub mod Records
pub mod Recovery
use conest.Base.{
  ℕ, zero, suc, ◌+◌, ◌*◌, ◌/◌, Bool, not, ◌||◌, Option, none, some, List, [], ◌∷◌, ◌++◌, ◌==◌,
  length, take, drop, if◌then◌else◌,
}
use conest.Base.Bytes.{be_bytes, from_be}
use conest.Base.OrdSet.{contains, insert}
use conest.Base.Outcome.{Outcome, ok, err, ◌>>=◌, ◌>>◌, bail_if}
use conest.Base.Text.{same_text}
use conest.Transfer.{Crypto, TransferError, unsupported_record, record_authentication, io}
use conest.Transfer.Manifest.{attachment_protocol_version}

abbrev pub journal_magic : List ℕ
journal_magic = b'C' ∷ b'A' ∷ b'J' ∷ b'2' ∷ []

abbrev pub journal_record_len : ℕ
journal_record_len = 4 + 2 + 2 + 4 + 4 + 32 + 32

pub record TransferJournal : Type 0 where
  pub file : List ℕ
  pub key : List ℕ
  pub durable : List ℕ

unfoldable pub record_prefix : ℕ → ℕ → List ℕ → List ℕ
record_prefix i n digest =
    journal_magic
    ++ be_bytes 2 attachment_protocol_version
    ++ be_bytes 2 0
    ++ be_bytes 4 i
    ++ be_bytes 4 n
    ++ digest

module _ (C : Crypto) where
  unfoldable pub journal_tag : List ℕ → List ℕ → List ℕ
  journal_tag key bytes = C.hmac key bytes

  unfoldable pub record_bytes : List ℕ → ℕ → ℕ → List ℕ → List ℕ
  record_bytes key i n digest =
      record_prefix i n digest ++ journal_tag key (record_prefix i n digest)

  -- The two writes and the sync after them. A fault stops the call when that many bytes of the
  -- record are in the file.
  unfoldable pub append :
      TransferJournal
      → ℕ
      → ℕ
      → List ℕ
      → Option ℕ
      → Outcome TransferError (Unit {0}) × TransferJournal
  append j i n digest fault = if contains i j.durable then (ok tt, j) else elim fault [
    | some k ↦ (err io, record j { file = j.file ++ take k (record_bytes j.key i n digest) })
    | none ↦ (
      ok tt,
      record j { file = j.file ++ record_bytes j.key i n digest; durable = insert i j.durable },
    )
  ]

  -- The body of the loop over the complete records.
  unfoldable pub load_record : List ℕ → List ℕ → List ℕ → Outcome TransferError (List ℕ)
  load_record key bytes durable = do
    bail_if
        (not (same_text (take 4 bytes) journal_magic)
          || not (from_be (take 2 (drop 4 bytes)) == attachment_protocol_version))
        unsupported_record
    bail_if (not (same_text (journal_tag key (take 48 bytes)) (drop 48 bytes)))
        record_authentication
    ok (insert (from_be (take 4 (drop 8 bytes))) durable)

  unfoldable pub load_records : ℕ → List ℕ → List ℕ → List ℕ → Outcome TransferError (List ℕ)
  load_records zero key bytes durable = ok durable
  load_records (suc n) key bytes durable = do
    durable ← load_record key (take journal_record_len bytes) durable
    load_records n key (drop journal_record_len bytes) durable

  -- `load_journal_records`: the blocks, and the file without an incomplete last record.
  unfoldable pub load_journal_records : List ℕ → List ℕ → Outcome TransferError (List ℕ) × List ℕ
  load_journal_records key bytes =
      let count = length bytes / journal_record_len in
      let complete = take (count * journal_record_len) bytes in
      (load_records count key complete [], complete)

  unfoldable pub open_journal : List ℕ → List ℕ → Outcome TransferError TransferJournal
  open_journal key bytes =
      let (loaded, file) = load_journal_records key bytes in
      do durable ← loaded; ok (record { file = file; key = key; durable = durable })
