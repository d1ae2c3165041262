-- ===== src/Transfer/Partial.antt =====
-- `PartialTransfer`: the partial file, its journal and the blocks between two checkpoints.
pub mod Bytes
pub mod Agree
pub mod Stored
pub mod Live
use conest.Base.{
  ℕ, ◌+◌, ◌-◌, ◌*◌, Bool, true, false, not, ◌&&◌, ◌||◌, Option, none, some, List, [], ◌∷◌, ◌++◌,
  leb, ◌==◌, if◌then◌else◌, length, take, drop, replicate,
}
use conest.Base.OrdSet.{contains}
use conest.Base.Outcome.{Outcome, ok, err, panics, ◌>>=◌, ◌>>◌, and_then}
use conest.Base.Text.{same_text}
use conest.Transfer.{Crypto, TransferError, incomplete, whole_digest, io}
use conest.Transfer.Manifest.{TransferManifest, validate, expected_plaintext_len}
use conest.Transfer.Frame.{AttachmentBlockFrame, decode, decrypt}
use conest.Transfer.Journal.{TransferJournal, append, open_journal}
use conest.Transfer.Journal.Records.{Entry}

abbrev pub journal_checkpoint_bytes : ℕ
journal_checkpoint_bytes = 8 * 1024 * 1024

-- Two seconds, in milliseconds.
abbrev pub journal_checkpoint_interval : ℕ
journal_checkpoint_interval = 2000

-- An open file: what a read gives, and what `sync_data` has put on the disk.
pub record DataFile : Type 0 where
  pub contents : List ℕ
  pub stored : List ℕ

pub record PartialTransfer : Type 0 where
  pub manifest : TransferManifest
  pub key : List ℕ
  pub file : DataFile
  pub journal : TransferJournal
  pub pending : List Entry
  pub pending_bytes : ℕ
  pub last_checkpoint : ℕ

-- What the system does during a call: where the write of a block stops, whether the file is
-- synced, where the append of a block's record stops, and the clock.
pub record System : Type 0 where
  pub write_stops : Option ℕ
  pub syncs : Bool
  pub append_stops : ℕ → Option ℕ
  pub now : ℕ

-- `File::set_len`
unfoldable pub set_len : ℕ → List ℕ → List ℕ
set_len n bytes = take n bytes ++ replicate (n - length bytes) 0

-- A seek and a write of all the bytes.
unfoldable pub write_at : ℕ → List ℕ → List ℕ → List ℕ
write_at offset bytes file = take offset file ++ bytes ++ drop (offset + length bytes) file

-- `unwrap_or(0)`
abbrev pub ok_or_zero : Outcome TransferError ℕ → ℕ
ok_or_zero (ok n) = n
ok_or_zero (err e) = 0
ok_or_zero panics = 0

unfoldable pub blocks_bytes : TransferManifest → List ℕ → ℕ
blocks_bytes m [] = 0
blocks_bytes m (i ∷ is) = ok_or_zero (expected_plaintext_len m i) + blocks_bytes m is

unfoldable pub durable_bytes : PartialTransfer → ℕ
durable_bytes p = blocks_bytes p.manifest p.journal.durable

unfoldable pub entries_bytes : List Entry → ℕ
entries_bytes [] = 0
entries_bytes (e ∷ es) = e.len + entries_bytes es

unfoldable pub received_bytes : PartialTransfer → ℕ
received_bytes p = durable_bytes p + entries_bytes p.pending

abbrev pub is_empty {ℓ} : {A : Type ℓ} → List A → Bool
is_empty [] = true
is_empty (x ∷ xs) = false

unfoldable pub is_complete : PartialTransfer → Bool
is_complete p = length p.journal.durable == p.manifest.block_count && is_empty p.pending

-- The file is synced, and the pending blocks are drained.
abbrev pub flushed : PartialTransfer → TransferJournal → PartialTransfer
flushed p journal = record p {
  file = record { contents = p.file.contents; stored = p.file.contents };
  journal = journal;
  pending = [];
}

abbrev pub entry_of : AttachmentBlockFrame → Entry
entry_of f = record { index = f.block_index; len = f.plaintext_len; digest = f.plaintext_sha256 }

-- A block that has been opened is written at its place.
abbrev pub written : AttachmentBlockFrame → List ℕ → PartialTransfer → PartialTransfer
written f plaintext p = record p {
  file = record p.file {
    contents = write_at (f.block_index * p.manifest.block_size) plaintext p.file.contents;
  };
}

module _ (C : Crypto) where
  -- The journal and the partial file are opened, and the file is given its length.
  unfoldable pub open_partial :
      TransferManifest → List ℕ → List ℕ → List ℕ → ℕ → Outcome TransferError PartialTransfer
  open_partial m key file journal now = do
    validate m
    j ← open_journal C key journal
    ok (record {
      manifest = m;
      key = key;
      file = record { contents = set_len m.size_bytes file; stored = set_len m.size_bytes file };
      journal = j;
      pending = [];
      pending_bytes = 0;
      last_checkpoint = now;
    })

  -- The loop of `checkpoint` over the drained blocks: `?` leaves it, and drops the rest.
  unfoldable pub append_all :
      (ℕ → Option ℕ)
      → TransferJournal
      → List Entry
      → Outcome TransferError (Unit {0}) × TransferJournal
  append_all stops j [] = (ok tt, j)
  append_all stops j (e ∷ es) =
      and_then (append C j e.index e.len e.digest (stops e.index))
        (λ _ next. append_all stops next es)

  unfoldable pub checkpoint :
      System → PartialTransfer → Outcome TransferError (Unit {0}) × PartialTransfer
  checkpoint s p =
      if is_empty p.pending
      then (ok tt, p)
      else (if not s.syncs
          then (err io, p)
          else (let (result, journal) = append_all s.append_stops p.journal p.pending in
              and_then (result, flushed p journal)
                (λ _ q. (ok tt, record q { pending_bytes = 0; last_checkpoint = s.now }))))

  -- The checkpoint after a block, when enough bytes or time have gone by, and the answer.
  unfoldable pub settle : System → ℕ → PartialTransfer → Outcome TransferError ℕ × PartialTransfer
  settle s elapsed p =
      if leb journal_checkpoint_bytes p.pending_bytes || leb journal_checkpoint_interval elapsed
      then and_then (checkpoint s p) (λ _ after. (ok (received_bytes after), after))
      else (ok (received_bytes p), p)

  -- It is written, and counted as pending.
  unfoldable pub store_block :
      System
      → AttachmentBlockFrame
      → List ℕ
      → PartialTransfer
      → Outcome TransferError ℕ × PartialTransfer
  store_block s f plaintext p = elim s.write_stops [
    | some k ↦ (err io, written f (take k plaintext) p)
    | none ↦ settle s (s.now - p.last_checkpoint) (record (written f plaintext p) {
      pending = p.pending ++ entry_of f ∷ [];
      pending_bytes = p.pending_bytes + length plaintext;
    })
  ]

  unfoldable pub receive_encoded_block :
      System → List ℕ → PartialTransfer → Outcome TransferError ℕ × PartialTransfer
  receive_encoded_block s encoded p = elim (decode encoded) [
    | ok f ↦
        if contains f.block_index p.journal.durable
        then (ok (durable_bytes p), p)
        else elim (decrypt C f p.manifest p.key) [
          | ok plaintext ↦ store_block s f plaintext p
          | err x ↦ (err x, p)
          | panics ↦ (panics, p)
        ]
    | err x ↦ (err x, p)
    | panics ↦ (panics, p)
  ]

-- How far the calls of `finalize` that follow the check of the digest get: none removes a file, the
-- file at the destination is removed, or the partial file takes its place.
pub data Promotion : Type 0 where
  stays displaced promoted : Promotion

-- The partial file and the file at the destination, where they are.
pub record Delivery : Type 0 where
  pub partial : Option (List ℕ)
  pub destination : Option (List ℕ)

abbrev pub promote :
    Promotion → List ℕ → Option (List ℕ) → Outcome TransferError (Unit {0}) × Delivery
promote stays bytes existing = (err io, record { partial = some bytes; destination = existing })
promote displaced bytes existing = (err io, record { partial = some bytes; destination = none })
promote promoted bytes existing = (ok tt, record { partial = none; destination = some bytes })

module _ (C : Crypto) where
  -- The checks of `finalize` behind its checkpoint.
  unfoldable pub deliver :
      Promotion → Option (List ℕ) → PartialTransfer → Outcome TransferError (Unit {0}) × Delivery
  deliver how existing p =
      let kept : Delivery = record { partial = some p.file.contents; destination = existing } in
      if not (is_complete p)
      then (err incomplete, kept)
      else (if not (same_text (C.sha256 p.file.contents) p.manifest.whole_sha256)
          then (err whole_digest, kept)
          else promote how p.file.contents existing)

  unfoldable pub finalize :
      System
      → Promotion
      → Option (List ℕ)
      → PartialTransfer
      → Outcome TransferError (Unit {0}) × Delivery
  finalize s how existing p =
      let (result, q) = checkpoint C s p in
      let kept : Delivery = record { partial = some q.file.contents; destination = existing } in
      elim result [
        | ok _ ↦ deliver how existing q
        | err x ↦ (err x, kept)
        | panics ↦ (panics, kept)
      ]
