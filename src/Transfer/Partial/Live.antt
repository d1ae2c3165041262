-- ===== src/Transfer/Partial/Live.antt =====
-- What holds of a transfer between two calls, and of the disk at any time, when every block that
-- opens is a piece of the file that is sent.
pub mod Receive
pub mod Calls
pub mod Reopen
pub mod Finish
pub mod Progress
pub mod Reach
pub mod Crash
use conest.Base.{
  if_ind, not, ℕ, ◌+◌, ◌*◌, ◌≤◌, ◌<◌, ◌≡◌, refl, Bool, true, false, ◌||◌, Option, none, some, List,
  [], ◌∷◌, length, take, drop, All, arith, Bool-cases, inl, inr,
}
use conest.Base.OrdSet.{contains}
use conest.Base.Outcome.{Outcome, ok, err, and_then, and_then_keeps}
use conest.Transfer.{Crypto, IsLawful, TransferError, io}
use conest.Transfer.Manifest.{TransferManifest, validate, expected_plaintext_len}
use conest.Transfer.Frame.{AttachmentBlockFrame, decode, decrypt}
use conest.Transfer.Journal.{TransferJournal}
use conest.Transfer.Journal.Records.{Entry, IsSound}
use conest.Transfer.Journal.Recovery.{Written}
use conest.Transfer.Partial.{
  DataFile, PartialTransfer, System, append_all, flushed, checkpoint, is_empty,
}
use conest.Transfer.Partial.Agree.{Agrees}
use conest.Transfer.Partial.Stored.{
  named, StoredAll, Written-StoredAll, append_all-StoredAll, append_all-Written,
}

pub All-map {κ ν} :
    {P : Entry → Type κ} {R : Entry → Type ν} (es : List Entry)
    → ((e : Entry) → P e → R e)
    → All P es
    → All R es
All-map [] f h = tt
All-map (e ∷ es) f h = (f e h.0, All-map es f h.1)

-- Received bytes are genuine: if they are a frame that opens, it opens to that block of the source.
-- Authentication promises it of what only a sender of the source can have sealed.
abbrev pub IsGenuine : Crypto → TransferManifest → List ℕ → List ℕ → List ℕ → Type 0
IsGenuine C m key source encoded =
    (f : AttachmentBlockFrame) (bytes : List ℕ)
    → decode encoded ≡ ok f
    → decrypt C f m key ≡ ok bytes
    → bytes ≡ take f.plaintext_len (drop (f.block_index * m.block_size) source)

module _ (C : Crypto) (L : IsLawful C) (m : TransferManifest) (key source : List ℕ) where
  -- The bytes of a block in a file are those of the source.
  abbrev pub Holds : List ℕ → ℕ → Type 0
  Holds file i =
      (x : ℕ)
      → i * m.block_size ≤ x
      → x < i * m.block_size + m.block_size
      → x < m.size_bytes
      → Agrees source file x

  abbrev pub HoldsEntry : List ℕ → Entry → Type 0
  HoldsEntry file e = (e.index < m.block_count) × Holds file e.index

  -- A block that the journal names is held by the disk, and by what a read gives.
  abbrev pub HoldsBoth : DataFile → Entry → Type 0
  HoldsBoth f e = (HoldsEntry f.stored e) × (HoldsEntry f.contents e)

  pub record Live (p : PartialTransfer) : Type 0 where
    pub same_manifest : p.manifest ≡ m
    pub same_key : p.key ≡ key
    pub sized : length p.file.contents ≡ m.size_bytes
    pub stored_sized : length p.file.stored ≡ m.size_bytes
    pub entries : List Entry
    pub written : Written C L key p.journal entries
    pub durable : All (HoldsBoth p.file) entries
    pub sound : All IsSound p.pending
    pub held : All (HoldsEntry p.file.contents) p.pending

  -- What a crash leaves: a journal of whole records and at most a piece of one, each of a block
  -- that the disk holds, with every block that the journal has in memory.
  pub record OnDisk (p : PartialTransfer) : Type 0 where
    pub same_manifest : p.manifest ≡ m
    pub same_key : p.key ≡ key
    pub sized : length p.file.contents ≡ m.size_bytes
    pub stored_sized : length p.file.stored ≡ m.size_bytes
    pub logged : StoredAll C L key (HoldsBoth p.file) p.journal

  pub Live-OnDisk : (p : PartialTransfer) → Live p → OnDisk p
  Live-OnDisk p v = record {
    same_manifest = v.same_manifest;
    same_key = v.same_key;
    sized = v.sized;
    stored_sized = v.stored_sized;
    logged = Written-StoredAll C L key (HoldsBoth p.file) p.journal v.entries v.written v.durable;
  }

  -- After the sync, what is read is what is stored.
  abbrev synced : DataFile → DataFile
  synced f = record { contents = f.contents; stored = f.contents }

  durable_synced : (p : PartialTransfer) (v : Live p) → All (HoldsBoth (synced p.file)) v.entries
  durable_synced p v = All-map v.entries (λ e h. (h.1, h.1)) v.durable

  held_synced : (p : PartialTransfer) → Live p → All (HoldsBoth (synced p.file)) p.pending
  held_synced p v = All-map p.pending (λ e h. (h, h)) v.held

  flushed-OnDisk :
      (s : System) (p : PartialTransfer)
      → Live p
      → OnDisk (flushed p (append_all C s.append_stops p.journal p.pending).1)
  flushed-OnDisk s p v = record {
    same_manifest = v.same_manifest;
    same_key = v.same_key;
    sized = v.sized;
    stored_sized = v.sized;
    logged =
        append_all-StoredAll C L key (HoldsBoth (synced p.file)) s.append_stops p.journal v.entries
          p.pending v.written (durable_synced p v) v.sound (held_synced p v);
  }

  -- However a checkpoint ends.
  pub checkpoint-OnDisk : (s : System) (p : PartialTransfer) → Live p → OnDisk (checkpoint C s p).1
  unfolding checkpoint
  checkpoint-OnDisk s p v =
      let P = λ (r : Outcome TransferError (Unit {0}) × PartialTransfer). OnDisk r.1 in
      if_ind P (is_empty p.pending) _ _ (λ _. Live-OnDisk p v)
        (λ _.
          if_ind P (not s.syncs) _ _ (λ _. Live-OnDisk p v)
            (λ _. and_then_keeps OnDisk _ _ (flushed-OnDisk s p v) (λ _ q d. record {
              same_manifest = d.same_manifest;
              same_key = d.same_key;
              sized = d.sized;
              stored_sized = d.stored_sized;
              logged = d.logged;
            })))

  -- A block is durable or pending.
  abbrev pub has_block : PartialTransfer → ℕ → Bool
  has_block p i = contains i p.journal.durable || named i p.pending

  pub appends_return :
      (s : System) (p : PartialTransfer)
      → ((i : ℕ) → s.append_stops i ≡ none)
      → Live p
      → (append_all C s.append_stops p.journal p.pending).0 ≡ ok tt
  appends_return s p g v =
      let (es, w, q, done, kept) =
        append_all-Written C L key (HoldsBoth (synced p.file)) s.append_stops p.journal v.entries
          p.pending g v.written (durable_synced p v) v.sound (held_synced p v) in
      done

  -- When no append stops, a checkpoint keeps the transfer going, and every block it had.
  pub checkpoint-Live :
      (s : System) (p : PartialTransfer)
      → ((i : ℕ) → s.append_stops i ≡ none)
      → Live p
      → (Live (checkpoint C s p).1)
        × ((i : ℕ) → has_block p i ≡ true → has_block (checkpoint C s p).1 i ≡ true)
  unfolding checkpoint
  checkpoint-Live s p g v =
      let P = λ (r : Outcome TransferError (Unit {0}) × PartialTransfer).
        (Live r.1) × ((i : ℕ) → has_block p i ≡ true → has_block r.1 i ≡ true) in
      let (es, w, q, done, kept) =
        append_all-Written C L key (HoldsBoth (synced p.file)) s.append_stops p.journal v.entries
          p.pending g v.written (durable_synced p v) v.sound (held_synced p v) in
      if_ind P (is_empty p.pending) _ _ (λ _. (v, λ i h. h))
        (λ _.
          if_ind P (not s.syncs) _ _ (λ _. (v, λ i h. h))
            (λ _. rw done (
              record {
                same_manifest = v.same_manifest;
                same_key = v.same_key;
                sized = v.sized;
                stored_sized = v.sized;
                entries = es;
                written = w;
                durable = q;
                sound = tt;
                held = tt;
              },
              λ i h. rw (kept i h) refl,
            )))
