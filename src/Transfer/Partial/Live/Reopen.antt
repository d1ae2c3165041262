-- ===== src/Transfer/Partial/Live/Reopen.antt =====
-- Opening a transfer again, after a crash or a loss of power.
use conest.Base.{
  true, ℕ, subst, ◌≡◌, ◌⊎◌, inl, inr, refl, sym, ◌∙◌, List, [], length, get_elem?, arith,
}
use conest.Base.OrdSet.{contains}
use conest.Base.Outcome.{ok, ok_injective}
use conest.Transfer.{Crypto, IsLawful}
use conest.Transfer.Manifest.{TransferManifest, validate}
use conest.Transfer.Journal.Records.{Entry, recorded, journal_bytes}
use conest.Transfer.Journal.Recovery.{open_torn}
use conest.Transfer.Partial.{DataFile, PartialTransfer, open_partial, set_len}
use conest.Transfer.Partial.Bytes.{set_len_same, length-set_len}
use conest.Transfer.Partial.Live.{All-map, HoldsEntry, HoldsBoth, Live, OnDisk}

-- What the disk may hold after a loss of power: of each byte what was stored, or what was written
-- since.
pub record IsCrashImage (f : DataFile) (image : List ℕ) : Type 0 where
  pub sized : length image ≡ length f.contents
  pub bytes :
      (x : ℕ)
      → (get_elem? image x ≡ get_elem? f.contents x) ⊎ (get_elem? image x ≡ get_elem? f.stored x)

module _ (C : Crypto) (L : IsLawful C) (m : TransferManifest) (key source : List ℕ) where
  HoldsBoth-image :
      (f : DataFile) (image : List ℕ) (e : Entry)
      → IsCrashImage f image
      → HoldsBoth C L m key source f e
      → HoldsEntry C L m key source image e
  HoldsBoth-image f image e c h = (
    h.0.0,
    λ x a b l. elim (c.bytes x) [ inl new ↦ new ∙ h.1.1 x a b l | inr old ↦ old ∙ h.0.1 x a b l ],
  )

  reopened : List ℕ → List Entry → ℕ → PartialTransfer
  reopened image es now = record {
    manifest = m;
    key = key;
    file = record { contents = image; stored = image };
    journal = record { file = journal_bytes C key es; key = key; durable = recorded es [] };
    pending = [];
    pending_bytes = 0;
    last_checkpoint = now;
  }

  -- A start with no journal on any file.
  pub open_fresh :
      (file : List ℕ) (now : ℕ) (p : PartialTransfer)
      → validate m ≡ ok tt
      → open_partial C m key file [] now ≡ ok p
      → Live C L m key source p
  unfolding reopened open_partial journal_bytes recorded
  open_fresh file now p valid h =
      let image = set_len m.size_bytes file in
      let e : open_partial C m key file [] now ≡ ok (reopened image [] now) =
        rw (valid, open_torn C L key [] [] tt (omega arith)) refl in
      let live : Live C L m key source (reopened image [] now) = record {
        same_manifest = refl;
        same_key = refl;
        sized = length-set_len m.size_bytes file;
        stored_sized = length-set_len m.size_bytes file;
        entries = [];
        written = record { same_key = refl; stored = refl; listed = refl; sound = tt };
        durable = tt;
        sound = tt;
        held = tt;
      } in
      subst (Live C L m key source) (ok_injective (sym e ∙ h)) live

  module _ (p : PartialTransfer) (d : OnDisk C L m key source p) (image : List ℕ)
      (c : IsCrashImage p.file image) (now : ℕ) where
    image_sized : length image ≡ m.size_bytes
    image_sized = c.sized ∙ d.sized

    reopened-Live : Live C L m key source (reopened image d.logged.0 now)
    unfolding reopened
    reopened-Live = record {
      same_manifest = refl;
      same_key = refl;
      sized = image_sized;
      stored_sized = image_sized;
      entries = d.logged.0;
      written = record { same_key = refl; stored = refl; listed = refl; sound = d.logged.1.sound };
      durable =
          All-map d.logged.0 (λ e h. let held = HoldsBoth-image p.file image e c h in (held, held))
            d.logged.2;
      sound = tt;
      held = tt;
    }

    open_partial-reopened :
        validate m ≡ ok tt
        → open_partial C m key image p.journal.file now ≡ ok (reopened image d.logged.0 now)
    unfolding open_partial reopened
    open_partial-reopened valid =
        rw
          (
            valid,
            d.logged.1.stored,
            open_torn C L key d.logged.0 d.logged.1.torn d.logged.1.sound d.logged.1.short,
            set_len_same m.size_bytes image image_sized,
          )
          refl

    -- What a call has left on disk, after a crash that keeps of each unsynced byte the old or the
    -- new, opens to a transfer of that file that goes on.
    pub open_partial-Live :
        validate m ≡ ok tt
        → (q : PartialTransfer) × (open_partial C m key image p.journal.file now ≡ ok q)
          × (q.file.contents ≡ image)
          × ((i : ℕ) → contains i p.journal.durable ≡ true → contains i q.journal.durable ≡ true)
          × Live C L m key source q
    unfolding reopened
    open_partial-Live valid = (
      reopened image d.logged.0 now,
      open_partial-reopened valid,
      refl,
      d.logged.3,
      reopened-Live,
    )
