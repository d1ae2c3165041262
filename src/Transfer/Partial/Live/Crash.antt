-- ===== src/Transfer/Partial/Live/Crash.antt =====
-- A crash at any point of a call, and the start behind it.
use conest.Base.{ℕ, ◌≡◌, true, List, length, subst}
use conest.Base.OrdSet.{contains}
use conest.Base.Outcome.{ok}
use conest.Transfer.{Crypto, IsLawful}
use conest.Transfer.Manifest.{TransferManifest, validate}
use conest.Transfer.Partial.{
  PartialTransfer, System, checkpoint, receive_encoded_block, open_partial,
}
use conest.Transfer.Partial.Live.{IsGenuine, Live, OnDisk, Holds, checkpoint-OnDisk}
use conest.Transfer.Partial.Live.Calls.{receive-OnDisk}
use conest.Transfer.Partial.Live.Reopen.{IsCrashImage, open_partial-Live}
use conest.Transfer.Partial.Live.Finish.{Holds-durable}
use conest.Transfer.Partial.Live.Reach.{Reached, Reached-Live}

-- What a call leaves of a transfer, wherever in it the system stops the writes and the appends.
pub data Called (C : Crypto) (m : TransferManifest) (key source : List ℕ) (p : PartialTransfer)
    : PartialTransfer → Type 0 where
  receives :
      (s : System) (encoded : List ℕ)
      → IsGenuine C m key source encoded
      → Called C m key source p (receive_encoded_block C s encoded p).1
  checkpoints : (s : System) → Called C m key source p (checkpoint C s p).1

module _ (C : Crypto) (L : IsLawful C) (m : TransferManifest) (key source : List ℕ)
    (sized : length source ≡ m.size_bytes) (valid : validate m ≡ ok tt) where
  Called-OnDisk :
      (p r : PartialTransfer)
      → Live C L m key source p
      → Called C m key source p r
      → OnDisk C L m key source r
  Called-OnDisk p _ v (receives s encoded genuine) =
      receive-OnDisk C L m key source sized s encoded p genuine v
  Called-OnDisk p _ v (checkpoints s) = checkpoint-OnDisk C L m key source s p v

  -- When power is lost behind or within a call that receives or checkpoints, and the disk keeps of
  -- each byte what was synced or what was written since, the files open again: the journal
  -- names every block that it named in memory, and every block that it names is in the file as it
  -- is in the source. Of received bytes it is assumed
  -- that a frame that opens opens to its block of the source.
  pub open_partial-Called :
      (p r : PartialTransfer) (image : List ℕ) (now : ℕ)
      → Reached C m key source p
      → Called C m key source p r
      → IsCrashImage r.file image
      → (q : PartialTransfer) × (open_partial C m key image r.journal.file now ≡ ok q)
        × ((i : ℕ) → contains i r.journal.durable ≡ true → contains i q.journal.durable ≡ true)
        × ((i : ℕ) → contains i q.journal.durable ≡ true → Holds C L m key source image i)
  open_partial-Called p r image now reached called c =
      let disk = Called-OnDisk p r (Reached-Live C L m key source sized valid p reached) called in
      let (q, opens, same, kept, live) =
        open_partial-Live C L m key source r disk image c now valid in
      (
        q,
        opens,
        kept,
        λ i h.
            subst (λ file. Holds C L m key source file i) same
              (Holds-durable C L m key source sized valid q live i h),
      )
