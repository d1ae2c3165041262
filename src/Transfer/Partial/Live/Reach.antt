-- ===== src/Transfer/Partial/Live/Reach.antt =====
-- Whole transfers: received blocks, checkpoints, crashes and new starts, in any order.
use conest.Base.{ℕ, ◌≡◌, sym, ◌∙◌, subst, Option, some, none, List, [], length}
use conest.Base.Outcome.{ok, ok_injective}
use conest.Transfer.{Crypto, IsLawful}
use conest.Transfer.Manifest.{TransferManifest, validate}
use conest.Transfer.Partial.{
  PartialTransfer, System, Promotion, checkpoint, receive_encoded_block, open_partial, finalize,
}
use conest.Transfer.Partial.Live.{IsGenuine, Live, checkpoint-Live}
use conest.Transfer.Partial.Live.Calls.{receive-OnDisk, receive-Goes}
use conest.Transfer.Partial.Live.Reopen.{IsCrashImage, open_fresh, open_partial-Live}
use conest.Transfer.Partial.Live.Finish.{finalize-delivered}

module _ (C : Crypto) (m : TransferManifest) (key source : List ℕ) where
  -- No append of a record stops during the call.
  abbrev pub Appends : System → Type 0
  Appends s = (i : ℕ) → s.append_stops i ≡ none

  -- The transfers that come of starting on any file with no journal, of receiving any bytes and of
  -- checkpoints, and of a crash at any point of a call that receives, followed by a new start.
  pub data Reached : PartialTransfer → Type 0 where
    fresh :
        (file : List ℕ) (now : ℕ) (p : PartialTransfer)
        → open_partial C m key file [] now ≡ ok p
        → Reached p
    received :
        (p : PartialTransfer) (s : System) (encoded : List ℕ)
        → Reached p
        → IsGenuine C m key source encoded
        → Appends s
        → Reached (receive_encoded_block C s encoded p).1
    checkpointed :
        (p : PartialTransfer) (s : System) → Reached p → Appends s → Reached (checkpoint C s p).1
    restarted :
        (p : PartialTransfer) (s : System) (encoded image : List ℕ) (now : ℕ) (q : PartialTransfer)
        → Reached p
        → IsGenuine C m key source encoded
        → IsCrashImage (receive_encoded_block C s encoded p).1.file image
        → open_partial C m key image (receive_encoded_block C s encoded p).1.journal.file now ≡ ok q
        → Reached q

module _ (C : Crypto) (L : IsLawful C) (m : TransferManifest) (key source : List ℕ)
    (sized : length source ≡ m.size_bytes) (valid : validate m ≡ ok tt) where
  pub Reached-Live : (p : PartialTransfer) → Reached C m key source p → Live C L m key source p
  Reached-Live _ (fresh file now p h) = open_fresh C L m key source file now p valid h
  Reached-Live _ (received p s encoded r genuine a) =
      (receive-Goes C L m key source sized s encoded p genuine a (Reached-Live p r)).0
  Reached-Live _ (checkpointed p s r a) =
      (checkpoint-Live C L m key source s p a (Reached-Live p r)).0
  Reached-Live _ (restarted p s encoded image now q r genuine c h) =
      let disk = receive-OnDisk C L m key source sized s encoded p genuine (Reached-Live p r) in
      let (q', e, same, kept, live) = open_partial-Live C L m key source _ disk image c now valid in
      subst (Live C L m key source) (ok_injective (sym e ∙ h)) live

  -- However a transfer came about, by bytes received in any order and any crashes on the way:
  -- when no append stops during `finalize` and it returns, the source stands at the destination,
  -- and the partial file is gone. Of received bytes it is assumed that a frame that opens
  -- opens to its block of the source.
  pub finalize-Reached :
      (s : System) (how : Promotion) (existing : Option (List ℕ)) (p : PartialTransfer)
      → Reached C m key source p
      → Appends C m key source s
      → (finalize C s how existing p).0 ≡ ok tt
      → (finalize C s how existing p).1 ≡ record { partial = none; destination = some source }
  finalize-Reached s how existing p r a h =
      finalize-delivered C L m key source sized valid s how existing p a (Reached-Live p r) h
