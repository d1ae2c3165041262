-- ===== src/Transfer/Partial/Live/Calls.antt =====
-- The calls of a transfer: receiving a block, and opening it again after a crash.
use conest.Base.{
  ℕ, ◌-◌, ◌≡◌, none, List, [], ◌∷◌, length, take, arith, Option-cases, inl, inr, if_ind,
  length-take,
}
use conest.Base.OrdSet.{contains}
use conest.Base.Outcome.{Outcome, Outcome-cases}
use conest.Transfer.{Crypto, IsLawful, TransferError}
use conest.Transfer.Manifest.{TransferManifest}
use conest.Transfer.Frame.{AttachmentBlockFrame, decode, decrypt}
use conest.Transfer.Frame.Sealed.{decrypt-Opened}
use conest.Transfer.Partial.{
  PartialTransfer, entry_of, System, checkpoint, settle, written, store_block,
  receive_encoded_block,
}
use conest.Transfer.Partial.Agree.{take-PieceAt}
use conest.Transfer.Partial.Stored.{named-append}
use conest.Transfer.Partial.Live.{IsGenuine, Live, OnDisk, Live-OnDisk}
use conest.Transfer.Partial.Live.Receive.{
  Piece, Opened-Piece, written-Live, pending_more, pending_more-Live, settle-OnDisk, settle-Goes,
  Goes,
}

module _ (C : Crypto) (L : IsLawful C) (m : TransferManifest) (key source : List ℕ)
    (sized : length source ≡ m.size_bytes) where
  abbrev IsPiece : AttachmentBlockFrame → List ℕ → Type 0
  IsPiece f bytes = Piece C L m key source sized f bytes

  -- What holds of the transfer before a call, with a block's bytes written in part, and behind the
  -- checkpoint after a whole block, holds after the call.
  receive_keeps {κ} :
      (P : PartialTransfer → Type κ) (s : System) (encoded : List ℕ) (p : PartialTransfer)
      → IsGenuine C m key source encoded
      → Live C L m key source p
      → P p
      → ((f : AttachmentBlockFrame) (bytes : List ℕ) (k : ℕ)
          → IsPiece f bytes
          → P (written f (take k bytes) p))
      → ((f : AttachmentBlockFrame) (bytes : List ℕ)
          → IsPiece f bytes
          → P
              (settle C s
                (s.now - p.last_checkpoint)
                (pending_more C L m key source sized f bytes p)).1)
      → P (receive_encoded_block C s encoded p).1
  unfolding receive_encoded_block store_block settle checkpoint
  receive_keeps P s encoded p genuine v same cut whole = elim (Outcome-cases (decode encoded)) [
    | inl (f, e) ↦
        rw (e, receive_encoded_block)
          (if_ind (λ (r : Outcome TransferError ℕ × PartialTransfer). P r.1)
            (contains f.block_index p.journal.durable) _ _ (λ _. same)
            (λ _. elim (Outcome-cases (decrypt C f p.manifest p.key)) [
              | inl (bytes, d) ↦
                  let opened = rw (v.same_manifest, v.same_key) at d in
                  let o =
                    Opened-Piece C L m key source sized f bytes
                      (decrypt-Opened C m key f bytes opened) (genuine f bytes e opened) in
                  elim (Option-cases s.write_stops) [
                    | inl goes ↦ rw (d, goes) (whole f bytes o)
                    | inr (k, stops) ↦ rw (d, stops) (cut f bytes k o)
                  ]
              | inr (inl (x, d)) ↦ rw d same
              | inr (inr d) ↦ rw d same
            ]))
    | inr (inl (x, e)) ↦ rw (e, receive_encoded_block) same
    | inr (inr e) ↦ rw (e, receive_encoded_block) same
  ]

  cut-Live :
      (f : AttachmentBlockFrame) (bytes : List ℕ) (k : ℕ) (p : PartialTransfer)
      → IsPiece f bytes
      → Live C L m key source p
      → Live C L m key source (written f (take k bytes) p)
  cut-Live f bytes k p o v =
      written-Live C L m key source sized f (take k bytes) p (take-PieceAt source _ k bytes o.piece)
        (omega (arith, o.fits, length-take k bytes)) v

  -- Whatever is received and wherever the call stops, the disk holds every block of the journal.
  pub receive-OnDisk :
      (s : System) (encoded : List ℕ) (p : PartialTransfer)
      → IsGenuine C m key source encoded
      → Live C L m key source p
      → OnDisk C L m key source (receive_encoded_block C s encoded p).1
  receive-OnDisk s encoded p genuine v =
      receive_keeps (OnDisk C L m key source) s encoded p genuine v
        (Live-OnDisk C L m key source p v)
        (λ f bytes k o. Live-OnDisk C L m key source _ (cut-Live f bytes k p o v))
        (λ f bytes o.
          settle-OnDisk C L m key source sized s _ _
            (pending_more-Live C L m key source sized f bytes p o v))

  -- Whatever is received, unless an append stops, the transfer goes on with the blocks it had.
  pub receive-Goes :
      (s : System) (encoded : List ℕ) (p : PartialTransfer)
      → IsGenuine C m key source encoded
      → ((i : ℕ) → s.append_stops i ≡ none)
      → Live C L m key source p
      → Goes C L m key source sized p (receive_encoded_block C s encoded p).1
  receive-Goes s encoded p genuine g v =
      receive_keeps (Goes C L m key source sized p) s encoded p genuine v (v, λ i h. h)
        (λ f bytes k o. (cut-Live f bytes k p o v, λ i h. h))
        (λ f bytes o.
          let (live, kept) =
            settle-Goes C L m key source sized s (s.now - p.last_checkpoint) _ g
              (pending_more-Live C L m key source sized f bytes p o v) in
          (live, λ i h. kept i (ground (arith, named-append i p.pending (entry_of f ∷ [])))))
