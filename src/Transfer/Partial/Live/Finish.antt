-- ===== src/Transfer/Partial/Live/Finish.antt =====
-- `finalize`: what is delivered is the file that was sent.
use native.Mathlib.Nat.{div-mul-le_self, lt-div-mul-add, lt_of_mul-lt-mul_left}
use conest.Base.{
  ℕ, ◌+◌, ◌*◌, ◌/◌, ◌≤◌, ◌<◌, ◌≡◌, refl, true, false, not, Option, none, some, List, [], ◌∷◌,
  length, arith, if_ind, inl, inr,
}
use conest.Base.OrdSet.{From, Below, contains, contains_full, length_full}
use conest.Base.Outcome.{Outcome, Outcome-cases, ok}
use conest.Base.Text.{same_text, same_text_self}
use conest.Transfer.{Crypto, IsLawful, TransferError}
use conest.Transfer.Manifest.{TransferManifest, validate}
use conest.Transfer.Manifest.Blocks.{validate-Geometry, blocks_cover, block_size_bounds}
use conest.Transfer.Journal.Records.{Entry}
use conest.Transfer.Partial.{
  PartialTransfer, System, Promotion, promoted, stays, displaced, Delivery, checkpoint, is_complete,
  is_empty, promote, deliver, finalize,
}
use conest.Transfer.Partial.Agree.{Agrees-everywhere}
use conest.Transfer.Partial.Stored.{recorded-From, recorded-Below, recorded-contains}
use conest.Transfer.Partial.Live.{All-map, Holds, Live, has_block, checkpoint-Live, appends_return}

empty : (es : List Entry) → is_empty es ≡ true → es ≡ []
empty [] h = refl
empty (e ∷ es) h = absurd (cc h)

nothing : (i : ℕ) → contains i [] ≡ false
unfolding contains
nothing i = refl

module _ (C : Crypto) (L : IsLawful C) (m : TransferManifest) (key source : List ℕ)
    (sized : length source ≡ m.size_bytes) (valid : validate m ≡ ok tt) where
  -- The block of a byte.
  block_of :
      (x : ℕ)
      → x < m.size_bytes
      → (i : ℕ) × (i < m.block_count)
        × (i * m.block_size ≤ x)
        × (x < i * m.block_size + m.block_size)
  block_of x h =
      let g = validate-Geometry m valid in
      let low = div-mul-le_self x m.block_size in
      let high = lt-div-mul-add {a = x} {b = m.block_size} (omega (arith, block_size_bounds m g)) in
      (
        x / m.block_size,
        lt_of_mul-lt-mul_left m.block_size (omega (arith, low, blocks_cover m g)),
        low,
        high,
      )

  pub Holds-durable :
      (p : PartialTransfer) (v : Live C L m key source p) (i : ℕ)
      → contains i p.journal.durable ≡ true
      → Holds C L m key source p.file.contents i
  Holds-durable p v i h =
      recorded-contains (Holds C L m key source p.file.contents) v.entries [] i
        (All-map v.entries (λ e b. b.1.1) v.durable) (λ e. absurd (ground (arith, nothing i)))
        (rw v.written.listed at h)

  durable_shape :
      (p : PartialTransfer)
      → Live C L m key source p
      → From 0 p.journal.durable × Below m.block_count p.journal.durable
  durable_shape p v = rw v.written.listed (
    recorded-From v.entries [] tt,
    recorded-Below m.block_count v.entries [] (All-map v.entries (λ e b. b.1.0) v.durable) tt,
  )

  -- A transfer that is complete has the source in its file.
  complete-source :
      (p : PartialTransfer)
      → Live C L m key source p
      → is_complete p ≡ true
      → p.file.contents ≡ source
  unfolding is_complete
  complete-source p v h =
      let shape = durable_shape p v in
      let count : length p.journal.durable + 0 ≡ m.block_count =
        ground (arith, rw v.same_manifest at h) in
      Agrees-everywhere source p.file.contents (omega (arith, v.sized, sized)) (λ x l.
        let below : x < m.size_bytes = omega (arith, sized) in
        let (i, b, low, high) = block_of x below in
        Holds-durable p v i
          (contains_full 0 m.block_count i p.journal.durable shape.0 shape.1 count (omega arith) b)
          x low high below)

  -- A transfer that has every block durable, and none pending, is complete.
  complete_full :
      (p : PartialTransfer)
      → Live C L m key source p
      → p.pending ≡ []
      → ((i : ℕ) → i < m.block_count → has_block C L m key source p i ≡ true)
      → is_complete p ≡ true
  unfolding is_complete
  complete_full p v e h =
      let shape = durable_shape p v in
      let count =
        length_full 0 m.block_count p.journal.durable shape.0 shape.1 (omega arith)
          (λ i l r. ground (arith, rw e at (h i r))) in
      rw (e, v.same_manifest) (ground (arith, count))

  abbrev Result : Type 0
  Result = Outcome TransferError (Unit {0}) × Delivery

  -- The source stands at the destination, and the partial file is gone.
  abbrev pub delivered : Delivery
  delivered = record { partial = none; destination = some source }

  promote-delivered :
      (how : Promotion) (existing : Option (List ℕ)) (bytes : List ℕ)
      → bytes ≡ source
      → (promote how bytes existing).0 ≡ ok tt
      → (promote how bytes existing).1 ≡ delivered
  promote-delivered stays existing bytes e h = absurd (cc h)
  promote-delivered displaced existing bytes e h = absurd (cc h)
  promote-delivered promoted existing bytes e h = rw e refl

  deliver-delivered :
      (how : Promotion) (existing : Option (List ℕ)) (p : PartialTransfer)
      → Live C L m key source p
      → (deliver C how existing p).0 ≡ ok tt
      → (deliver C how existing p).1 ≡ delivered
  unfolding deliver
  deliver-delivered how existing p v =
      let P = λ (r : Result). r.0 ≡ ok tt → r.1 ≡ delivered in
      if_ind P (not (is_complete p)) _ _ (λ _ h. absurd (cc h))
        (λ full.
          if_ind P (not (same_text (C.sha256 p.file.contents) p.manifest.whole_sha256)) _ _
            (λ _ h. absurd (cc h))
            (λ _.
              promote-delivered how existing p.file.contents
                (complete-source p v (ground (arith, full)))))

  -- When `finalize` returns, what it delivers is the file that was sent.
  pub finalize-delivered :
      (s : System) (how : Promotion) (existing : Option (List ℕ)) (p : PartialTransfer)
      → ((i : ℕ) → s.append_stops i ≡ none)
      → Live C L m key source p
      → (finalize C s how existing p).0 ≡ ok tt
      → (finalize C s how existing p).1 ≡ delivered
  unfolding finalize
  finalize-delivered s how existing p g v h =
      let live = (checkpoint-Live C L m key source s p g v).0 in
      elim (Outcome-cases (checkpoint C s p).0) [
        | inl (a, e) ↦
            rw (e, finalize)
              (deliver-delivered how existing (checkpoint C s p).1 live (rw (e, finalize) at h))
        | inr (inl (x, e)) ↦ absurd (cc (rw (e, finalize) at h))
        | inr (inr e) ↦ absurd (cc (rw (e, finalize) at h))
      ]

  checkpoint-done :
      (s : System) (p : PartialTransfer)
      → s.syncs ≡ true
      → ((i : ℕ) → s.append_stops i ≡ none)
      → Live C L m key source p
      → ((checkpoint C s p).0 ≡ ok tt) × ((checkpoint C s p).1.pending ≡ [])
  unfolding checkpoint
  checkpoint-done s p y g v =
      let P = λ (r : Outcome TransferError (Unit {0}) × PartialTransfer).
        (r.0 ≡ ok tt) × (r.1.pending ≡ []) in
      if_ind P (is_empty p.pending) _ _ (λ e. (refl, empty p.pending e))
        (λ _. rw (y, appends_return C L m key source s p g v) (refl, refl))

  -- A transfer that has every block, on a system where no call fails, is delivered, if the source
  -- has the digest of the manifest.
  pub finalize_full :
      (s : System) (existing : Option (List ℕ)) (p : PartialTransfer)
      → s.syncs ≡ true
      → ((i : ℕ) → s.append_stops i ≡ none)
      → Live C L m key source p
      → ((i : ℕ) → i < m.block_count → has_block C L m key source p i ≡ true)
      → C.sha256 source ≡ m.whole_sha256
      → finalize C s promoted existing p ≡ (ok tt, delivered)
  unfolding finalize deliver
  finalize_full s existing p y g v h sha =
      let (live, kept) = checkpoint-Live C L m key source s p g v in
      let (done, none_left) = checkpoint-done s p y g v in
      let q = (checkpoint C s p).1 in
      let full = complete_full q live none_left (λ i l. kept i (h i l)) in
      rw
        (
          done,
          finalize,
          full,
          complete-source q live full,
          live.same_manifest,
          sha,
          same_text_self m.whole_sha256,
        )
        refl
