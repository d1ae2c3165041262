-- ===== src/Transfer/Partial/Live/Progress.antt =====
-- What one call of `receive_encoded_block` adds, and what two calls with the same block add.
use conest.Base.{
  ℕ, ◌+◌, ◌-◌, ◌*◌, ◌<◌, ◌≡◌, length-take, length-drop, refl, sym, ap, ◌∙◌, true, false, ==_self,
  none, List, [], ◌∷◌, ◌++◌, length, take, drop, arith, Bool-cases, inl, inr, leb_gt,
}
use conest.Base.OrdSet.{contains}
use conest.Base.Outcome.{ok, ok_injective, ◌>>=◌}
use conest.Transfer.{Crypto, IsLawful}
use conest.Transfer.Manifest.{TransferManifest, expected_plaintext_len}
use conest.Transfer.Manifest.Blocks.{expected_plaintext_len-bounds}
use conest.Transfer.Frame.{AttachmentBlockFrame, encrypt, encode, decode, decrypt}
use conest.Transfer.Frame.Sealed.{decrypt-Opened, decrypt-encrypt}
use conest.Transfer.Journal.Records.{Entry}
use conest.Transfer.Partial.{
  PartialTransfer, System, checkpoint, settle, store_block, entry_of, written, write_at,
  receive_encoded_block, received_bytes, durable_bytes, entries_bytes, journal_checkpoint_bytes,
  journal_checkpoint_interval,
}
use conest.Transfer.Partial.Stored.{named-append}
use conest.Transfer.Partial.Live.{IsGenuine, Live, has_block}
use conest.Transfer.Partial.Live.Receive.{Opened-Piece, pending_more-Live, settle-Goes}

entries_bytes-append :
    (es : List Entry) (e : Entry) → entries_bytes (es ++ e ∷ []) ≡ entries_bytes es + e.len
unfolding entries_bytes
entries_bytes-append [] e = omega arith
entries_bytes-append (d ∷ es) e = omega (arith, entries_bytes-append es e)

module _ (C : Crypto) (f : AttachmentBlockFrame) (bytes encoded : List ℕ)
    (read : decode encoded ≡ ok f) where
  -- A block that opens is stored, when it is not durable.
  receive_new :
      (s : System) (p : PartialTransfer)
      → decrypt C f p.manifest p.key ≡ ok bytes
      → contains f.block_index p.journal.durable ≡ false
      → receive_encoded_block C s encoded p ≡ store_block C s f bytes p
  unfolding receive_encoded_block
  receive_new s p opens new = rw (read, receive_encoded_block, new, opens) refl

  receive_known :
      (s : System) (p : PartialTransfer)
      → contains f.block_index p.journal.durable ≡ true
      → receive_encoded_block C s encoded p ≡ (ok (durable_bytes p), p)
  unfolding receive_encoded_block
  receive_known s p known = rw (read, receive_encoded_block, known) refl

  -- A block is received that opens and is not durable; nothing stops, and it is too early for a
  -- checkpoint.
  record Quiet (s : System) (p : PartialTransfer) : Type 0 where
    opens : decrypt C f p.manifest p.key ≡ ok bytes
    new : contains f.block_index p.journal.durable ≡ false
    goes : s.write_stops ≡ none
    early : s.now - p.last_checkpoint < journal_checkpoint_interval
    few : p.pending_bytes + length bytes < journal_checkpoint_bytes

  more : PartialTransfer → PartialTransfer
  more p = record (written f bytes p) {
    pending = p.pending ++ entry_of f ∷ [];
    pending_bytes = p.pending_bytes + length bytes;
  }

  receive-Quiet :
      (s : System) (p : PartialTransfer)
      → Quiet s p
      → receive_encoded_block C s encoded p ≡ (ok (received_bytes (more p)), more p)
  unfolding more store_block settle received_bytes durable_bytes write_at
  receive-Quiet s p q = rw (receive_new s p q.opens q.new) (
      rw
        (
          q.goes,
          store_block,
          leb_gt journal_checkpoint_bytes (p.pending_bytes + length bytes) q.few,
          settle,
          leb_gt journal_checkpoint_interval (s.now - p.last_checkpoint) q.early,
        )
        refl)

  more_counts : (p : PartialTransfer) → received_bytes (more p) ≡ received_bytes p + f.plaintext_len
  unfolding more received_bytes durable_bytes
  more_counts p = omega (arith, entries_bytes-append p.pending (entry_of f))

  -- A block that is received twice between two checkpoints is counted twice.
  pub receive_twice :
      (s t : System) (p : PartialTransfer)
      → decrypt C f p.manifest p.key ≡ ok bytes
      → contains f.block_index p.journal.durable ≡ false
      → s.write_stops ≡ none
      → t.write_stops ≡ none
      → s.now - p.last_checkpoint < journal_checkpoint_interval
      → t.now - p.last_checkpoint < journal_checkpoint_interval
      → p.pending_bytes + length bytes + length bytes < journal_checkpoint_bytes
      → let once = (receive_encoded_block C s encoded p).1 in
        (receive_encoded_block C t encoded once).0
        ≡ ok (received_bytes p + f.plaintext_len + f.plaintext_len)
  unfolding more
  receive_twice s t p opens new gs gt es et few =
      let q : Quiet s p = record {
        opens = opens;
        new = new;
        goes = gs;
        early = es;
        few = omega arith;
      } in
      let r : Quiet t (more p) = record {
        opens = opens;
        new = new;
        goes = gt;
        early = et;
        few = few;
      } in
      rw (receive-Quiet s p q, receive-Quiet t (more p) r)
        (ap ok (omega (arith, more_counts (more p), more_counts p)))

module _ (C : Crypto) (L : IsLawful C) (m : TransferManifest) (key source : List ℕ)
    (sized : length source ≡ m.size_bytes) where
  receive-has_block :
      (s : System) (p : PartialTransfer) (f : AttachmentBlockFrame) (bytes encoded : List ℕ)
      → IsGenuine C m key source encoded
      → Live C L m key source p
      → ((i : ℕ) → s.append_stops i ≡ none)
      → s.write_stops ≡ none
      → decode encoded ≡ ok f
      → decrypt C f m key ≡ ok bytes
      → has_block C L m key source (receive_encoded_block C s encoded p).1 f.block_index ≡ true
  unfolding store_block settle checkpoint
  receive-has_block s p f bytes encoded genuine v g goes read opens =
      elim (Bool-cases (contains f.block_index p.journal.durable)) [
        | inl known ↦ rw (receive_known C f bytes encoded read s p known, known) refl
        | inr new ↦
            let o =
              Opened-Piece C L m key source sized f bytes (decrypt-Opened C m key f bytes opens)
                (genuine f bytes read opens) in
            rw
              (
                receive_new C f bytes encoded read s p (rw (v.same_manifest, v.same_key) opens) new,
                goes,
              )
              ((settle-Goes C L m key source sized s (s.now - p.last_checkpoint) _ g
                  (pending_more-Live C L m key source sized f bytes p o v)).1
                f.block_index
                (ground (
                  arith,
                  named-append f.block_index p.pending (entry_of f ∷ []),
                  ==_self f.block_index,
                )))
      ]

  abbrev block : ℕ → ℕ → List ℕ
  block i n = take n (drop (i * m.block_size) source)

  -- A frame that is the block of the source is genuine.
  pub block-IsGenuine :
      (i n : ℕ) (f : AttachmentBlockFrame) (encoded : List ℕ)
      → expected_plaintext_len m i ≡ ok f.plaintext_len
      → expected_plaintext_len m i ≡ ok n
      → decode encoded ≡ ok f
      → decrypt C f m key ≡ ok (block i n)
      → f.block_index ≡ i
      → IsGenuine C m key source encoded
  block-IsGenuine i n f encoded e h read opens same g bytes r o =
      let frames : f ≡ g = ok_injective (sym read ∙ r) in
      let len : f.plaintext_len ≡ n = ok_injective (sym e ∙ h) in
      let found : block i n ≡ bytes = ok_injective (sym opens ∙ rw (sym frames) at o) in
      rw (sym frames, same, len) (sym found)

  -- What the sender makes of a block is received: the transfer has the block behind the call.
  pub receive-encrypt :
      (s : System) (p : PartialTransfer) (i n : ℕ)
      → Live C L m key source p
      → ((i : ℕ) → s.append_stops i ≡ none)
      → s.write_stops ≡ none
      → expected_plaintext_len m i ≡ ok n
      → (encoded : List ℕ) × ((do f ← encrypt C m key i (block i n); encode f) ≡ ok encoded)
        × (has_block C L m key source (receive_encoded_block C s encoded p).1 i ≡ true)
  receive-encrypt s p i n v g goes h =
      let plaintext = block i n in
      let bounds = expected_plaintext_len-bounds m i n h in
      let long : length plaintext ≡ n = omega (
        arith,
        sized,
        length-take n (drop (i * m.block_size) source),
        length-drop (i * m.block_size) source,
        bounds,
      ) in
      let (f, encoded, sealed, sent, read, opens, same) =
        decrypt-encrypt C L m key i plaintext (rw long h) in
      let genuine : IsGenuine C m key source encoded =
        block-IsGenuine i n f encoded
          (rw same at (decrypt-Opened C m key f plaintext opens).expected) h read opens same in
      (
        encoded,
        rw (sealed, sent) refl,
        rw same at (receive-has_block s p f plaintext encoded genuine v g goes read opens),
      )
