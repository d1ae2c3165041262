-- ===== src/Transfer/Partial/Live/Receive.antt =====
-- `receive_encoded_block` on any input: a frame, a forged one, or none.
use conest.Base.{
  ℕ, ◌+◌, ◌*◌, ◌≤◌, ◌<◌, ◌≡◌, ◌∙◌, true, ◌||◌, none, List, [], ◌∷◌, ◌++◌, length, take, drop,
  All-append, arith, sym, if_ind, leb, subst,
}
use conest.Base.Outcome.{Outcome, and_then_keeps}
use conest.Transfer.{Crypto, IsLawful, TransferError}
use conest.Transfer.Manifest.{TransferManifest}
use conest.Transfer.Manifest.Blocks.{
  expected_plaintext_len-bounds, expected_plaintext_len-min, expected-valid, validate-Geometry,
  block_count_below,
}
use conest.Transfer.Frame.{AttachmentBlockFrame}
use conest.Transfer.Frame.Sealed.{Opened, Opened-length}
use conest.Transfer.Journal.Records.{Entry, IsSound}
use conest.Transfer.Partial.{
  PartialTransfer, System, checkpoint, settle, entry_of, written, write_at,
  journal_checkpoint_bytes, journal_checkpoint_interval,
}
use conest.Transfer.Partial.Bytes.{length-write_at}
use conest.Transfer.Partial.Agree.{PieceAt, drop-PieceAt, write_at-Agrees, write_at-covers}
use conest.Transfer.Partial.Live.{
  All-map, HoldsEntry, Live, OnDisk, Live-OnDisk, checkpoint-OnDisk, checkpoint-Live, has_block,
}

module _ (C : Crypto) (L : IsLawful C) (m : TransferManifest) (key source : List ℕ)
    (sized : length source ≡ m.size_bytes) where
  offset : ℕ → ℕ
  offset i = i * m.block_size

  -- A block that opens is a piece of the source, and fills its place in the file.
  pub record Piece (f : AttachmentBlockFrame) (bytes : List ℕ) : Type 0 where
    pub piece : PieceAt source (f.block_index * m.block_size) bytes
    pub fits : f.block_index * m.block_size + length bytes ≤ m.size_bytes
    pub index_below : f.block_index < m.block_count
    pub fills :
        (x : ℕ)
        → x < f.block_index * m.block_size + m.block_size
        → x < m.size_bytes
        → x < f.block_index * m.block_size + length bytes
    pub sound : IsSound (entry_of f)

  pub Opened-Piece :
      (f : AttachmentBlockFrame) (bytes : List ℕ)
      → Opened C m key f bytes
      → bytes ≡ take f.plaintext_len (drop (f.block_index * m.block_size) source)
      → Piece f bytes
  Opened-Piece f bytes o genuine =
      let valid = expected-valid m f.block_index f.plaintext_len o.expected in
      let bounds = expected_plaintext_len-bounds m f.block_index f.plaintext_len o.expected in
      let count = block_count_below m (validate-Geometry m valid) in
      let size = Opened-length C m key L f bytes o in
      record {
        piece =
            subst (PieceAt source (f.block_index * m.block_size)) (sym genuine)
              (drop-PieceAt source (f.block_index * m.block_size) f.plaintext_len);
        fits = omega (arith, bounds, size);
        index_below = bounds.0;
        fills = λ x h k.
            omega
              (arith, size, expected_plaintext_len-min m f.block_index f.plaintext_len o.expected);
        sound = record {
          small = omega (arith, bounds, count);
          hashed = rw o.hashed at (L.sha256-length bytes);
        };
      }

  -- Bytes of the source written at their place spoil no block.
  module _ (f : AttachmentBlockFrame) (bytes : List ℕ) (p : PartialTransfer)
      (piece : PieceAt source (f.block_index * m.block_size) bytes)
      (fits : f.block_index * m.block_size + length bytes ≤ m.size_bytes)
      (v : Live C L m key source p) where
    after : List ℕ
    after = write_at (f.block_index * m.block_size) bytes p.file.contents

    within : f.block_index * m.block_size + length bytes ≤ length p.file.contents
    within = omega (arith, fits, v.sized)

    keeps :
        (e : Entry)
        → HoldsEntry C L m key source p.file.contents e
        → HoldsEntry C L m key source after e
    unfolding after
    keeps e h = (h.0, λ x a b c. write_at-Agrees source _ bytes _ within piece x (h.1 x a b c))

    pub written-Live : Live C L m key source (written f bytes p)
    unfolding after
    written-Live = record {
      same_manifest = v.same_manifest;
      same_key = v.same_key;
      sized = rw v.same_manifest (length-write_at _ bytes _ within ∙ v.sized);
      stored_sized = v.stored_sized;
      entries = v.entries;
      written = v.written;
      durable = rw v.same_manifest (All-map v.entries (λ e h. (h.0, keeps e h.1)) v.durable);
      sound = v.sound;
      held = rw v.same_manifest (All-map p.pending keeps v.held);
    }

  abbrev pub pending_more : AttachmentBlockFrame → List ℕ → PartialTransfer → PartialTransfer
  pending_more f bytes p = record (written f bytes p) {
    pending = p.pending ++ entry_of f ∷ [];
    pending_bytes = p.pending_bytes + length bytes;
  }

  pub pending_more-Live :
      (f : AttachmentBlockFrame) (bytes : List ℕ) (p : PartialTransfer)
      → Piece f bytes
      → Live C L m key source p
      → Live C L m key source (pending_more f bytes p)
  pending_more-Live f bytes p o v =
      let w = written-Live f bytes p o.piece o.fits v in
      let own : HoldsEntry C L m key source
          (write_at (f.block_index * m.block_size) bytes p.file.contents) (entry_of f) =
        (
          o.index_below,
          λ x a b c.
              write_at-covers source (f.block_index * m.block_size) bytes p.file.contents
                (omega (arith, o.fits, v.sized)) o.piece x a (o.fills x b c),
        ) in
      record {
        same_manifest = w.same_manifest;
        same_key = w.same_key;
        sized = w.sized;
        stored_sized = w.stored_sized;
        entries = w.entries;
        written = w.written;
        durable = w.durable;
        sound = All-append IsSound p.pending (entry_of f ∷ []) v.sound (o.sound, tt);
        held =
            All-append (HoldsEntry C L m key source _) p.pending (entry_of f ∷ []) w.held
              (rw v.same_manifest own, tt);
      }

  pub settle-OnDisk :
      (s : System) (elapsed : ℕ) (p : PartialTransfer)
      → Live C L m key source p
      → OnDisk C L m key source (settle C s elapsed p).1
  unfolding settle
  settle-OnDisk s elapsed p v =
      if_ind (λ (r : Outcome TransferError ℕ × PartialTransfer). OnDisk C L m key source r.1)
        (leb journal_checkpoint_bytes p.pending_bytes || leb journal_checkpoint_interval elapsed) _
        _
        (λ _.
          and_then_keeps (OnDisk C L m key source) (checkpoint C s p) _
            (checkpoint-OnDisk C L m key source s p v) (λ _ q d. d))
        (λ _. Live-OnDisk C L m key source p v)

  -- A transfer goes on, with every block that it had.
  abbrev pub Goes : PartialTransfer → PartialTransfer → Type 0
  Goes p q =
      Live C L m key source q
      × ((i : ℕ) → has_block C L m key source p i ≡ true → has_block C L m key source q i ≡ true)

  pub settle-Goes :
      (s : System) (elapsed : ℕ) (p : PartialTransfer)
      → ((i : ℕ) → s.append_stops i ≡ none)
      → Live C L m key source p
      → Goes p (settle C s elapsed p).1
  unfolding settle
  settle-Goes s elapsed p g v =
      if_ind (λ (r : Outcome TransferError ℕ × PartialTransfer). Goes p r.1)
        (leb journal_checkpoint_bytes p.pending_bytes || leb journal_checkpoint_interval elapsed) _
        _
        (λ _.
          and_then_keeps (Goes p) (checkpoint C s p) _ (checkpoint-Live C L m key source s p g v)
            (λ _ q d. d))
        (λ _. (v, λ i h. h))
