-- ===== src/Transfer/Journal/Recovery.antt =====
-- What loading makes of a journal that a crash or a failed write left behind.
use mathlib.Core.List.{append-nil, append_assoc}
use native.Mathlib.Nat.{add-zero}
use conest.Base.{
  ℕ, zero, suc, ◌+◌, ◌*◌, ◌/◌, ◌≤◌, ◌<◌, ◌≡◌, refl, sym, ◌∙◌, false, none, some, List, [], ◌∷◌,
  ◌++◌, length, take, drop, All, arith, length-append, take-append_left, length-take, if_ind,
  take_all, take-append-drop, All-append,
}
use conest.Base.OrdSet.{contains}
use conest.Base.Bytes.{be_bytes}
use conest.Base.Text.{same_text}
use conest.Base.Outcome.{Outcome, ok, err}
use conest.Transfer.{Crypto, IsLawful, TransferError, unsupported_record}
use conest.Transfer.Journal.{
  TransferJournal, append, record_bytes, record_prefix, load_record, load_records,
  load_journal_records, open_journal,
}
use conest.Transfer.Journal.Records.{
  Entry, IsSound, recorded, recorded-append, entry_bytes, journal_bytes, length-entry_bytes,
  length-journal_bytes, load_records-journal_bytes,
}

module _ (C : Crypto) (L : IsLawful C) (key : List ℕ) where
  div_80 : (n r : ℕ) → r < 80 → (n * 80 + r) / 80 ≡ n
  div_80 n r h = omega arith

  load_whole :
      (es : List Entry)
      → All IsSound es
      → load_records C (length es) key (journal_bytes C key es) [] ≡ ok (recorded es [])
  unfolding load_records
  load_whole es s =
      rw (add-zero (length es), append-nil (journal_bytes C key es)) at
        (load_records-journal_bytes C L key es zero [] [] s)

  -- A journal that ends in the middle of a record loads to the blocks of its complete records, and
  -- loses the piece.
  pub load_torn :
      (es : List Entry) (torn : List ℕ)
      → All IsSound es
      → length torn < 80
      → load_journal_records C key (journal_bytes C key es ++ torn)
        ≡ (ok (recorded es []), journal_bytes C key es)
  unfolding load_journal_records
  load_torn es torn s h =
      let file = journal_bytes C key es in
      let sized = length-journal_bytes C L key es s in
      let counted : length (file ++ torn) / 80 ≡ length es =
        rw (length-append file torn, sized) (div_80 (length es) (length torn) h) in
      rw (counted, take-append_left file torn (length es * 80) sized, load_whole es s) refl

  -- What a journal in memory has to do with its file.
  pub record Written (j : TransferJournal) (es : List Entry) : Type 0 where
    pub same_key : j.key ≡ key
    pub stored : j.file ≡ journal_bytes C key es
    pub listed : j.durable ≡ recorded es []
    pub sound : All IsSound es

  pub open_torn :
      (es : List Entry) (torn : List ℕ)
      → All IsSound es
      → length torn < 80
      → open_journal C key (journal_bytes C key es ++ torn)
        ≡ ok (record { file = journal_bytes C key es; key = key; durable = recorded es [] })
  unfolding open_journal
  open_torn es torn s h = rw (load_torn es torn s h) refl

  open_written :
      (j : TransferJournal) (es : List Entry) (torn : List ℕ)
      → Written j es
      → length torn < 80
      → open_journal C key (j.file ++ torn) ≡ ok j
  open_written j es torn w h =
      rw (w.stored, open_torn es torn w.sound h) (rw (w.same_key, w.listed) refl)

  -- Opening what has been written gives the journal that wrote it.
  pub open_written_whole :
      (j : TransferJournal) (es : List Entry) → Written j es → open_journal C key j.file ≡ ok j
  open_written_whole j es w = rw (append-nil j.file) at (open_written j es [] w (omega arith))

  -- A journal that is opened again after a call of `append` that failed in the middle of its
  -- record is the journal from before the call.
  pub open_journal-append_torn :
      (j : TransferJournal) (es : List Entry) (e : Entry) (k : ℕ)
      → Written j es
      → k < 80
      → open_journal C key (append C j e.index e.len e.digest (some k)).1.file ≡ ok j
  unfolding append
  open_journal-append_torn j es e k w h =
      if_ind
        (λ (r : Outcome TransferError (Unit {0}) × TransferJournal).
          open_journal C key r.1.file ≡ ok j)
        (contains e.index j.durable) _ _ (λ _. open_written_whole j es w)
        (λ _.
          open_written j es (take k (record_bytes C j.key e.index e.len e.digest)) w
            (omega (arith, length-take k (record_bytes C j.key e.index e.len e.digest))))

  pub journal_bytes-append :
      (es : List Entry) (e : Entry)
      → journal_bytes C key (es ++ e ∷ []) ≡ journal_bytes C key es ++ entry_bytes C key e
  unfolding journal_bytes
  journal_bytes-append [] e = append-nil (entry_bytes C key e)
  journal_bytes-append (d ∷ es) e =
      rw (journal_bytes-append es e)
        (sym (append_assoc (entry_bytes C key d) (journal_bytes C key es) (entry_bytes C key e)))

  -- A successful `append` of a new block returns, names the block and writes its record.
  pub append-Written :
      (j : TransferJournal) (es : List Entry) (e : Entry)
      → Written j es
      → IsSound e
      → contains e.index j.durable ≡ false
      → Written (append C j e.index e.len e.digest none).1 (es ++ e ∷ [])
  unfolding append entry_bytes
  append-Written j es e w s new = rw new (record {
    same_key = w.same_key;
    stored = rw (w.same_key, w.stored, journal_bytes-append es e) refl;
    listed = rw (w.listed, recorded-append es (e ∷ []) []) (unfold recorded in refl);
    sound = All-append IsSound es (e ∷ []) w.sound (s, tt);
  })

  -- The first three bytes of a record that stay behind when `append` fails, and what a later call
  -- adds, begin no record.
  load_record_piece :
      (k : ℕ) (d e : Entry) (rest durable : List ℕ)
      → 0 < k
      → k < 4
      → load_record C key
          (take 80 (take k (entry_bytes C key d) ++ (entry_bytes C key e ++ rest)))
          durable
        ≡ err unsupported_record
  unfolding load_record entry_bytes record_bytes record_prefix be_bytes same_text
  load_record_piece zero d e rest durable h l = absurd (omega arith)
  load_record_piece (suc zero) d e rest durable h l = refl
  load_record_piece (suc (suc zero)) d e rest durable h l = refl
  load_record_piece (suc (suc (suc zero))) d e rest durable h l = refl
  load_record_piece (suc (suc (suc (suc k)))) d e rest durable h l = absurd (omega arith)

  load_one :
      (bytes durable : List ℕ) (x : TransferError)
      → load_record C key (take 80 bytes) durable ≡ err x
      → load_records C 1 key bytes durable ≡ err x
  unfolding load_records
  load_one bytes durable x h = rw h refl

  -- A record that is refused behind those of a journal: the journal is refused.
  open_refused :
      (es : List Entry) (bytes : List ℕ) (x : TransferError)
      → All IsSound es
      → 80 ≤ length bytes
      → length bytes < 160
      → ((durable : List ℕ) → load_record C key (take 80 bytes) durable ≡ err x)
      → open_journal C key (journal_bytes C key es ++ bytes) ≡ err x
  unfolding open_journal load_journal_records
  open_refused es bytes x s h l refused =
      let file = journal_bytes C key es in
      let sized = length-journal_bytes C L key es s in
      let counted : length (file ++ bytes) / 80 ≡ length es + 1 =
        rw (length-append file bytes, sized) (omega arith) in
      let first : length (file ++ take 80 bytes) ≡ (length es + 1) * 80 =
        rw (length-append file (take 80 bytes), sized) (omega (arith, length-take 80 bytes)) in
      let split : file ++ bytes ≡ file ++ take 80 bytes ++ drop 80 bytes =
        sym (
          append_assoc file (take 80 bytes) (drop 80 bytes)
          ∙ rw (take-append-drop 80 bytes) refl) in
      rw
        (
          counted,
          split,
          take-append_left (file ++ take 80 bytes) (drop 80 bytes) ((length es + 1) * 80) first,
          load_records-journal_bytes C L key es 1 (take 80 bytes) [] s,
          load_one (take 80 bytes) (recorded es []) x (
              rw (take_all (take 80 bytes) 80 (omega (arith, length-take 80 bytes)))
                (refused (recorded es []))),
        )
        refl

  -- A call of `append` that fails inside the magic of its record leaves a piece behind; when a
  -- later call then succeeds, the journal can no longer be loaded.
  pub open_journal-append_twice :
      (j : TransferJournal) (es : List Entry) (d e : Entry) (k : ℕ)
      → Written j es
      → IsSound d
      → IsSound e
      → contains d.index j.durable ≡ false
      → contains e.index j.durable ≡ false
      → 0 < k
      → k < 4
      → let torn = (append C j d.index d.len d.digest (some k)).1 in
        let (result, after) = append C torn e.index e.len e.digest none in
        (result ≡ ok tt) × (open_journal C key after.file ≡ err unsupported_record)
  unfolding append entry_bytes
  open_journal-append_twice j es d e k w sd se nd ne h l =
      let piece = take k (entry_bytes C key d) in
      let whole = entry_bytes C key e in
      let sizes : length (piece ++ whole) ≡ k + 80 = omega (
        arith,
        length-append piece whole,
        length-take k (entry_bytes C key d),
        length-entry_bytes C L key d sd,
        length-entry_bytes C L key e se,
      ) in
      rw (nd, ne, w.same_key)
        (
          refl,
          rw (w.stored, append_assoc (journal_bytes C key es) piece whole)
              (open_refused es (piece ++ whole) unsupported_record w.sound (omega arith)
                (omega arith)
                (λ durable. rw (append-nil whole) at (load_record_piece k d e [] durable h l))),
        )
