-- ===== src/Transfer/Partial/Stored.antt =====
-- A journal on disk, a checkpoint that goes through and one that is cut short.
use mathlib.Core.List.{append-nil}
use conest.Base.{
  ==_iff, subst, ltb, ltb→lt, ltb-false, take_all, ℕ, ◌<◌, ◌≡◌, refl, sym, Bool, true, false, ◌||◌,
  ◌==◌, Option, none, some, List, [], ◌∷◌, ◌++◌, length, take, All, All-append, arith, Bool-cases,
  Option-cases, inl, inr, length-take,
}
use conest.Base.OrdSet.{insert, contains, contains-insert, insert-From, insert-Below, From, Below}
use conest.Base.Outcome.{ok, err}
use conest.Transfer.{Crypto, IsLawful, io}
use conest.Transfer.Journal.{TransferJournal, append, record_bytes}
use conest.Transfer.Journal.Records.{
  Entry, IsSound, recorded, recorded-append, entry_bytes, journal_bytes, length-entry_bytes,
}
use conest.Transfer.Journal.Recovery.{journal_bytes-append, Written, append-Written}
use conest.Transfer.Partial.{append_all}

-- A list of records names the block.
abbrev pub named : ℕ → List Entry → Bool
named i [] = false
named i (e ∷ es) = e.index == i || named i es

pub named-append : (i : ℕ) (es fs : List Entry) → named i (es ++ fs) ≡ (named i es || named i fs)
named-append i [] fs = refl
named-append i (e ∷ es) fs = ground (arith, named-append i es fs)

module _ {κ} (Q : ℕ → Type κ) where
  -- What holds of every recorded block holds of every block of the set.
  pub recorded-contains :
      (es : List Entry) (d : List ℕ) (i : ℕ)
      → All (λ (e : Entry). Q e.index) es
      → (contains i d ≡ true → Q i)
      → contains i (recorded es d) ≡ true
      → Q i
  unfolding recorded
  recorded-contains [] d i h k c = k c
  recorded-contains (e ∷ es) d i h k c =
      recorded-contains es (insert e.index d) i h.1
        (λ found. elim (Bool-cases (e.index == i)) [
          | inl same ↦ subst Q ((==_iff e.index i).0 same) h.0
          | inr other ↦ k (rw (contains-insert i e.index d, other) at found)
        ])
        c

pub recorded-From : (es : List Entry) (d : List ℕ) → From 0 d → From 0 (recorded es d)
unfolding recorded
recorded-From [] d h = h
recorded-From (e ∷ es) d h =
    recorded-From es (insert e.index d) (insert-From 0 e.index d h (omega arith))

pub recorded-Below :
    (c : ℕ) (es : List Entry) (d : List ℕ)
    → All (λ (e : Entry). e.index < c) es
    → Below c d
    → Below c (recorded es d)
unfolding recorded
recorded-Below c [] d h b = b
recorded-Below c (e ∷ es) d h b =
    recorded-Below c es (insert e.index d) h.1 (insert-Below c e.index d b h.0)

contains-recorded_more :
    (es : List Entry) (p : Entry) (i : ℕ)
    → contains i (recorded es []) ≡ true
    → contains i (recorded (es ++ p ∷ []) []) ≡ true
unfolding recorded
contains-recorded_more es p i h =
    rw (recorded-append es (p ∷ []) [])
      (rw (contains-insert i p.index (recorded es []), h) (ground arith))

-- One round of the loop over the drained blocks, in its three cases.
module _ (C : Crypto) (stops : ℕ → Option ℕ) (j : TransferJournal) (p : Entry)
    (ps : List Entry) where
  append_known :
      contains p.index j.durable ≡ true
      → append C j p.index p.len p.digest (stops p.index) ≡ (ok tt, j)
  unfolding append
  append_known known = rw known refl

  append_new :
      contains p.index j.durable ≡ false
      → stops p.index ≡ none
      → append C j p.index p.len p.digest (stops p.index)
        ≡ (ok tt, (append C j p.index p.len p.digest none).1)
  unfolding append
  append_new new goes = rw (new, goes) refl

  contains_new :
      (i : ℕ)
      → contains p.index j.durable ≡ false
      → contains i (append C j p.index p.len p.digest none).1.durable
        ≡ (p.index == i || contains i j.durable)
  unfolding append
  contains_new i new = rw new (contains-insert i p.index j.durable)

  append_stop :
      (k : ℕ)
      → contains p.index j.durable ≡ false
      → stops p.index ≡ some k
      → append C j p.index p.len p.digest (stops p.index) ≡ (
        err io,
        record j { file = j.file ++ take k (record_bytes C j.key p.index p.len p.digest) },
      )
  unfolding append
  append_stop k new stop = rw (new, stop) refl

  append_all_known :
      contains p.index j.durable ≡ true → append_all C stops j (p ∷ ps) ≡ append_all C stops j ps
  unfolding append_all
  append_all_known known = rw (append_known known) refl

  append_all_new :
      contains p.index j.durable ≡ false
      → stops p.index ≡ none
      → append_all C stops j (p ∷ ps)
        ≡ append_all C stops (append C j p.index p.len p.digest none).1 ps
  unfolding append_all
  append_all_new new goes = rw (append_new new goes) refl

  append_all_stop :
      (k : ℕ)
      → contains p.index j.durable ≡ false
      → stops p.index ≡ some k
      → append_all C stops j (p ∷ ps) ≡ (
        err io,
        record j { file = j.file ++ take k (record_bytes C j.key p.index p.len p.digest) },
      )
  unfolding append_all
  append_all_stop k new stop = rw (append_stop k new stop) refl

module _ (C : Crypto) (L : IsLawful C) (key : List ℕ) where
  -- A journal file with these complete records, and a piece of one more.
  pub record Stored (bytes : List ℕ) (es : List Entry) : Type 0 where
    pub torn : List ℕ
    pub short : length torn < 80
    pub stored : bytes ≡ journal_bytes C key es ++ torn
    pub sound : All IsSound es

  module _ {κ} (Q : Entry → Type κ) where
    -- Some records are stored, each has the property, and they name every block that the journal
    -- has in memory.
    abbrev pub StoredAll : TransferJournal → Type κ
    StoredAll j =
        (es : List Entry) × (Stored j.file es)
        × (All Q es)
        × ((i : ℕ) → contains i j.durable ≡ true → contains i (recorded es []) ≡ true)

    pub Written-StoredAll :
        (j : TransferJournal) (es : List Entry) → Written C L key j es → All Q es → StoredAll j
    Written-StoredAll j es w q = (
      es,
      record {
        torn = [];
        short = omega arith;
        stored = rw (append-nil (journal_bytes C key es)) w.stored;
        sound = w.sound;
      },
      q,
      λ i h. rw w.listed at h,
    )

    -- A record that is cut short after `k` bytes.
    append_cut :
        (j : TransferJournal) (es : List Entry) (p : Entry) (k : ℕ)
        → Written C L key j es
        → All Q es
        → IsSound p
        → Q p
        → StoredAll
            (record j { file = j.file ++ take k (record_bytes C j.key p.index p.len p.digest) })
    unfolding entry_bytes
    append_cut j es p k w q s r =
        rw (w.same_key, w.stored)
          (elim (Bool-cases (ltb k 80)) [
            | inl cut ↦ (
              es,
              record {
                torn = take k (record_bytes C key p.index p.len p.digest);
                short = omega (
                  arith,
                  ltb→lt k 80 cut,
                  length-take k (record_bytes C key p.index p.len p.digest),
                );
                stored = refl;
                sound = w.sound;
              },
              q,
              λ i h. rw w.listed at h,
            )
            | inr whole ↦ (
              es ++ p ∷ [],
              record {
                torn = [];
                short = omega arith;
                stored =
                    rw
                      (
                        take_all (entry_bytes C key p) k
                            (omega (arith, ltb-false k 80 whole, length-entry_bytes C L key p s)),
                        journal_bytes-append C L key es p,
                      )
                      (sym (append-nil (journal_bytes C key es ++ entry_bytes C key p)));
                sound = All-append IsSound es (p ∷ []) w.sound (s, tt);
              },
              All-append Q es (p ∷ []) q (r, tt),
              λ i h. contains-recorded_more es p i (rw w.listed at h),
            )
          ])

    -- However the appends of a checkpoint end, the journal on disk holds whole records, each of a
    -- block with the property, and at most a piece behind them.
    pub append_all-StoredAll :
        (stops : ℕ → Option ℕ) (j : TransferJournal) (es ps : List Entry)
        → Written C L key j es
        → All Q es
        → All IsSound ps
        → All Q ps
        → StoredAll (append_all C stops j ps).1
    append_all-StoredAll stops j es [] w q s r = unfold append_all in Written-StoredAll j es w q
    append_all-StoredAll stops j es (p ∷ ps) w q s r =
        elim (Bool-cases (contains p.index j.durable)) [
          | inl known ↦
              rw (append_all_known C stops j p ps known)
                (append_all-StoredAll stops j es ps w q s.1 r.1)
          | inr new ↦ elim (Option-cases (stops p.index)) [
            | inl goes ↦ rw (append_all_new C stops j p ps new goes) (
                append_all-StoredAll stops (append C j p.index p.len p.digest none).1 (es ++ p ∷ [])
                  ps (append-Written C L key j es p w s.0 new)
                  (All-append Q es (p ∷ []) q (r.0, tt)) s.1 r.1)
            | inr (k, stop) ↦
                rw (append_all_stop C stops j p ps k new stop) (append_cut j es p k w q s.0 r.0)
          ]
        ]

    -- When every append goes through, the checkpoint returns, and each pending block is durable.
    pub append_all-Written :
        (stops : ℕ → Option ℕ) (j : TransferJournal) (es ps : List Entry)
        → ((i : ℕ) → stops i ≡ none)
        → Written C L key j es
        → All Q es
        → All IsSound ps
        → All Q ps
        → (es' : List Entry) × (Written C L key (append_all C stops j ps).1 es')
          × (All Q es')
          × ((append_all C stops j ps).0 ≡ ok tt)
          × ((i : ℕ)
              → (contains i j.durable || named i ps) ≡ true
              → contains i (append_all C stops j ps).1.durable ≡ true)
    append_all-Written stops j es [] g w q s r =
        unfold append_all in (es, w, q, refl, λ i h. ground arith)
    append_all-Written stops j es (p ∷ ps) g w q s r =
        elim (Bool-cases (contains p.index j.durable)) [
          | inl known ↦ rw (append_all_known C stops j p ps known) (
              let (es', w', q', e, kept) = append_all-Written stops j es ps g w q s.1 r.1 in
              (es', w', q', e, λ i h. kept i (ground (arith, ==_iff p.index i))))
          | inr new ↦ rw (append_all_new C stops j p ps new (g p.index)) (
              let (es', w', q', e, kept) =
                append_all-Written stops (append C j p.index p.len p.digest none).1 (es ++ p ∷ [])
                  ps g (append-Written C L key j es p w s.0 new)
                  (All-append Q es (p ∷ []) q (r.0, tt)) s.1 r.1 in
              (es', w', q', e, λ i h. kept i (ground (arith, contains_new C stops j p ps i new))))
        ]
