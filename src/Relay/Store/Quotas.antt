-- ===== src/Relay/Store/Quotas.antt =====
-- What a store leaves: the quotas hold, no leased row is lost, and a refusal changes no row.
use conest.Base.{
  ℕ, ◌+◌, ◌-◌, ◌≤◌, ◌<◌, ◌≡◌, refl, ◌∙◌, Bool, true, false, not, Option, none, some, List, [], ◌∷◌,
  arith, ltb, if◌then◌else◌, length, length-append, if_ind, ◌⊎◌, inl, inr,
}
use mathlib.Core.List.{append-nil}
use conest.Base.Text.{Text, same_option}
use conest.Base.Words.{u64_max}
use conest.Relay.Table.{Row, Database, select, sizes, delete, insert, is_pairing, is_in, is_stale}
use conest.Relay.Table.Valid.{
  IsValid, is_leased, delete-IsValid, insert-IsValid, select-append, sizes-append,
}
use conest.Relay.Store.{
  Config, Envelope, RelayState, Result, goes_on, refused, hangs, Answer, accepted, declined, loops,
  new_row, enqueue, store_in, store_from, commit, count_bytes, source_of, is_announcement,
  is_present, dedup_key_of, max_pairing_per_mailbox, validate_mailbox_id,
}
use conest.Relay.Store.Removals.{IsEviction, Ends, Ends-map}
use conest.Relay.Store.Room.{WithinShare, IsEnqueued, enqueue-Ends}

module _ (largest : List Row → Option (Option Text)) where
  -- The database `c` that a store commits behind the rows that had not timed out: the envelope's
  -- row came last behind an eviction, no leased row is lost, and the quotas of the mailbox, of the address and of the relay hold.
  pub record IsStored (config : Config) (now : ℕ) (source : Option Text) (mailbox : Text)
      (e : Envelope) (db c : Database) : Type 0 where
    pub valid : IsValid c
    pub leased : select is_leased c.rows ≡ select is_leased db.rows
    pub newest :
        (d : Database) × IsEviction db d × (c ≡ insert (new_row largest now source mailbox e) d)
    pub pairing :
        is_pairing e.kind ≡ true
        → length (select (is_announcement mailbox) c.rows) ≤ max_pairing_per_mailbox
    pub entries : length (select (is_in mailbox) c.rows) ≤ config.max_queue_per_mailbox
    pub bytes : sizes (select (is_in mailbox) c.rows) ≤ config.max_mailbox_bytes
    pub share : WithinShare config source 0 c
    pub total : sizes c.rows ≤ config.max_total_bytes

  insert-leased :
      (row : Row) (d : Database) → select is_leased (insert row d).rows ≡ select is_leased d.rows
  unfolding insert
  insert-leased row d =
      select-append is_leased (record row { id = d.next; lease = none }) d.rows
      ∙ append-nil (select is_leased d.rows)

  -- One more row takes one more place and its bytes.
  insert-length :
      (p : Row → Bool) (row : Row) (d : Database)
      → length (select p (insert row d).rows) ≤ length (select p d.rows) + 1
  unfolding insert
  insert-length p row d =
      let new : Row = record row { id = d.next; lease = none } in
      rw (select-append p new d.rows)
        (ground (arith, length-append (select p d.rows) (if p new then new ∷ [] else [])))

  insert-sizes :
      (p : Row → Bool) (row : Row) (d : Database)
      → sizes (select p (insert row d).rows) ≤ sizes (select p d.rows) + row.size
  unfolding insert
  insert-sizes p row d =
      let new : Row = record row { id = d.next; lease = none } in
      rw (select-append p new d.rows)
        (ground (arith, sizes-append new (select p d.rows), append-nil (select p d.rows)))

  enqueued-WithinShare :
      (config : Config) (now : ℕ) (source : Option Text) (mailbox : Text) (e : Envelope)
      (d : Database)
      → WithinShare config source (length e.encoded) d
      → WithinShare config source 0 (insert (new_row largest now source mailbox e) d)
  enqueued-WithinShare config now none mailbox e d h = tt
  enqueued-WithinShare config now (some source) mailbox e d h =
      let row = new_row largest now (some source) mailbox e in
      omega (arith, h, insert-sizes (λ r. same_option r.source (some source)) row d)

  enqueued-IsStored :
      (config : Config) (now : ℕ) (source : Option Text) (mailbox : Text) (e : Envelope)
      (db c : Database)
      → config.max_mailbox_bytes < u64_max
      → config.max_total_bytes < u64_max
      → IsEnqueued largest config now source mailbox e db c
      → IsStored config now source mailbox e db c
  enqueued-IsStored config now source mailbox e db c hm ht (d, h, i) = rw i (record {
    valid = v;
    leased = insert-leased row d ∙ h.evicted.leased;
    newest = (d, h.evicted, refl);
    pairing = λ q. omega (arith, h.pairing q, insert-length (is_announcement mailbox) row d);
    entries = omega (arith, h.entries, insert-length (is_in mailbox) row d);
    bytes = omega (arith, h.bytes, insert-sizes (is_in mailbox) row d);
    share = enqueued-WithinShare config now source mailbox e d h.share;
    total = omega (arith, v.counted, h.total, the_total);
  })
    where
      row : Row
      row = new_row largest now source mailbox e

      v : IsValid (insert row d)
      v = insert-IsValid row d h.evicted.valid

      the_total : (insert row d).total ≡ d.total + length e.encoded
      the_total = unfold insert in refl

  -- What is left once the rows that timed out are gone.
  abbrev pub current : Config → ℕ → Database → Database
  current config now db = delete (is_stale (now - config.ttl)) db

  -- What the database is behind an answer.
  abbrev pub Answers :
      Config → ℕ → Option Text → Text → Envelope → Database → RelayState × Answer → Type 0
  Answers config now source mailbox e db (s, accepted) =
      ((is_present largest mailbox (dedup_key_of e) (current config now db) ≡ true)
        × (s.database ≡ current config now db))
      ⊎ IsStored config now source mailbox e (current config now db) s.database
  Answers config now source mailbox e db (s, declined r) = s.database ≡ db
  Answers config now source mailbox e db (s, loops) = ⊥

  commit-Answers :
      (config : Config) (now : ℕ) (source : Option Text) (mailbox : Text) (e : Envelope)
      (s : RelayState) (x : Result)
      → Ends (IsStored config now source mailbox e (current config now s.database)) x
      → Answers config now source mailbox e s.database (commit s mailbox (x, true))
  unfolding commit
  commit-Answers config now source mailbox e s (goes_on db) h = inr h
  commit-Answers config now source mailbox e s (refused r) h = refl
  commit-Answers config now source mailbox e s hangs h = h

  store_in-Answers :
      (config : Config) (now : ℕ) (source : Option Text) (mailbox : Text) (e : Envelope)
      (s : RelayState)
      → IsValid s.database
      → config.max_mailbox_bytes < u64_max
      → config.max_total_bytes < u64_max
      → Answers config now source mailbox e s.database
          (commit s mailbox (store_in largest config now source mailbox e s.database))
  unfolding store_in
  store_in-Answers config now source mailbox e s v hm ht =
      if_ind (λ x. Answers config now source mailbox e s.database (commit s mailbox x))
        (is_present largest mailbox (dedup_key_of e) d) (goes_on d, false)
        (enqueue largest config now source mailbox e d, true) (λ p. unfold commit in inl (p, refl))
        (λ p.
          commit-Answers config now source mailbox e s
            (enqueue largest config now source mailbox e d)
            (Ends-map (IsEnqueued largest config now source mailbox e d)
              (IsStored config now source mailbox e d)
              (enqueue largest config now source mailbox e d)
              (λ c. enqueued-IsStored config now source mailbox e d c hm ht)
              (enqueue-Ends largest config now source mailbox e d
                (delete-IsValid (is_stale (now - config.ttl)) s.database v))))
    where
      d : Database
      d = current config now s.database

  -- `store_from` always answers. A refusal leaves every row as it was. An accepted envelope was
  -- there under its message id, or its row is the newest: then no leased row that had not timed
  -- out is lost, the mailbox holds at most its entries and bytes (and 8 announcements, if the
  -- envelope is one), the source, if there is one, at most its share, where the share is below the
  -- largest u64, and the whole relay at most its bytes. The byte limits of the mailbox and of the
  -- relay are below the largest u64.
  pub store_from-Answers :
      (config : Config) (s : RelayState) (t now : ℕ) (source mailbox : Text) (e : Envelope)
      → IsValid s.database
      → config.max_mailbox_bytes < u64_max
      → config.max_total_bytes < u64_max
      → Answers config now
          (source_of source)
          mailbox
          e
          s.database
          (store_from largest config s t now source mailbox e)
  unfolding store_from
  store_from-Answers config s t now source mailbox e v hm ht =
      if_ind A (not (validate_mailbox_id mailbox)) _ _ (λ _. refl)
        (λ _.
          if_ind A (ltb config.max_envelope_bytes (length e.encoded)) _ _ (λ _. refl)
            (λ _.
              if_ind A (count_bytes config s.mailbox_bytes mailbox e t).1 _ _
                (λ _. store_in-Answers config now (source_of source) mailbox e s' v hm ht)
                (λ _. refl)))
    where
      A : RelayState × Answer → Type 0
      A = Answers config now (source_of source) mailbox e s.database

      s' : RelayState
      s' = record s { mailbox_bytes = (count_bytes config s.mailbox_bytes mailbox e t).0 }
