-- ===== src/Relay/Store/Evictions.antt =====
-- The three loops that make room: they end, and what they delete has no lease.
use conest.Base.{
  ℕ, zero, suc, ◌<◌, ◌≡◌, refl, Bool, true, false, ◌&&◌, Option, none, some, List, [], ◌∷◌, arith,
  ◌⊎◌, ltb, if◌then◌else◌, length, All, is_some, if_ind, inl, inr, Option-cases,
}
use conest.Base.Text.{Text}
use conest.Relay.Table.{Row, Database, select, first_id, delete_id, is_free, is_in, is_other}
use conest.Relay.Table.Valid.{IsValid, IsRow, is_leased, delete_id-IsValid}
use conest.Relay.Store.{
  Config, Result, goes_on, refused, mailbox_full, relay_full, is_announcement, evict_pairing,
  victim, or_else, mailbox_fits, fit_mailbox, free_of, give_up, give_of, give_from, give_again,
  holder_of, relay_fits, fit_relay, max_pairing_per_mailbox,
}
use conest.Relay.Store.Removals.{
  IsEviction, IsEviction-refl, delete_found_shorter, Ends, evict_more,
}

-- The announcements of a mailbox are free.
first_announcement :
    (mailbox : Text) (rs : List Row)
    → All IsRow rs
    → first_id (λ r. is_announcement mailbox r && is_free r) rs ≡ none
    → length (select (is_announcement mailbox) rs) ≡ 0
unfolding first_id select
first_announcement mailbox [] a h = refl
first_announcement mailbox (r ∷ rs) a h = ground (arith, a.0, first_announcement mailbox rs a.1)

pub evict_pairing-Ends :
    (fuel : ℕ) (mailbox : Text) (db : Database)
    → IsValid db
    → length db.rows < fuel
    → Ends
        (λ d.
          IsEviction db d
          × (length (select (is_announcement mailbox) d.rows) < max_pairing_per_mailbox))
        (evict_pairing fuel mailbox db)
unfolding evict_pairing
evict_pairing-Ends zero mailbox db v h = elim h [ ]
evict_pairing-Ends (suc fuel) mailbox db v h =
    if_ind (Ends P) (ltb (length (select (is_announcement mailbox) db.rows)) 8) (goes_on db)
      (evict_pairing fuel mailbox (delete_id (first_id p db.rows) db))
      (λ e. (IsEviction-refl db v, ground arith))
      (λ e. more (evict_pairing-Ends fuel mailbox) e (Option-cases (first_id p db.rows)))
  where
    P : Database → Type 0
    P d = IsEviction db d × (length (select (is_announcement mailbox) d.rows) < 8)

    p : Row → Bool
    p r = is_announcement mailbox r && is_free r

    more :
        ((d : Database)
          → IsValid d
          → length d.rows < fuel
          → Ends
              (λ c. IsEviction d c × (length (select (is_announcement mailbox) c.rows) < 8))
              (evict_pairing fuel mailbox d))
        → ltb (length (select (is_announcement mailbox) db.rows)) 8 ≡ false
        → (first_id p db.rows ≡ none) ⊎ ((id : ℕ) × (first_id p db.rows ≡ some id))
        → Ends P (evict_pairing fuel mailbox (delete_id (first_id p db.rows) db))
    more rec e (inl f) = absurd (ground (arith, first_announcement mailbox db.rows v.announced f))
    more rec e (inr (id, f)) = rw f (
        evict_more p id db (λ d. length (select (is_announcement mailbox) d.rows) < 8)
          (evict_pairing fuel mailbox (delete_id (some id) db)) v
          (λ r k. unfold is_free in ground arith) f
          (rec (delete_id (some id) db) (delete_id-IsValid (some id) db v)
            (omega (arith, delete_found_shorter p id db f))))

-- What a mailbox gives up is free.
abbrev Free : List Row → Option ℕ → Type 0
Free rows none = Unit {0}
Free rows (some id) =
    (p : Row → Bool) × ((r : Row) → p r ≡ true → is_leased r ≡ false) × (first_id p rows ≡ some id)

first_id-Free :
    (p : Row → Bool) (rows : List Row)
    → ((r : Row) → p r ≡ true → is_leased r ≡ false)
    → Free rows (first_id p rows)
first_id-Free p rows free = found (first_id p rows) refl
  where
    found : (o : Option ℕ) → first_id p rows ≡ o → Free rows o
    found none e = tt
    found (some id) e = (p, free, e)

victim-Free : (mailbox : Text) (rows : List Row) → Free rows (victim mailbox rows)
unfolding victim
victim-Free mailbox rows =
    either (first_id (λ r. is_in mailbox r && is_free r && is_other r.kind) rows)
      (first_id (λ r. is_in mailbox r && is_free r) rows)
      (first_id-Free (λ r. is_in mailbox r && is_free r && is_other r.kind) rows
        (λ r k. unfold is_free in ground arith))
      (first_id-Free (λ r. is_in mailbox r && is_free r) rows
        (λ r k. unfold is_free in ground arith))
  where
    either : (a b : Option ℕ) → Free rows a → Free rows b → Free rows (or_else a b)
    either none b f g = g
    either (some a) b f g = f

pub fit_mailbox-Ends :
    (fuel : ℕ) (config : Config) (mailbox : Text) (n : ℕ) (db : Database)
    → IsValid db
    → length db.rows < fuel
    → Ends
        (λ d. IsEviction db d × (mailbox_fits config mailbox n d ≡ true))
        (fit_mailbox fuel config mailbox n db)
unfolding fit_mailbox
fit_mailbox-Ends zero config mailbox n db v h = elim h [ ]
fit_mailbox-Ends (suc fuel) config mailbox n db v h =
    if_ind (Ends P) (mailbox_fits config mailbox n db) (goes_on db)
      (if is_some id
        then fit_mailbox fuel config mailbox n (delete_id id db)
        else refused mailbox_full)
      (λ e. (IsEviction-refl db v, e))
      (λ e. more (fit_mailbox-Ends fuel config mailbox n) id (victim-Free mailbox db.rows))
  where
    P : Database → Type 0
    P d = IsEviction db d × (mailbox_fits config mailbox n d ≡ true)

    id : Option ℕ
    id = victim mailbox db.rows

    more :
        ((d : Database)
          → IsValid d
          → length d.rows < fuel
          → Ends
              (λ c. IsEviction d c × (mailbox_fits config mailbox n c ≡ true))
              (fit_mailbox fuel config mailbox n d))
        → (o : Option ℕ) → Free db.rows o
        → Ends P (
            if is_some o
            then fit_mailbox fuel config mailbox n (delete_id o db)
            else refused mailbox_full)
    more rec none f = tt
    more rec (some id') (p, free, f) =
        evict_more p id' db (λ d. mailbox_fits config mailbox n d ≡ true)
          (fit_mailbox fuel config mailbox n (delete_id (some id') db)) v free f
          (rec (delete_id (some id') db) (delete_id-IsValid (some id') db v)
            (omega (arith, delete_found_shorter p id' db f)))

module _ (largest : List Row → Option (Option Text)) where
  -- What a round of the relay's loop deletes is free.
  abbrev Gives : List Row → Option (ℕ × Option (Option Text)) → Type 0
  Gives rows none = Unit {0}
  Gives rows (some found) = Free rows (some found.0)

  give_up-Free :
      (remembered : Option (Option Text)) (rows : List Row)
      → Gives rows (give_up largest remembered rows)
  unfolding give_up
  give_up-Free remembered rows = of (holder_of largest remembered rows)
    where
      free : (holder : Option Text) → Free rows (first_id (free_of holder) rows)
      free holder = first_id-Free (free_of holder) rows (λ r k. unfold is_free in ground arith)

      last :
          (o : Option ℕ)
          → Free rows o
          → Gives rows (elim o [ none ↦ none | some id ↦ some (id, none) ])
      last none f = tt
      last (some id) f = f

      again : (o : Option (Option Text)) → Gives rows (give_again largest rows o)
      again none = tt
      again (some holder) = last (first_id (free_of holder) rows) (free holder)

      from :
          (holder : Option Text) (o : Option ℕ)
          → Free rows o
          → Gives rows (give_from largest rows holder o)
      from holder none f = again (largest rows)
      from holder (some id) f = f

      of : (o : Option (Option Text)) → Gives rows (give_of largest rows o)
      of none = tt
      of (some holder) = from holder (first_id (free_of holder) rows) (free holder)

  pub fit_relay-Ends :
      (fuel : ℕ) (config : Config) (n : ℕ) (remembered : Option (Option Text)) (db : Database)
      → IsValid db
      → length db.rows < fuel
      → Ends
          (λ d. IsEviction db d × (relay_fits largest config n d ≡ true))
          (fit_relay largest fuel config n remembered db)
  unfolding fit_relay
  fit_relay-Ends zero config n remembered db v h = elim h [ ]
  fit_relay-Ends (suc fuel) config n remembered db v h =
      if_ind (Ends P) (relay_fits largest config n db) (goes_on db)
        (next (give_up largest remembered db.rows)) (λ e. (IsEviction-refl db v, e))
        (λ e.
          more (fit_relay-Ends fuel config n) (give_up largest remembered db.rows)
            (give_up-Free remembered db.rows))
    where
      P : Database → Type 0
      P d = IsEviction db d × (relay_fits largest config n d ≡ true)

      next : Option (ℕ × Option (Option Text)) → Result
      next o = elim o [
        | none ↦ refused relay_full
        | some found ↦ fit_relay largest fuel config n found.1 (delete_id (some found.0) db)
      ]

      more :
          ((m : Option (Option Text)) (d : Database)
            → IsValid d
            → length d.rows < fuel
            → Ends
                (λ c. IsEviction d c × (relay_fits largest config n c ≡ true))
                (fit_relay largest fuel config n m d))
          → (o : Option (ℕ × Option (Option Text))) → Gives db.rows o
          → Ends P (next o)
      more rec none f = tt
      more rec (some (id, m)) (p, free, f) =
          evict_more p id db (λ d. relay_fits largest config n d ≡ true)
            (fit_relay largest fuel config n m (delete_id (some id) db)) v free f
            (rec m (delete_id (some id) db) (delete_id-IsValid (some id) db v)
              (omega (arith, delete_found_shorter p id db f)))
