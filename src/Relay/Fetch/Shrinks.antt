-- ===== src/Relay/Fetch/Shrinks.antt =====
-- The steps that add no row: at most fewer rows of every kind, and other leases.
use conest.Base.{
  ℕ, ◌-◌, ◌≤◌, ◌≡◌, refl, Bool, true, false, not, ◌||◌, Option, none, some, List, [], ◌∷◌, arith,
  ltb, ◌==◌, length, if_ind, Option-cases, inl, inr,
}
use conest.Base.Text.{Text}
use conest.Relay.Table.{
  Row, Database, select, sizes, delete, delete_id, set_lease, is_pairing, is_stale,
}
use conest.Relay.Table.Valid.{length-select-reject, sizes-select-reject}
use conest.Relay.Store.{Config, validate_mailbox_id}
use conest.Relay.Fetch.{
  Lease, is_over, settle, ready_rows, hand_out, serve, serve_all, take_queue, lease_of,
  acknowledge_lease, is_leased_as,
}

-- A test that does not look at the lease.
abbrev pub Blind : (Row → Bool) → Type 0
Blind p = (r : Row) (lease : Lease) → p (record r { lease = lease }) ≡ p r

pub record Shrinks (db d : Database) : Type 0 where
  pub fewer : (p : Row → Bool) → Blind p → length (select p d.rows) ≤ length (select p db.rows)
  pub lighter : (p : Row → Bool) → Blind p → sizes (select p d.rows) ≤ sizes (select p db.rows)
  pub less : d.total ≤ db.total

Shrinks-trans : (a b c : Database) → Shrinks a b → Shrinks b c → Shrinks a c
Shrinks-trans a b c s t = record {
  fewer = λ p h. omega (arith, s.fewer p h, t.fewer p h);
  lighter = λ p h. omega (arith, s.lighter p h, t.lighter p h);
  less = omega (arith, s.less, t.less);
}

Shrinks-refl : (db : Database) → Shrinks db db
Shrinks-refl db = record {
  fewer = λ p h. omega arith;
  lighter = λ p h. omega arith;
  less = omega arith;
}

pub delete-Shrinks : (q : Row → Bool) (db : Database) → Shrinks db (delete q db)
unfolding delete
delete-Shrinks q db = record {
  fewer = λ p h. length-select-reject p q db.rows;
  lighter = λ p h. sizes-select-reject p q db.rows;
  less = omega arith;
}

length-select-set_lease :
    (p q : Row → Bool) (lease : Lease) (rs : List Row)
    → Blind p
    → length (select p (set_lease q lease rs)) ≡ length (select p rs)
unfolding select set_lease
length-select-set_lease p q lease [] h = refl
length-select-set_lease p q lease (r ∷ rs) h =
    ground (arith, h r lease, length-select-set_lease p q lease rs h)

sizes-select-set_lease :
    (p q : Row → Bool) (lease : Lease) (rs : List Row)
    → Blind p
    → sizes (select p (set_lease q lease rs)) ≡ sizes (select p rs)
unfolding select set_lease sizes
sizes-select-set_lease p q lease [] h = refl
sizes-select-set_lease p q lease (r ∷ rs) h =
    ground (arith, h r lease, sizes-select-set_lease p q lease rs h)

pub set_lease-Shrinks :
    (q : Row → Bool) (lease : Lease) (db : Database)
    → Shrinks db (record db { rows = set_lease q lease db.rows })
set_lease-Shrinks q lease db = record {
  fewer = λ p h. omega (arith, length-select-set_lease p q lease db.rows h);
  lighter = λ p h. omega (arith, sizes-select-set_lease p q lease db.rows h);
  less = omega arith;
}

settle-Shrinks : (config : Config) (now : ℕ) (db : Database) → Shrinks db (settle config now db)
unfolding settle
settle-Shrinks config now db =
    let cleaned = delete (is_stale (now - config.ttl)) db in
    Shrinks-trans db cleaned (record cleaned { rows = set_lease (is_over now) none cleaned.rows })
      (delete-Shrinks (is_stale (now - config.ttl)) db)
      (set_lease-Shrinks (is_over now) none cleaned)

hand_out-Shrinks : (lease : Lease) (id : ℕ) (db : Database) → Shrinks db (hand_out lease id db)
hand_out-Shrinks none id db = unfold delete_id in delete-Shrinks (λ r. r.id == id) db
hand_out-Shrinks (some lease) id db = set_lease-Shrinks (λ r. r.id == id) (some lease) db

pub acknowledge_lease-Shrinks :
    (mailbox lease_id : Text) (db : Database) → Shrinks db (acknowledge_lease mailbox lease_id db).0
unfolding acknowledge_lease
acknowledge_lease-Shrinks mailbox lease_id db =
    if_ind (λ (x : Database × Bool). Shrinks db x.0)
      (not (validate_mailbox_id mailbox) || ltb (length lease_id) 16 || ltb 128 (length lease_id))
      (db, false) (delete (is_leased_as mailbox lease_id) db, true) (λ _. Shrinks-refl db)
      (λ _. delete-Shrinks (is_leased_as mailbox lease_id) db)

module _ {V : Type 0} (parse : Text → Option V) where
  serve-Shrinks : (lease : Lease) (r : Row) (db : Database) → Shrinks db (serve parse lease r db)
  unfolding serve
  serve-Shrinks lease r db = elim (Option-cases (parse r.encoded)) [
    | inl e ↦ rw (e, serve) (unfold delete_id in delete-Shrinks (λ x. x.id == r.id) db)
    | inr (x, e) ↦
        rw (e, serve)
          (if_ind (Shrinks db) (is_pairing r.kind) db (hand_out lease r.id db)
            (λ _. Shrinks-refl db) (λ _. hand_out-Shrinks lease r.id db))
  ]

  serve_all-Shrinks :
      (lease : Lease) (rs : List Row) (db : Database) → Shrinks db (serve_all parse lease rs db)
  unfolding serve_all
  serve_all-Shrinks lease [] db = Shrinks-refl db
  serve_all-Shrinks lease (r ∷ rs) db =
      Shrinks-trans db (serve parse lease r db) (serve_all parse lease rs (serve parse lease r db))
        (serve-Shrinks lease r db) (serve_all-Shrinks lease rs (serve parse lease r db))

  pub take_queue-Shrinks :
      (config : Config) (mailbox : Text) (limit : ℕ) (lease_id : Text) (lease_ms : Option ℕ)
      (now : ℕ) (db : Database)
      → Shrinks db (take_queue parse config mailbox limit lease_id lease_ms now db).0
  unfolding take_queue
  take_queue-Shrinks config mailbox limit lease_id lease_ms now db =
      let d = settle config now db in
      let rows = ready_rows mailbox limit d in
      let lease = lease_of lease_id lease_ms now in
      Shrinks-trans db d (serve_all parse lease rows d) (settle-Shrinks config now db)
        (serve_all-Shrinks lease rows d)
