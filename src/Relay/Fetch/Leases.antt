-- ===== src/Relay/Fetch/Leases.antt =====
-- A lease that is acknowledged is a fetch for good, and every fetch keeps the table valid.
use conest.Base.{
  ℕ, ◌-◌, ◌≤◌, ◌≡◌, refl, sym, ap, ◌∙◌, Bool, true, false, not, ◌||◌, Option, none, some, List, [],
  ◌∷◌, arith, ltb, ◌==◌, length, All, if_ind, Option-cases, inl, inr, Bool-cases,
}
use conest.Base.Text.{Text}
use conest.Base.Words.{add_sat64}
use conest.Relay.Table.{Row, Database, reject, delete, delete_id, is_pairing, is_stale}
use conest.Relay.Table.Valid.{IsValid, All-reject, delete-IsValid, delete_id-IsValid}
use conest.Relay.Store.{Config, validate_mailbox_id}
use conest.Relay.Fetch.{
  Lease, is_over, settle, ready_rows, hand_out, serve, serve_all, take_queue, is_leased_as,
  acknowledge_lease, lease_of,
}
use conest.Relay.Fetch.Known.{
  Known, set_lease-Known, reject-set_lease, reject-reject, reject_none, set_lease-Ids,
  sizes-set_lease, set_lease-IsRow, set_lease-fresh, reject-Known, settle-IsValid, Servable,
  ready_rows-Servable, Known-kind,
}

module _ {V : Type 0} (parse : Text → Option V) where
  serve-IsValid :
      (lease : Lease) (r : Row) (db : Database)
      → IsValid db
      → Known db.rows r
      → IsValid (serve parse lease r db)
  unfolding serve
  serve-IsValid lease r db v k = elim (Option-cases (parse r.encoded)) [
    | inl e ↦ rw (e, serve) (delete_id-IsValid (some r.id) db v)
    | inr (x, e) ↦
        rw (e, serve)
          (if_ind IsValid (is_pairing r.kind) db (hand_out lease r.id db) (λ _. v)
            (λ h. handed lease h))
  ]
    where
      handed : (l : Lease) → is_pairing r.kind ≡ false → IsValid (hand_out l r.id db)
      handed none h = delete_id-IsValid (some r.id) db v
      handed (some l) h = record {
        ids = set_lease-Ids (λ x. x.id == r.id) (some l) 0 db.next db.rows v.ids;
        counted = v.counted ∙ sym (sizes-set_lease (λ x. x.id == r.id) (some l) db.rows);
        announced =
            set_lease-IsRow (λ x. x.id == r.id) (some l) db.rows (Known-kind r (some l) db.rows k h)
              v.announced;
      }

  serve-Known :
      (lease : Lease) (r s : Row) (db : Database)
      → Known db.rows s
      → Known (serve parse lease r db).rows s
  unfolding serve
  serve-Known lease r s db k = elim (Option-cases (parse r.encoded)) [
    | inl e ↦
        rw (e, serve) (unfold delete_id delete in reject-Known s (λ x. x.id == r.id) db.rows k)
    | inr (x, e) ↦
        rw (e, serve)
          (if_ind (λ d. Known (Database.rows d) s) (is_pairing r.kind) db (hand_out lease r.id db)
            (λ _. k) (λ _. handed lease))
  ]
    where
      handed : (l : Lease) → Known (hand_out l r.id db).rows s
      handed none = unfold delete_id delete in reject-Known s (λ x. x.id == r.id) db.rows k
      handed (some l) = set_lease-Known s (λ x. x.id == r.id) (some l) db.rows k

  serve-Servable :
      (mailbox : Text) (lease : Lease) (r : Row) (rs : List Row) (db : Database)
      → All (Servable mailbox db.rows) rs
      → All (Servable mailbox (serve parse lease r db).rows) rs
  serve-Servable mailbox lease r [] db a = tt
  serve-Servable mailbox lease r (s ∷ rs) db a =
      ((a.0.0, serve-Known lease r s db a.0.1), serve-Servable mailbox lease r rs db a.1)

  serve_all-IsValid :
      (mailbox : Text) (lease : Lease) (rs : List Row) (db : Database)
      → IsValid db
      → All (Servable mailbox db.rows) rs
      → IsValid (serve_all parse lease rs db)
  unfolding serve_all
  serve_all-IsValid mailbox lease [] db v a = v
  serve_all-IsValid mailbox lease (r ∷ rs) db v a =
      serve_all-IsValid mailbox lease rs (serve parse lease r db) (serve-IsValid lease r db v a.0.1)
        (serve-Servable mailbox lease r rs db a.1)

  -- Serving for good what was acknowledged is acknowledging what was served on lease.
  serve-acknowledge :
      (mailbox : Text) (lease : Text × ℕ) (r : Row) (db d : Database)
      → d.rows ≡ reject (is_leased_as mailbox lease.0) db.rows
      → Servable mailbox db.rows r
      → (serve parse none r d).rows
        ≡ reject (is_leased_as mailbox lease.0) (serve parse (some lease) r db).rows
  unfolding serve delete_id delete
  serve-acknowledge mailbox lease r db d h (own, known) = elim (Option-cases (parse r.encoded)) [
    | inl e ↦
        rw (e, serve)
          (ap (reject (λ x. x.id == r.id)) h
            ∙ reject-reject (λ x. x.id == r.id) (is_leased_as mailbox lease.0) db.rows)
    | inr (x, e) ↦
        rw (e, serve)
          (elim (Bool-cases (is_pairing r.kind)) [
            | inl p ↦ rw p h
            | inr p ↦ rw p (
                ap (reject (λ x. x.id == r.id)) h
                ∙ sym (reject-set_lease mailbox lease r db.rows known own))
          ])
  ]

  serve_all-acknowledge :
      (mailbox : Text) (lease : Text × ℕ) (rs : List Row) (db d : Database)
      → d.rows ≡ reject (is_leased_as mailbox lease.0) db.rows
      → All (Servable mailbox db.rows) rs
      → (serve_all parse none rs d).rows
        ≡ reject (is_leased_as mailbox lease.0) (serve_all parse (some lease) rs db).rows
  unfolding serve_all
  serve_all-acknowledge mailbox lease [] db d h a = h
  serve_all-acknowledge mailbox lease (r ∷ rs) db d h a =
      serve_all-acknowledge mailbox lease rs (serve parse (some lease) r db) (serve parse none r d)
        (serve-acknowledge mailbox lease r db d h a.0)
        (serve-Servable mailbox (some lease) r rs db a.1)

  -- Every fetch, with a lease or for good, keeps the table valid.
  pub take_queue-IsValid :
      (config : Config) (mailbox : Text) (limit : ℕ) (lease_id : Text) (lease_ms : Option ℕ)
      (now : ℕ) (db : Database)
      → IsValid db
      → IsValid (take_queue parse config mailbox limit lease_id lease_ms now db).0
  unfolding take_queue
  take_queue-IsValid config mailbox limit lease_id lease_ms now db v =
      serve_all-IsValid mailbox (lease_of lease_id lease_ms now)
        (ready_rows mailbox limit (settle config now db)) (settle config now db)
        (settle-IsValid config now db v)
        (ready_rows-Servable mailbox limit (settle config now db) (settle-IsValid config now db v))

  -- A fetch with a lease whose name no row of the mailbox has, and its acknowledgement, hand out
  -- the same messages and leave the same rows as one fetch for good.
  pub take_queue-acknowledge_lease :
      (config : Config) (mailbox : Text) (limit : ℕ) (lease_id : Text) (lease_ms now : ℕ)
      (db : Database)
      → IsValid db
      → All (λ r. is_leased_as mailbox lease_id r ≡ false) db.rows
      → validate_mailbox_id mailbox ≡ true
      → 16 ≤ length lease_id
      → length lease_id ≤ 128
      → ((acknowledge_lease mailbox lease_id
            (take_queue parse config mailbox limit lease_id (some lease_ms) now db).0).0.rows
          ≡ (take_queue parse config mailbox limit lease_id none now db).0.rows)
        × ((take_queue parse config mailbox limit lease_id (some lease_ms) now db).1.0
            ≡ (take_queue parse config mailbox limit lease_id none now db).1.0)
  unfolding take_queue
  take_queue-acknowledge_lease config mailbox limit lease_id lease_ms now db v fresh known lo hi = (
    acknowledged (serve_all parse (some lease) rows d)
        ∙ sym (
            serve_all-acknowledge mailbox lease rows d d (sym (reject_none q d.rows unnamed))
              (ready_rows-Servable mailbox limit d (settle-IsValid config now db v))),
    refl,
  )
    where
      d : Database
      d = settle config now db

      rows : List Row
      rows = ready_rows mailbox limit d

      lease : Text × ℕ
      lease = (lease_id, add_sat64 now lease_ms)

      q : Row → Bool
      q = is_leased_as mailbox lease_id

      unnamed : All (λ r. q r ≡ false) d.rows
      unnamed =
          unfold settle delete in
          set_lease-fresh mailbox lease_id (is_over now)
            (reject (is_stale (now - config.ttl)) db.rows)
            (All-reject (λ r. q r ≡ false) (is_stale (now - config.ttl)) db.rows fresh)

      acknowledged :
          (c : Database) → (acknowledge_lease mailbox lease_id c).0.rows ≡ reject q c.rows
      acknowledged c = unfold acknowledge_lease delete in ground arith

pub acknowledge_lease-IsValid :
    (mailbox lease_id : Text) (db : Database)
    → IsValid db
    → IsValid (acknowledge_lease mailbox lease_id db).0
unfolding acknowledge_lease
acknowledge_lease-IsValid mailbox lease_id db v =
    if_ind (λ (x : Database × Bool). IsValid x.0)
      (not (validate_mailbox_id mailbox) || ltb (length lease_id) 16 || ltb 128 (length lease_id))
      (db, false) (delete (is_leased_as mailbox lease_id) db, true) (λ _. v)
      (λ _. delete-IsValid (is_leased_as mailbox lease_id) db v)
