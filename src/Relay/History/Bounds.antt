-- ===== src/Relay/History/Bounds.antt =====
-- The bounds that hold in every reachable state of the relay.
use conest.Base.{
  ℕ, ◌-◌, ◌≤◌, ◌<◌, ◌≡◌, refl, sym, ap, ◌∙◌, subst, Bool, false, Option, none, List, [], ◌∷◌, arith,
  length, Bool-cases, inl, inr,
}
use mathlib.Core.List.{append-nil}
use conest.Base.Text.{Text, same_text, same_text→≡}
use conest.Base.Words.{u64_max}
use conest.Relay.Table.{Row, Database, select, sizes, insert, is_in, is_stale}
use conest.Relay.Table.Valid.{IsValid, is_leased, select-append, delete-IsValid}
use conest.Relay.Store.{
  Config, Envelope, RelayState, Answer, accepted, declined, loops, is_announcement,
  max_pairing_per_mailbox, store_from, new_row, source_of,
}
use conest.Relay.Store.Quotas.{IsStored, Answers, current, store_from-Answers}
use conest.Relay.Fetch.{take_queue, acknowledge_lease}
use conest.Relay.Fetch.Known.{set_lease-Ids, sizes-set_lease, set_lease-IsRow, always}
use conest.Relay.Fetch.Leases.{take_queue-IsValid, acknowledge_lease-IsValid}
use conest.Relay.Fetch.Shrinks.{
  Blind, Shrinks, delete-Shrinks, set_lease-Shrinks, take_queue-Shrinks, acknowledge_lease-Shrinks,
}
use conest.Relay.History.{Call, stores, fetches, acknowledges, restarts, empty, reopen, step, run}

-- The rows of one mailbox, its bytes and its announcements, and the bytes of all, are bounded.
pub record IsWithin (config : Config) (db : Database) : Type 0 where
  pub entries : (m : Text) → length (select (is_in m) db.rows) ≤ config.max_queue_per_mailbox
  pub bytes : (m : Text) → sizes (select (is_in m) db.rows) ≤ config.max_mailbox_bytes
  pub pairing : (m : Text) → length (select (is_announcement m) db.rows) ≤ max_pairing_per_mailbox
  pub total : db.total ≤ config.max_total_bytes

is_in-Blind : (m : Text) → Blind (is_in m)
is_in-Blind m r lease = unfold is_in in refl

is_announcement-Blind : (m : Text) → Blind (is_announcement m)
is_announcement-Blind m r lease = unfold is_in in refl

Shrinks-IsWithin :
    (config : Config) (db d : Database) → Shrinks db d → IsWithin config db → IsWithin config d
Shrinks-IsWithin config db d s w = record {
  entries = λ m. omega (arith, w.entries m, s.fewer (is_in m) (is_in-Blind m));
  bytes = λ m. omega (arith, w.bytes m, s.lighter (is_in m) (is_in-Blind m));
  pairing = λ m. omega (arith, w.pairing m, s.fewer (is_announcement m) (is_announcement-Blind m));
  total = omega (arith, w.total, s.less);
}

-- A new row takes a place in its own mailbox only.
select-insert :
    (p : Row → Bool) (row : Row) (d : Database)
    → Blind p
    → ((n : ℕ) → p (record row { id = n }) ≡ p row)
    → p row ≡ false
    → select p (insert row d).rows ≡ select p d.rows
unfolding insert
select-insert p row d blind plain h =
    let new : Row = record row { id = d.next; lease = none } in
    let k : p new ≡ false = blind (record row { id = d.next }) none ∙ plain d.next ∙ h in
    select-append p new d.rows ∙ rw k (append-nil (select p d.rows))

module _ (largest : List Row → Option (Option Text)) where
  stored-IsWithin :
      (config : Config) (now : ℕ) (source : Option Text) (mailbox : Text) (e : Envelope)
      (db c : Database)
      → IsWithin config db
      → IsStored largest config now source mailbox e db c
      → IsWithin config c
  stored-IsWithin config now source mailbox e db c w s = record {
    entries = λ m. elim (Bool-cases (same_text mailbox m)) [
      | inl h ↦
          subst (λ t. length (select (is_in t) c.rows) ≤ config.max_queue_per_mailbox)
            (same_text→≡ mailbox m h) s.entries
      | inr h ↦ omega (
        arith,
        ap length (kept (is_in m) (is_in-Blind m) (λ n. unfold is_in in refl) (unfold is_in in h)),
        s.newest.1.fewer (is_in m),
        w.entries m,
      )
    ];
    bytes = λ m. elim (Bool-cases (same_text mailbox m)) [
      | inl h ↦
          subst (λ t. sizes (select (is_in t) c.rows) ≤ config.max_mailbox_bytes)
            (same_text→≡ mailbox m h) s.bytes
      | inr h ↦ omega (
        arith,
        ap sizes (kept (is_in m) (is_in-Blind m) (λ n. unfold is_in in refl) (unfold is_in in h)),
        s.newest.1.lighter (is_in m),
        w.bytes m,
      )
    ];
    pairing = λ m. elim (Bool-cases (is_announcement m row)) [
      | inl h ↦
          subst (λ t. length (select (is_announcement t) c.rows) ≤ max_pairing_per_mailbox)
            (same_text→≡ mailbox m (unfold is_in in ground arith)) (s.pairing (ground arith))
      | inr h ↦ omega (
        arith,
        ap length
            (kept (is_announcement m) (is_announcement-Blind m) (λ n. unfold is_in in refl) h),
        s.newest.1.fewer (is_announcement m),
        w.pairing m,
      )
    ];
    total = omega (arith, s.total, s.valid.counted);
  }
    where
      row : Row
      row = new_row largest now source mailbox e

      kept :
          (p : Row → Bool)
          → Blind p
          → ((n : ℕ) → p (record row { id = n }) ≡ p row)
          → p row ≡ false
          → select p c.rows ≡ select p s.newest.0.rows
      kept p blind plain h =
          ap (λ (x : Database). select p x.rows) s.newest.2
          ∙ select-insert p row s.newest.0 blind plain h

-- A state whose table is valid and within the limits.
abbrev pub IsBounded : Config → RelayState → Type 0
IsBounded config s = IsValid s.database × IsWithin config s.database

reopen-IsBounded :
    (config : Config) (s : RelayState) → IsBounded config s → IsBounded config (reopen s)
unfolding reopen
reopen-IsBounded config s (v, w) = (
  record {
    ids = set_lease-Ids is_leased none 0 s.database.next s.database.rows v.ids;
    counted = v.counted ∙ sym (sizes-set_lease is_leased none s.database.rows);
    announced =
        set_lease-IsRow is_leased none s.database.rows (always is_leased s.database.rows)
          v.announced;
  },
  Shrinks-IsWithin config s.database (reopen s).database
      (set_lease-Shrinks is_leased none s.database) w,
)

module _ (largest : List Row → Option (Option Text)) {V : Type 0} (parse : Text → Option V)
    (config : Config) (few : config.max_mailbox_bytes < u64_max)
    (light : config.max_total_bytes < u64_max) where
  answered-IsBounded :
      (now : ℕ) (source : Option Text) (mailbox : Text) (e : Envelope) (db : Database)
      (x : RelayState × Answer)
      → IsValid db
      → IsWithin config db
      → Answers largest config now source mailbox e db x
      → IsBounded config x.0
  answered-IsBounded now source mailbox e db (s, accepted) v w (inl (p, h)) =
      subst (λ (d : Database). IsValid d × IsWithin config d) (sym h)
        (
          delete-IsValid (is_stale (now - config.ttl)) db v,
          Shrinks-IsWithin config db (current largest config now db)
              (delete-Shrinks (is_stale (now - config.ttl)) db) w,
        )
  answered-IsBounded now source mailbox e db (s, accepted) v w (inr h) = (
    h.valid,
    stored-IsWithin largest config now source mailbox e (current largest config now db) s.database
        (Shrinks-IsWithin config db (current largest config now db)
          (delete-Shrinks (is_stale (now - config.ttl)) db) w)
        h,
  )
  answered-IsBounded now source mailbox e db (s, declined r) v w h =
      subst (λ (d : Database). IsValid d × IsWithin config d) (sym h) (v, w)
  answered-IsBounded now source mailbox e db (s, loops) v w h = absurd h

  step-IsBounded :
      (s : RelayState) (call : Call)
      → IsBounded config s
      → IsBounded config (step largest parse config s call)
  unfolding step
  step-IsBounded s (stores t now source mailbox e) (v, w) =
      answered-IsBounded now (source_of source) mailbox e s.database
        (store_from largest config s t now source mailbox e) v w
        (store_from-Answers largest config s t now source mailbox e v few light)
  step-IsBounded s (fetches mailbox limit lease_id lease_ms now) (v, w) = (
    take_queue-IsValid parse config mailbox limit lease_id lease_ms now s.database v,
    Shrinks-IsWithin config s.database
        (take_queue parse config mailbox limit lease_id lease_ms now s.database).0
        (take_queue-Shrinks parse config mailbox limit lease_id lease_ms now s.database) w,
  )
  step-IsBounded s (acknowledges mailbox lease_id) (v, w) = (
    acknowledge_lease-IsValid mailbox lease_id s.database v,
    Shrinks-IsWithin config s.database (acknowledge_lease mailbox lease_id s.database).0
        (acknowledge_lease-Shrinks mailbox lease_id s.database) w,
  )
  step-IsBounded s restarts b = reopen-IsBounded config s b

  run_from :
      (calls : List Call) (s : RelayState)
      → IsBounded config s
      → IsBounded config (run largest parse config s calls)
  unfolding run
  run_from [] s b = b
  run_from (call ∷ calls) s b =
      run_from calls (step largest parse config s call) (step-IsBounded s call b)

  -- Whatever is stored, fetched and acknowledged from a new relay on, across restarts: every
  -- mailbox holds at most its entries, its bytes and 8 announcements, all together at most the
  -- relay's bytes, the total that the triggers keep is right, the ids ascend and no announcement
  -- is leased. The byte limits are below the largest u64.
  pub run-empty-IsBounded :
      (calls : List Call) → IsBounded config (run largest parse config empty calls)
  unfolding empty sizes select
  run-empty-IsBounded calls = run_from calls empty (
    record { ids = omega arith; counted = refl; announced = tt },
    record {
      entries = λ m. omega arith;
      bytes = λ m. omega arith;
      pairing = λ m. omega arith;
      total = omega arith;
    },
  )
