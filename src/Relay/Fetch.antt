-- ===== src/Relay/Fetch.antt =====
-- `take_queue` and `acknowledge_lease` of the relay, native/conest_relay/src/main.rs: what a
-- mailbox hands out, with a lease or for good. The wait of a long poll is not part of it.
pub mod Known
pub mod Leases
pub mod Shrinks
use conest.Base.{
  ℕ, zero, suc, ◌+◌, ◌-◌, ◌≤◌, ◌<◌, ◌≡◌, Bool, true, false, not, ◌&&◌, ◌||◌, Option, none, some,
  List, [], ◌∷◌, ltb, leb, ◌==◌, if◌then◌else◌, length, take,
}
use conest.Base.Text.{Text, same_text}
use conest.Base.Words.{add_sat64}
use conest.Relay.Table.{
  Row, Database, select, delete, delete_id, set_lease, is_pairing, is_free, is_in, is_stale,
}
use conest.Relay.Store.{Config, validate_mailbox_id}

abbrev pub Lease : Type 0
Lease = Option (Text × ℕ)

-- `lease_until_millis IS NOT NULL AND lease_until_millis <= ?1`
abbrev pub is_over : ℕ → Row → Bool
is_over now r = elim r.lease [ none ↦ false | some lease ↦ leb lease.1 now ]

-- The rows that have not timed out, with the leases that are over given back.
unfoldable pub settle : Config → ℕ → Database → Database
settle config now db =
    let cleaned = delete (is_stale (now - config.ttl)) db in
    record cleaned { rows = set_lease (is_over now) none cleaned.rows }

-- A row that may be handed out.
abbrev pub is_ready : Text → Row → Bool
is_ready mailbox r = is_in mailbox r && is_free r

unfoldable pub ready_rows : Text → ℕ → Database → List Row
ready_rows mailbox limit db = take limit (select (is_ready mailbox) db.rows)

-- What becomes of a row that is no announcement.
abbrev pub hand_out : Lease → ℕ → Database → Database
hand_out none id db = delete_id (some id) db
hand_out (some lease) id db = record db { rows = set_lease (λ r. r.id == id) (some lease) db.rows }

-- Whether some row is no announcement.
abbrev pub any_message : List Row → Bool
any_message [] = false
any_message (r ∷ rs) = not (is_pairing r.kind) || any_message rs

abbrev pub lease_of : Text → Option ℕ → ℕ → Lease
lease_of lease_id none now = none
lease_of lease_id (some lease_ms) now = some (lease_id, add_sat64 now lease_ms)

abbrev pub lease_name : Lease → Option Text
lease_name none = none
lease_name (some lease) = some lease.0

-- `parse` is the JSON library's.
module _ {V : Type 0} (parse : Text → Option V) where
  -- One row of the loop: a row that is no JSON is dropped, an announcement stays.
  unfoldable pub serve : Lease → Row → Database → Database
  serve lease r db = elim (parse r.encoded) [
    | none ↦ delete_id (some r.id) db
    | some v ↦ if is_pairing r.kind then db else hand_out lease r.id db
  ]

  unfoldable pub serve_all : Lease → List Row → Database → Database
  serve_all lease [] db = db
  serve_all lease (r ∷ rs) db = serve_all lease rs (serve lease r db)

  -- The messages that the loop pushes.
  unfoldable pub messages : List Row → List V
  messages [] = []
  messages (r ∷ rs) =
      let rest = messages rs in elim (parse r.encoded) [ none ↦ rest | some v ↦ v ∷ rest ]

  -- `lease_id` is the random name that is drawn where a lease is asked for.
  unfoldable pub take_queue :
      Config → Text → ℕ → Text → Option ℕ → ℕ → Database → Database × (List V × Option Text)
  take_queue config mailbox limit lease_id lease_ms now db =
      let lease = lease_of lease_id lease_ms now in
      let settled = settle config now db in
      let rows = ready_rows mailbox limit settled in
      (
        serve_all lease rows settled,
        (messages rows, if any_message rows then lease_name lease else none),
      )

-- `mailbox = ?1 AND lease_id = ?2`
abbrev pub is_leased_as : Text → Text → Row → Bool
is_leased_as mailbox lease_id r = elim r.lease [
  | none ↦ false
  | some lease ↦ is_in mailbox r && same_text lease.0 lease_id
]

-- The database, and whether the request was well formed.
pub acknowledge_lease : Text → Text → Database → Database × Bool
acknowledge_lease mailbox lease_id db =
    if not (validate_mailbox_id mailbox) || ltb (length lease_id) 16 || ltb 128 (length lease_id)
    then (db, false)
    else (delete (is_leased_as mailbox lease_id) db, true)
