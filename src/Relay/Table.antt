-- ===== src/Relay/Table.antt =====
-- The table `queue_entries` of the relay's database, in native/conest_relay/src/main.rs, and the
-- SQL statements on it. The rows stand in the order of their ids, in which every statement that
-- orders them reads them; the triggers keep `stored_total`.
pub mod Valid
use conest.Base.{
  ℕ, ◌+◌, ◌-◌, ◌≤◌, ◌<◌, ◌≡◌, Bool, true, false, not, ◌&&◌, ◌||◌, Option, none, some, List, [], ◌∷◌,
  ◌++◌, ltb, leb, ◌==◌, if◌then◌else◌, length, is_some,
}
use conest.Base.Text.{Text, same_text, same_option}

-- `lease_id` and `lease_until_millis` are set and cleared together.
pub record Row : Type 0 where
  pub id : ℕ
  pub mailbox : Text
  pub queued_at : ℕ
  pub encoded : Text
  pub size : ℕ
  pub kind : Option Text
  pub sender : Option Text
  pub dedup_key : Option Text
  pub lease : Option (Text × ℕ)
  pub source : Option Text

pub record Database : Type 0 where
  pub rows : List Row
  pub next : ℕ
  pub total : ℕ

-- `SELECT … WHERE`
unfoldable pub select : (Row → Bool) → List Row → List Row
select p [] = []
select p (r ∷ rs) = let rest = select p rs in if p r then r ∷ rest else rest

-- What a `DELETE … WHERE` leaves.
unfoldable pub reject : (Row → Bool) → List Row → List Row
reject p [] = []
reject p (r ∷ rs) = let rest = reject p rs in if p r then rest else r ∷ rest

-- `COALESCE(SUM(envelope_bytes), 0)`
unfoldable pub sizes : List Row → ℕ
sizes [] = 0
sizes (r ∷ rs) = r.size + sizes rs

-- `DELETE FROM queue_entries WHERE`, with its trigger.
unfoldable pub delete : (Row → Bool) → Database → Database
delete p db = record db { rows = reject p db.rows; total = db.total - sizes (select p db.rows) }

-- `SELECT id … ORDER BY id LIMIT 1`
unfoldable pub first_id : (Row → Bool) → List Row → Option ℕ
first_id p [] = none
first_id p (r ∷ rs) = let rest = first_id p rs in if p r then some r.id else rest

unfoldable pub delete_id : Option ℕ → Database → Database
delete_id none db = db
delete_id (some id) db = delete (λ r. r.id == id) db

-- `UPDATE queue_entries SET lease_id = …, lease_until_millis = … WHERE`
unfoldable pub set_lease : (Row → Bool) → Option (Text × ℕ) → List Row → List Row
set_lease p lease [] = []
set_lease p lease (r ∷ rs) =
    let rest = set_lease p lease rs in if p r then record r { lease = lease } ∷ rest else r ∷ rest

-- `INSERT INTO queue_entries`: the next id of `AUTOINCREMENT`, no lease, and the trigger.
unfoldable pub insert : Row → Database → Database
insert row db = record {
  rows = db.rows ++ record row { id = db.next; lease = none } ∷ [];
  next = db.next + 1;
  total = db.total + row.size;
}

unfoldable pub pairing_announcement : Text
pairing_announcement =
    b'p' ∷ b'a' ∷ b'i' ∷ b'r' ∷ b'i' ∷ b'n' ∷ b'g' ∷ b'_' ∷ b'a' ∷ b'n' ∷ b'n' ∷ b'o' ∷ b'u' ∷ b'n'
    ∷ b'c' ∷ b'e' ∷ b'm' ∷ b'e' ∷ b'n' ∷ b't' ∷ []

-- `kind = 'pairing_announcement'`: never of NULL.
unfoldable pub is_pairing : Option Text → Bool
is_pairing none = false
is_pairing (some kind) = same_text kind pairing_announcement

-- `kind != 'pairing_announcement'`: of NULL neither.
unfoldable pub is_other : Option Text → Bool
is_other none = false
is_other (some kind) = not (same_text kind pairing_announcement)

-- `lease_id IS NULL`
unfoldable pub is_free : Row → Bool
is_free r = not (is_some r.lease)

unfoldable pub is_in : Text → Row → Bool
is_in mailbox r = same_text r.mailbox mailbox

-- `queued_at_millis < cutoff`
unfoldable pub is_stale : ℕ → Row → Bool
is_stale cutoff r = ltb r.queued_at cutoff
