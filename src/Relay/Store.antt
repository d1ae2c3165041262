-- ===== src/Relay/Store.antt =====
-- `store_from` of the relay, native/conest_relay/src/main.rs: quotas, evictions and the insertion
-- of one envelope. A transaction that is not committed leaves the database as it was.
pub mod Evictions
pub mod Quotas
pub mod Removals
pub mod Room
use conest.Base.{
  ℕ, zero, suc, ◌+◌, ◌-◌, ◌%◌, ◌≤◌, ◌<◌, ◌≡◌, Bool, true, false, not, ◌&&◌, ◌||◌, Option, none,
  some, List, [], ◌∷◌, ◌++◌, ltb, leb, ◌==◌, if◌then◌else◌, length, is_some,
}
use conest.Base.Text.{Text, TextMap, get, put, same_text, same_option}
use conest.Base.Words.{add_sat64, u64_max}
use conest.Relay.Table.{
  Row, Database, select, sizes, delete, delete_id, first_id, insert, is_pairing, is_other, is_free,
  is_in, is_stale,
}
use conest.Relay.Peers.{peer_group}
use conest.Relay.Windows.{Windows, allow_mailbox_bytes}

-- The limits of `RelayConfig` that the queue reads; the times are milliseconds.
pub record Config : Type 0 where
  pub ttl : ℕ
  pub max_queue_per_mailbox : ℕ
  pub max_fetch_limit : ℕ
  pub max_envelope_bytes : ℕ
  pub max_total_bytes : ℕ
  pub max_stored_bytes_per_peer : ℕ
  pub max_bytes_per_mailbox_per_minute : ℕ
  pub max_mailbox_bytes : ℕ

-- What the JSON library makes of an envelope: its bytes, and the texts of three of its fields.
pub record Envelope : Type 0 where
  pub encoded : Text
  pub kind : Option Text
  pub sender : Option Text
  pub message_id : Option Text

pub record MailboxSignal : Type 0 where
  pub generation : ℕ
  pub waiters : ℕ

pub record RelayState : Type 0 where
  pub database : Database
  pub mailbox_bytes : Windows
  pub notifiers : TextMap MailboxSignal

-- The errors of `store_from`.
pub data Refusal : Type 0 where
  bad_mailbox too_large throughput mailbox_full holds_too_much relay_full : Refusal

-- A step on the database: it goes on, it refuses the envelope, or it loops forever.
pub data Result : Type 0 where
  goes_on : Database → Result
  refused : Refusal → Result
  hangs : Result

infixl 5 ◌>>=◌
abbrev pub ◌>>=◌ : Result → (Database → Result) → Result
goes_on db >>= f = f db
refused r >>= f = refused r
hangs >>= f = hangs

abbrev pub max_pairing_per_mailbox : ℕ
max_pairing_per_mailbox = 8

-- `byte.is_ascii_alphanumeric() || matches!(byte, b'-' | b'_' | b'.' | b':')`
abbrev pub mailbox_byte : ℕ → Bool
mailbox_byte b =
    leb b'0' b && leb b b'9'
    || leb b'A' b && leb b b'Z'
    || leb b'a' b && leb b b'z'
    || b == 45
    || b == 95
    || b == 46
    || b == 58

abbrev pub all_bytes : Text → Bool
all_bytes [] = true
all_bytes (b ∷ t) = mailbox_byte b && all_bytes t

unfoldable pub validate_mailbox_id : Text → Bool
validate_mailbox_id t = not (length t == 0 || ltb 160 (length t)) && all_bytes t

-- The message id, where it is neither empty nor over 256 bytes.
unfoldable pub dedup_key_of : Envelope → Option Text
dedup_key_of e = elim e.message_id [
  | none ↦ none
  | some key ↦ if not (length key == 0) && leb (length key) 256 then some key else none
]

-- A row of the mailbox that carries the message id.
abbrev pub is_message : Text → Text → Row → Bool
is_message mailbox key r = is_in mailbox r && same_option r.dedup_key (some key)

abbrev pub is_announcement : Text → Row → Bool
is_announcement mailbox r = is_in mailbox r && is_pairing r.kind

-- The loop that makes room for one more announcement; the number bounds its rounds.
pub evict_pairing : ℕ → Text → Database → Result
evict_pairing zero mailbox db = hangs
evict_pairing (suc fuel) mailbox db =
    let evicted = delete_id (first_id (λ r. is_announcement mailbox r && is_free r) db.rows) db in
    let rest = evict_pairing fuel mailbox evicted in
    if ltb (length (select (is_announcement mailbox) db.rows)) max_pairing_per_mailbox
    then goes_on db
    else rest

-- An announcement replaces those of the same sender.
abbrev pub replace_sender : Text → Option Text → Database → Database
replace_sender mailbox none db = db
replace_sender mailbox (some sender) db =
    delete (λ r. is_announcement mailbox r && same_option r.sender (some sender)) db

abbrev pub or_else : Option ℕ → Option ℕ → Option ℕ
or_else none b = b
or_else (some a) b = some a

-- The row that a mailbox gives up: its oldest free message, or else its oldest free row.
pub victim : Text → List Row → Option ℕ
victim mailbox rows =
    or_else (first_id (λ r. is_in mailbox r && is_free r && is_other r.kind) rows)
      (first_id (λ r. is_in mailbox r && is_free r) rows)

-- Whether the mailbox takes `n` more bytes.
abbrev pub mailbox_fits : Config → Text → ℕ → Database → Bool
mailbox_fits config mailbox n db =
    let rows = select (is_in mailbox) db.rows in
    ltb (length rows) config.max_queue_per_mailbox
    && leb (add_sat64 (sizes rows) n) config.max_mailbox_bytes

-- The loop of the mailbox's quota.
unfoldable pub fit_mailbox : ℕ → Config → Text → ℕ → Database → Result
fit_mailbox zero config mailbox n db = hangs
fit_mailbox (suc fuel) config mailbox n db =
    let id = victim mailbox db.rows in
    let rest = fit_mailbox fuel config mailbox n (delete_id id db) in
    if mailbox_fits config mailbox n db
    then goes_on db
    else (if is_some id then rest else refused mailbox_full)

-- The share of the address.
unfoldable pub check_share : Config → Option Text → ℕ → Database → Result
check_share config none n db = goes_on db
check_share config (some source) n db =
    let held = sizes (select (λ r. same_option r.source (some source)) db.rows) in
    if ltb config.max_stored_bytes_per_peer (add_sat64 held n)
    then refused holds_too_much
    else goes_on db

-- `WHERE source IS ?1 AND lease_id IS NULL`
abbrev pub free_of : Option Text → Row → Bool
free_of holder r = same_option r.source holder && is_free r

-- `largest` is the query for the source whose free rows are the largest; among several SQLite
-- picks one.
module _ (largest : List Row → Option (Option Text)) where
  -- The remembered holder, or the one that the query finds.
  holder_of : Option (Option Text) → List Row → Option (Option Text)
  holder_of none rows = largest rows
  holder_of (some holder) rows = some holder

  -- "look again (once)": the holder is forgotten.
  abbrev give_again : List Row → Option (Option Text) → Option (ℕ × Option (Option Text))
  give_again rows none = none
  give_again rows (some again) = elim (first_id (free_of again) rows) [
    | none ↦ none
    | some id ↦ some (id, none)
  ]

  -- What follows the search for the oldest free row of a holder.
  abbrev give_from : List Row → Option Text → Option ℕ → Option (ℕ × Option (Option Text))
  give_from rows holder (some id) = some (id, some holder)
  give_from rows holder none = give_again rows (largest rows)

  abbrev give_of : List Row → Option (Option Text) → Option (ℕ × Option (Option Text))
  give_of rows none = none
  give_of rows (some holder) = give_from rows holder (first_id (free_of holder) rows)

  -- One round of the loop that makes room on the whole relay, where it is too full: the row to
  -- delete and the holder to remember, or `none` where the relay stays full.
  pub give_up : Option (Option Text) → List Row → Option (ℕ × Option (Option Text))
  give_up remembered rows = give_of rows (holder_of remembered rows)

  abbrev pub relay_fits : Config → ℕ → Database → Bool
  relay_fits config n db = leb (add_sat64 db.total n) config.max_total_bytes

  unfoldable pub fit_relay : ℕ → Config → ℕ → Option (Option Text) → Database → Result
  fit_relay zero config n remembered db = hangs
  fit_relay (suc fuel) config n remembered db =
      if relay_fits config n db then goes_on db else (elim (give_up remembered db.rows) [
        | none ↦ refused relay_full
        | some found ↦ fit_relay fuel config n found.1 (delete_id (some found.0) db)
      ])

  abbrev pub new_row : ℕ → Option Text → Text → Envelope → Row
  new_row now source mailbox e = record {
    id = 0;
    mailbox = mailbox;
    queued_at = now;
    encoded = e.encoded;
    size = length e.encoded;
    kind = e.kind;
    sender = e.sender;
    dedup_key = dedup_key_of e;
    lease = none;
    source = source;
  }

  -- Announcements only: the same sender's go, and the others are bounded.
  unfoldable pub announce : Text → Envelope → Database → Result
  announce mailbox e db =
      let replaced = replace_sender mailbox e.sender db in
      if is_pairing e.kind
      then evict_pairing (length replaced.rows + 1) mailbox replaced
      else goes_on db

  -- From the quotas on: each loop has as many rounds as there are rows, and one more.
  unfoldable pub enqueue : Config → ℕ → Option Text → Text → Envelope → Database → Result
  enqueue config now source mailbox e db =
      let n = length e.encoded in
      announce mailbox e db >>= λ d.
      fit_mailbox (length d.rows + 1) config mailbox n d >>= check_share config source n >>= λ d'.
      fit_relay (length d'.rows + 1) config n none d' >>= λ d''.
      goes_on (insert (new_row now source mailbox e) d'')

  -- The dedup key is there already.
  abbrev pub is_present : Text → Option Text → Database → Bool
  is_present mailbox none db = false
  is_present mailbox (some key) db = is_some (first_id (is_message mailbox key) db.rows)

  -- The transaction: what it commits, and whether a row was inserted.
  unfoldable pub store_in : Config → ℕ → Option Text → Text → Envelope → Database → Result × Bool
  store_in config now source mailbox e db =
      let cleaned = delete (is_stale (now - config.ttl)) db in
      if is_present mailbox (dedup_key_of e) cleaned
      then (goes_on cleaned, false)
      else (enqueue config now source mailbox e cleaned, true)

-- The answer of `store_from`.
pub data Answer : Type 0 where
  accepted : Answer
  declined : Refusal → Answer
  loops : Answer

-- `wrapping_add(1)` on the generation of a notifier that is there.
unfoldable pub signal : Text → TextMap MailboxSignal → TextMap MailboxSignal
signal mailbox m = elim (get mailbox m) [
  | none ↦ m
  | some n ↦ put mailbox (record n { generation = (n.generation + 1) % (u64_max + 1) }) m
]

unfoldable pub commit : RelayState → Text → Result × Bool → RelayState × Answer
commit s mailbox (goes_on db, true) =
    (record s { database = db; notifiers = signal mailbox s.notifiers }, accepted)
commit s mailbox (goes_on db, false) = (record s { database = db }, accepted)
commit s mailbox (refused r, new) = (s, declined r)
commit s mailbox (hangs, new) = (s, loops)

-- Announcements do not count.
unfoldable pub count_bytes : Config → Windows → Text → Envelope → ℕ → Windows × Bool
count_bytes config windows mailbox e now =
    if is_pairing e.kind
    then (windows, true)
    else allow_mailbox_bytes config.max_bytes_per_mailbox_per_minute windows mailbox
        (length e.encoded) now

unfoldable pub source_of : Text → Option Text
source_of [] = none
source_of (b ∷ t) = some (peer_group (b ∷ t))

-- `t` and `now` are the times that the two readings of the clock give.
module _ (largest : List Row → Option (Option Text)) where
  unfoldable pub store_from :
      Config → RelayState → ℕ → ℕ → Text → Text → Envelope → RelayState × Answer
  store_from config s t now source mailbox e =
      if not (validate_mailbox_id mailbox)
      then (s, declined bad_mailbox)
      else (if ltb config.max_envelope_bytes (length e.encoded)
          then (s, declined too_large)
          else (let (windows, allowed) = count_bytes config s.mailbox_bytes mailbox e t in
              let s' = record s { mailbox_bytes = windows } in
              if allowed
              then commit s' mailbox
                  (store_in largest config now (source_of source) mailbox e s.database)
              else (s', declined throughput)))
