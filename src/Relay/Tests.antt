-- ===== src/Relay/Tests.antt =====
-- Runs of the relay's queue at concrete inputs.
use conest.Base.{true, false, ℕ, ◌≡◌, refl, Option, none, some, List, [], ◌∷◌, arith}
use conest.Base.Text.{Text, retain_values, get, put, remove, same_text, same_option}
use conest.Relay.Table.{
  Row, Database, pairing_announcement, select, set_lease, reject, is_pairing, sizes, delete, insert,
  first_id, is_free,
}
use conest.Relay.Table.Valid.{IsValid}
use conest.Relay.Store.{
  Config, Envelope, RelayState, validate_mailbox_id, dedup_key_of, fit_mailbox, check_share,
  fit_relay, announce, enqueue, store_in, store_from, commit, count_bytes, source_of,
}
use conest.Relay.Windows.{allow_mailbox_bytes, window_at}
use conest.Relay.Store.Quotas.{Answers, store_from-Answers}
use conest.Relay.Fetch.{
  settle, ready_rows, serve, serve_all, messages, take_queue, acknowledge_lease,
}
use conest.Relay.Fetch.Leases.{take_queue-acknowledge_lease}
use conest.Relay.Wait.{
  limit_of, signal_of, notifier_for, prune_notifier, observe_generation, begin_fetch, first_look,
  look_again, sleeps, wait_of, Begun, waits,
}
use conest.Relay.Wait.Others.{Other, other, others, inserts, has_stored, prunes}
use conest.Relay.Wait.Others
use conest.Relay.Wait.Noticed.{sleeps-begin_fetch}
use conest.Relay.History.{Call, empty, run, stores, fetches, acknowledges, restarts}
use conest.Relay.History.Bounds.{IsBounded, run-empty-IsBounded}

abbrev config : Config
config = record {
  ttl = 86400000;
  max_queue_per_mailbox = 2;
  max_fetch_limit = 10;
  max_envelope_bytes = 100;
  max_total_bytes = 1000;
  max_stored_bytes_per_peer = 500;
  max_bytes_per_mailbox_per_minute = 400;
  max_mailbox_bytes = 50;
}

-- The source of the first free row.
abbrev first_holder : List Row → Option (Option Text)
first_holder [] = none
first_holder (r ∷ rs) = elim r.lease [ none ↦ some r.source | some lease ↦ first_holder rs ]

abbrev parse : Text → Option Text
parse [] = none
parse (b ∷ t) = some (b ∷ t)

abbrev mailbox : Text
mailbox = b'b' ∷ b'o' ∷ b'b' ∷ []

abbrev letter : ℕ → Envelope
letter n = record {
  encoded = 123 ∷ n ∷ 125 ∷ [];
  kind = some (b'm' ∷ []);
  sender = none;
  message_id = some (n ∷ []);
}

abbrev announcement : Envelope
announcement = record {
  encoded = 123 ∷ 125 ∷ [];
  kind = some pairing_announcement;
  sender = some (b'a' ∷ []);
  message_id = none;
}

abbrev name : Text
name = 1 ∷ 2 ∷ 3 ∷ 4 ∷ 5 ∷ 6 ∷ 7 ∷ 8 ∷ 9 ∷ 10 ∷ 11 ∷ 12 ∷ 13 ∷ 14 ∷ 15 ∷ 16 ∷ []

abbrev calls : List Call
calls =
    stores 10 10 (b'1' ∷ []) mailbox (letter 7)
    ∷ stores 20 20 (b'1' ∷ []) mailbox announcement
    ∷ stores 30 30 (50 ∷ []) mailbox (letter 8)
    ∷ fetches mailbox 5 name (some 30000) 40
    ∷ stores 50 50 [] mailbox (letter 9)
    ∷ restarts
    ∷ acknowledges mailbox name
    ∷ fetches mailbox 5 name none 60
    ∷ []

run-empty-IsBounded_example : IsBounded config (run first_holder parse config empty calls)
run-empty-IsBounded_example =
    run-empty-IsBounded first_holder parse config (omega arith) (omega arith) calls

-- The relay with one letter for a mailbox.
abbrev filled : RelayState
filled = run first_holder parse config empty (stores 10 10 (b'1' ∷ []) mailbox (letter 7) ∷ [])

filled-IsBounded : IsBounded config filled
filled-IsBounded =
    run-empty-IsBounded first_holder parse config (omega arith) (omega arith)
      (stores 10 10 (b'1' ∷ []) mailbox (letter 7) ∷ [])

store_from-Answers_example :
    Answers first_holder config 20
      (source_of (b'1' ∷ []))
      mailbox
      (letter 8)
      filled.database
      (store_from first_holder config filled 20 20 (b'1' ∷ []) mailbox (letter 8))
store_from-Answers_example =
    store_from-Answers first_holder config filled 20 20 (b'1' ∷ []) mailbox (letter 8)
      filled-IsBounded.0 (omega arith) (omega arith)

-- A table of two letters and an announcement.
abbrev row : ℕ → Envelope → Row
row n e = record {
  id = n;
  mailbox = mailbox;
  queued_at = 10;
  encoded = e.encoded;
  size = 3;
  kind = e.kind;
  sender = e.sender;
  dedup_key = e.message_id;
  lease = none;
  source = none;
}

abbrev three : Database
three = record {
  rows = row 1 (letter 7) ∷ row 2 announcement ∷ row 3 (letter 8) ∷ [];
  next = 4;
  total = 9;
}

three-IsValid : IsValid three
unfolding sizes is_free
three-IsValid = record {
  ids = (omega arith, (omega arith, (omega arith, omega arith)));
  counted = refl;
  announced = ((λ _. refl), ((λ _. refl), ((λ _. refl), tt)));
}

take_queue-acknowledge_lease_example :
    ((acknowledge_lease mailbox name
        (take_queue parse config mailbox 5 name (some 30000) 40 three).0).0.rows
      ≡ (take_queue parse config mailbox 5 name none 40 three).0.rows)
    × ((take_queue parse config mailbox 5 name (some 30000) 40 three).1.0
        ≡ (take_queue parse config mailbox 5 name none 40 three).1.0)
unfolding validate_mailbox_id
take_queue-acknowledge_lease_example =
    take_queue-acknowledge_lease parse config mailbox 5 name 30000 40 three three-IsValid
      (refl, (refl, (refl, tt))) refl (omega arith) (omega arith)

-- A fetch goes to wait, with another's pruning before its look; then a letter comes.
abbrev before : List Other
before = prunes false mailbox ∷ []

abbrev after : List Other
after = Others.stores 10 10 [] mailbox (letter 7) ∷ []

abbrev begun : RelayState × Begun Text
begun =
    begin_fetch parse config false empty mailbox none (some 1000) name none 5
      (others first_holder parse config mailbox before)

abbrev waiting : RelayState
waiting = record {
  database = record { rows = []; next = 1; total = 0 };
  mailbox_bytes = [];
  notifiers = (mailbox, record { generation = 0; waiters = 0 }) ∷ [];
}

begun_waits : begun ≡ (waiting, waits 1000 0)
unfolding others other validate_mailbox_id get put remove same_text settle ready_rows serve
    serve_all messages take_queue limit_of wait_of signal_of notifier_for prune_notifier sleeps
    observe_generation look_again first_look begin_fetch empty delete select set_lease reject sizes
begun_waits = refl

letter_stored : has_stored first_holder parse config mailbox after waiting ≡ true
unfolding has_stored inserts other validate_mailbox_id get put retain_values same_text same_option
    first_id delete insert select sizes reject is_pairing pairing_announcement dedup_key_of
    fit_mailbox check_share fit_relay announce enqueue store_in store_from commit count_bytes
    source_of allow_mailbox_bytes window_at
letter_stored = refl

sleeps-begin_fetch_example :
    sleeps 0 mailbox (others first_holder parse config mailbox after waiting).notifiers ≡ false
unfolding observe_generation notifier_for signal_of empty get put same_text has_stored inserts
sleeps-begin_fetch_example =
    sleeps-begin_fetch first_holder parse config mailbox false none (some 1000) name none 5 before
      after empty waiting 1000 0 (omega arith) (omega arith) begun_waits letter_stored
