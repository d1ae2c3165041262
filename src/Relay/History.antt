-- ===== src/Relay/History.antt =====
-- Every history of the relay's queue: stores, fetches, acknowledgements and restarts.
pub mod Bounds
use conest.Base.{ℕ, ◌≡◌, Bool, true, false, Option, none, some, List, [], ◌∷◌}
use conest.Base.Text.{Text}
use conest.Relay.Table.{Row, Database, set_lease}
use conest.Relay.Table.Valid.{is_leased}
use conest.Relay.Store.{Config, Envelope, RelayState, store_from}
use conest.Relay.Fetch.{take_queue, acknowledge_lease}

unfoldable pub empty : RelayState
empty = record {
  database = record { rows = []; next = 1; total = 0 };
  mailbox_bytes = [];
  notifiers = [];
}

-- `try_new` on the database of before: what was leased is free again.
pub reopen : RelayState → RelayState
reopen s = record {
  database = record s.database { rows = set_lease is_leased none s.database.rows };
  mailbox_bytes = [];
  notifiers = [];
}

pub data Call : Type 0 where
  stores : ℕ → ℕ → Text → Text → Envelope → Call
  fetches : Text → ℕ → Text → Option ℕ → ℕ → Call
  acknowledges : Text → Text → Call
  restarts : Call

module _ (largest : List Row → Option (Option Text)) {V : Type 0} (parse : Text → Option V)
    (config : Config) where
  pub step : RelayState → Call → RelayState
  step s (stores t now source mailbox e) = (store_from largest config s t now source mailbox e).0
  step s (fetches mailbox limit lease_id lease_ms now) = record s {
    database = (take_queue parse config mailbox limit lease_id lease_ms now s.database).0;
  }
  step s (acknowledges mailbox lease_id) = record s {
    database = (acknowledge_lease mailbox lease_id s.database).0;
  }
  step s restarts = reopen s

  pub run : RelayState → List Call → RelayState
  run s [] = s
  run s (call ∷ calls) = run (step s call) calls
