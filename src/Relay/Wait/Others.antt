-- ===== src/Relay/Wait/Others.antt =====
-- What other threads of the relay do while a fetch for a mailbox is under way: the notifier of that
-- mailbox is shared, since the fetch holds it.
use conest.Base.{ℕ, Bool, false, ◌&&◌, ◌||◌, Option, List, [], ◌∷◌, ltb}
use conest.Base.Text.{Text, same_text}
use conest.Relay.Table.{Row}
use conest.Relay.Store.{Config, Envelope, RelayState, store_from}
use conest.Relay.Fetch.{take_queue, acknowledge_lease}
use conest.Relay.Wait.{notifier_for, prune_notifier}

pub data Other : Type 0 where
  stores : ℕ → ℕ → Text → Text → Envelope → Other
  takes : Text → ℕ → Text → Option ℕ → ℕ → Other
  acknowledges : Text → Text → Other
  notifies : Text → Other
  prunes : Bool → Text → Other

module _ (largest : List Row → Option (Option Text)) {V : Type 0} (parse : Text → Option V)
    (config : Config) (held : Text) where
  unfoldable pub other : RelayState → Other → RelayState
  other s (stores t now source mailbox e) = (store_from largest config s t now source mailbox e).0
  other s (takes mailbox limit lease_id lease_ms now) = record s {
    database = (take_queue parse config mailbox limit lease_id lease_ms now s.database).0;
  }
  other s (acknowledges mailbox lease_id) = record s {
    database = (acknowledge_lease mailbox lease_id s.database).0;
  }
  other s (notifies mailbox) = record s { notifiers = notifier_for mailbox s.notifiers }
  other s (prunes shared mailbox) = record s {
    notifiers = prune_notifier (shared || same_text mailbox held) mailbox s.notifiers;
  }

  unfoldable pub others : List Other → RelayState → RelayState
  others [] s = s
  others (o ∷ os) s = others os (other s o)

  -- A store for the mailbox that takes the next id, and so inserts a row.
  unfoldable pub inserts : RelayState → Other → Bool
  inserts s (stores t now source mailbox e) =
      same_text mailbox held
      && ltb s.database.next (other s (stores t now source mailbox e)).database.next
  inserts s o = false

  -- One of the stores inserts a row for the mailbox.
  unfoldable pub has_stored : List Other → RelayState → Bool
  has_stored [] s = false
  has_stored (o ∷ os) s = inserts s o || has_stored os (other s o)
