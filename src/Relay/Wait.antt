-- ===== src/Relay/Wait.antt =====
-- The long poll of native/conest_relay/src/main.rs: what `fetch` and `fetch_leased` do before and
-- after their wait, and the notifiers that end it. Between the steps other calls may come. The count
-- of waiters, which goes up and down around the sleep, is only read here.
pub mod Others
pub mod Signalled
pub mod Noticed
use conest.Base.{
  ℕ, ◌+◌, Bool, true, false, not, ◌&&◌, Option, none, some, List, [], ◌∷◌, ltb, ◌==◌, if◌then◌else◌,
  min, max,
}
use conest.Base.Text.{Text, TextMap, get, put, remove}
use conest.Relay.Store.{Config, MailboxSignal, RelayState, validate_mailbox_id}
use conest.Relay.Fetch.{take_queue}

abbrev pub long_poll_max_wait : ℕ
long_poll_max_wait = 25000

-- `clamp(1, max_fetch_limit)`; a limit of 0 is refused when the relay starts.
unfoldable pub limit_of : Config → Option ℕ → ℕ
limit_of config none = max 1 config.max_fetch_limit
limit_of config (some n) = min (max 1 n) config.max_fetch_limit

unfoldable pub wait_of : Option ℕ → Option ℕ
wait_of none = none
wait_of (some value) = if ltb 0 value then some (min value long_poll_max_wait) else none

-- The lease of `fetch_leased`, from 5 seconds to 5 minutes.
pub lease_ms_of : Option ℕ → ℕ
lease_ms_of none = 30000
lease_ms_of (some n) = min (max 5000 n) 300000

unfoldable pub signal_of : Option MailboxSignal → MailboxSignal
signal_of none = record { generation = 0; waiters = 0 }
signal_of (some n) = n

-- `notifier_for`: one is made where there is none.
unfoldable pub notifier_for : Text → TextMap MailboxSignal → TextMap MailboxSignal
notifier_for mailbox m = put mailbox (signal_of (get mailbox m)) m

-- `shared` says that other fetches hold the notifier.
unfoldable pub prune_notifier : Bool → Text → TextMap MailboxSignal → TextMap MailboxSignal
prune_notifier shared mailbox m = elim (get mailbox m) [
  | none ↦ m
  | some n ↦ if n.waiters == 0 && not shared then remove mailbox m else m
]

-- Whether a fetch that saw a generation goes to sleep, and sleeps on.
unfoldable pub sleeps : ℕ → Text → TextMap MailboxSignal → Bool
sleeps observed mailbox m = (signal_of (get mailbox m)).generation == observed

-- The first half of a fetch: refused, answered, or with a generation to wait for a change of.
pub data Begun (V : Type 0) : Type 0 where
  refuses : Begun V
  answers : List V → Option Text → Begun V
  waits : ℕ → ℕ → Begun V

-- What a fetch that may wait does first: it has its mailbox's notifier, and reads the generation
-- before it looks for messages.
unfoldable pub observe_generation : RelayState → Text → RelayState × ℕ
observe_generation s mailbox =
    let notifiers = notifier_for mailbox s.notifiers in
    (record s { notifiers = notifiers }, (signal_of (get mailbox notifiers)).generation)

module _ {V : Type 0} (parse : Text → Option V) where
  abbrev pub is_nothing : List V → Bool
  is_nothing [] = true
  is_nothing (v ∷ vs) = false

  -- What follows the first look, where there is a wait.
  unfoldable pub look_again :
      Bool → Text → ℕ → ℕ → RelayState × (List V × Option Text) → RelayState × Begun V
  look_again shared mailbox wait observed (s, (messages, lease)) =
      if is_nothing messages then (s, waits wait observed) else (
        record s { notifiers = prune_notifier shared mailbox s.notifiers },
        answers messages lease,
      )

  unfoldable pub first_look :
      Config → Text → ℕ → Text → Option ℕ → ℕ → RelayState → RelayState × (List V × Option Text)
  first_look config mailbox limit lease_id lease_ms now s =
      let (d, found) = take_queue parse config mailbox limit lease_id lease_ms now s.database in
      (record s { database = d }, found)

  -- Between the reading of the generation and the look other calls may come: `between` is what
  -- they make of the state. `lease_ms` is none in `fetch`, and the clamped time in `fetch_leased`.
  unfoldable pub begin_fetch :
      Config
      → Bool
      → RelayState
      → Text
      → Option ℕ
      → Option ℕ
      → Text
      → Option ℕ
      → ℕ
      → (RelayState → RelayState)
      → RelayState × Begun V
  begin_fetch config shared s mailbox limit wait_ms lease_id lease_ms now between =
      let look = first_look config mailbox (limit_of config limit) lease_id lease_ms now in
      if not (validate_mailbox_id mailbox) then (s, refuses) else (elim (wait_of wait_ms) [
        | none ↦ let (s', found) = look (between s) in (s', answers found.0 found.1)
        | some wait ↦
            let (seen, observed) = observe_generation s mailbox in
            look_again shared mailbox wait observed (look (between seen))
      ])

  -- The second half, when the sleep is over.
  pub end_fetch :
      Config
      → Bool
      → RelayState
      → Text
      → Option ℕ
      → Text
      → Option ℕ
      → ℕ
      → RelayState × (List V × Option Text)
  end_fetch config shared s mailbox limit lease_id lease_ms now =
      let (s', found) = first_look config mailbox (limit_of config limit) lease_id lease_ms now s in
      (record s' { notifiers = prune_notifier shared mailbox s'.notifiers }, found)
