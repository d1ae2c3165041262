-- ===== src/Relay/LimitTests.antt =====
-- Runs of the limits per address and of a notifier at concrete inputs.
use conest.Base.{◌≡◌, refl, true, false, List, [], ◌∷◌, arith}
use conest.Base.Text.{Text, same_text, get}
use conest.Relay.Budget.{Config, Limits, BanEntry, allow_request_banning, allow_both}
use conest.Relay.Budget.Ban.{Request, after, after-refuses}
use conest.Relay.Budget.Windows.{Store, IsFull, after_stores, after_stores-refuses}
use conest.Relay.Peers.Slots.{Use, IsCounted, takes, drops, run, run-IsCounted, count}

abbrev config : Config
config = record {
  max_requests_per_minute = 2;
  max_rate_keys = 1;
  max_stores_per_minute = 5;
  max_store_bytes_per_minute = 100;
  soft_ban_threshold = 3;
  soft_ban_duration = 300000;
}

abbrev ann : Text
ann = b'a' ∷ []

abbrev bob : Text
bob = b'b' ∷ []

abbrev ban : BanEntry
ban = record { banned_until = 400000; consecutive_violations = 3 }

-- Ann is banned, and Bob's window of stores is the only one there may be.
abbrev limits : Limits
limits = record {
  rate_buckets = [];
  store_windows = (bob, record { window_started = 100; count = 1; bytes = 10 }) ∷ [];
  banned_peers = (ann, ban) ∷ [];
  rates_pruned_at = 100;
}

abbrev requests : List Request
requests = (200000, ann, true) ∷ (200100, bob, true) ∷ (399999, ann, true) ∷ []

after-refuses_example :
    (allow_request_banning config 399999 ann true (after config limits requests)).1 ≡ false
unfolding get same_text
after-refuses_example =
    after-refuses config requests ann limits ban 399999 true refl
      (omega arith, (omega arith, (omega arith, tt))) (omega arith)

abbrev stores : List Store
stores = (200000, bob, 10) ∷ (900000, bob, 10) ∷ (900001, ann, 10) ∷ []

limits-IsFull : IsFull config ann limits
unfolding get same_text
limits-IsFull = record { full = omega arith; absent = refl }

after_stores-refuses_example :
    (allow_both config 100000000 ann 10 (after_stores config limits stores)).1 ≡ false
after_stores-refuses_example =
    after_stores-refuses config stores ann limits 100000000 10 limits-IsFull

abbrev uses : List Use
uses = takes ann ∷ takes ann ∷ takes bob ∷ drops ann ∷ takes ann ∷ []

run-IsCounted_example : IsCounted 2 (run 2 ([], []) uses)
unfolding count get
run-IsCounted_example = run-IsCounted 2 uses ([], []) (λ peer. (refl, omega arith))
