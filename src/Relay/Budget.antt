-- ===== src/Relay/Budget.antt =====
-- The general limit of requests and the soft ban of native/conest_relay/src/main.rs:
-- `allow_request_banning` with the notes of violations and of compliance, and `allow_store`.
pub mod Ban
pub mod Windows
use conest.Base.{
  ℕ, ◌+◌, ◌-◌, Bool, true, false, not, ◌&&◌, ◌||◌, Option, none, some, List, [], ◌∷◌, leb, ltb,
  ◌==◌, if◌then◌else◌, length, is_some,
}
use conest.Base.Text.{Text, TextMap, get, put, retain_values}
use conest.Base.Words.{add_sat32, add_sat64}

pub record Config : Type 0 where
  pub max_requests_per_minute : ℕ
  pub max_rate_keys : ℕ
  pub max_stores_per_minute : ℕ
  pub max_store_bytes_per_minute : ℕ
  pub soft_ban_threshold : ℕ
  pub soft_ban_duration : ℕ

pub record RateBucket : Type 0 where
  pub window_started : ℕ
  pub count : ℕ

pub record StoreWindow : Type 0 where
  pub window_started : ℕ
  pub count : ℕ
  pub bytes : ℕ

pub record BanEntry : Type 0 where
  pub banned_until : ℕ
  pub consecutive_violations : ℕ

pub record Limits : Type 0 where
  pub rate_buckets : TextMap RateBucket
  pub store_windows : TextMap StoreWindow
  pub banned_peers : TextMap BanEntry
  pub rates_pruned_at : ℕ

-- The entries that `retain` keeps: running bans, and tallies of peers never banned.
abbrev pub keeps : ℕ → BanEntry → Bool
keeps now e =
    if ltb now e.banned_until
    then true
    else (if ltb 0 e.banned_until then false else ltb 0 e.consecutive_violations)

abbrev pub is_banned : ℕ → Option BanEntry → Bool
is_banned now none = false
is_banned now (some e) = ltb now e.banned_until

abbrev pub entry_of : Option BanEntry → BanEntry
entry_of none = record { banned_until = 0; consecutive_violations = 0 }
entry_of (some e) = e

pub note_rate_violation : Config → TextMap BanEntry → Text → ℕ → TextMap BanEntry
note_rate_violation config bans peer now =
    let e = entry_of (get peer bans) in
    let n = add_sat32 e.consecutive_violations 1 in
    put peer
      (record {
        banned_until =
            if leb config.soft_ban_threshold n
            then add_sat64 now config.soft_ban_duration
            else e.banned_until;
        consecutive_violations = n;
      })
      bans

pub note_rate_compliance : TextMap BanEntry → Text → TextMap BanEntry
note_rate_compliance bans peer = elim (get peer bans) [
  | none ↦ bans
  | some e ↦
      if e.banned_until == 0 then put peer (record e { consecutive_violations = 0 }) bans else bans
]

-- `prune_due`, where no other thread prunes meanwhile, and the pruning.
pub prune : ℕ → Limits → Limits
prune now s =
    if leb 1000 (now - s.rates_pruned_at)
    then record s {
      rates_pruned_at = now;
      rate_buckets = retain_values (λ b. ltb (now - b.window_started) 120000) s.rate_buckets;
    }
    else s

-- The bucket of a peer at `now`: a new one where there is none or a minute is over.
pub bucket_at : TextMap RateBucket → Text → ℕ → RateBucket
bucket_at buckets peer now = elim (get peer buckets) [
  | none ↦ record { window_started = now; count = 0 }
  | some b ↦
      if leb 60000 (now - b.window_started) then record { window_started = now; count = 0 } else b
]

-- The budget of a peer that is not banned.
pub spend : Config → ℕ → Text → Bool → Limits → Limits × Bool
spend config now peer ban s =
    let b = bucket_at s.rate_buckets peer now in
    if leb config.max_rate_keys (length s.rate_buckets) && not (is_some (get peer s.rate_buckets))
    then (s, false)
    else (if leb config.max_requests_per_minute b.count
        then (
          record s {
            rate_buckets = put peer b s.rate_buckets;
            banned_peers =
                if ban then note_rate_violation config s.banned_peers peer now else s.banned_peers;
          },
          false,
        )
        else (
          record s {
            rate_buckets = put peer (record b { count = b.count + 1 }) s.rate_buckets;
            banned_peers = note_rate_compliance s.banned_peers peer;
          },
          true,
        ))

pub allow_request_banning : Config → ℕ → Text → Bool → Limits → Limits × Bool
allow_request_banning config now peer ban s =
    let kept = record s { banned_peers = retain_values (keeps now) s.banned_peers } in
    if is_banned now (get peer kept.banned_peers)
    then (kept, false)
    else spend config now peer ban (prune now kept)

-- The pruning of `allow_store`, by the same clock.
pub prune_stores : ℕ → Limits → Limits
prune_stores now s =
    if leb 1000 (now - s.rates_pruned_at)
    then record s {
      rates_pruned_at = now;
      store_windows = retain_values (λ w. ltb (now - w.window_started) 120000) s.store_windows;
    }
    else s

pub store_window_at : TextMap StoreWindow → Text → ℕ → StoreWindow
store_window_at windows peer now = elim (get peer windows) [
  | none ↦ record { window_started = now; count = 0; bytes = 0 }
  | some w ↦
      if leb 60000 (now - w.window_started)
      then record { window_started = now; count = 0; bytes = 0 }
      else w
]

-- The budget of stores, where the windows are pruned.
pub spend_store : Config → ℕ → Text → ℕ → Limits → Limits × Bool
spend_store config now peer bytes s =
    let w = store_window_at s.store_windows peer now in
    if leb config.max_rate_keys (length s.store_windows) && not (is_some (get peer s.store_windows))
    then (s, false)
    else (if leb config.max_stores_per_minute w.count
          || ltb config.max_store_bytes_per_minute (add_sat64 w.bytes bytes)
        then (record s { store_windows = put peer w s.store_windows }, false)
        else (
          record s {
            store_windows =
                put peer (record w { count = w.count + 1; bytes = add_sat64 w.bytes bytes })
                  s.store_windows;
          },
          true,
        ))

pub allow_store : Config → ℕ → Text → ℕ → Limits → Limits × Bool
allow_store config now peer bytes s = spend_store config now peer bytes (prune_stores now s)

-- The two checks of a store in `handle_request_from`, at one reading of the clock.
pub allow_both : Config → ℕ → Text → ℕ → Limits → Limits × Bool
allow_both config now peer bytes s =
    let (s', allowed) = allow_request_banning config now peer true s in
    if allowed then allow_store config now peer bytes s' else (s', false)
