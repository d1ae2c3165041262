-- ===== src/Ble/Backoff.antt =====
-- The table of peers that failed, in `Core::remove` of native/conest_native/src/ble/core.rs: for
-- each peer the time until which it is left alone, and the delay that was chosen.
pub mod Bounds
use conest.Base.{
  ℕ, ◌+◌, ◌-◌, ◌*◌, ◌≤◌, ◌<◌, ◌≡◌, refl, Bool, true, false, not, ◌&&◌, Option, none, some, List, [],
  ◌∷◌, arith, ltb, leb, ◌==◌, if◌then◌else◌, length, min, Bool-cases,
}
use conest.Base.Words.{add_sat64}
use conest.Base.OrdMap
use conest.Base.OrdMap.{Above, Values, lookup, contains_key, insert, remove}

abbrev pub max_backoff : ℕ
max_backoff = 128

abbrev pub Table : Type 0
Table = List (ℕ × (ℕ × ℕ))

-- `min_by_key(|(_, b)| b.0)`: the first of the entries that end soonest.
soonest_from : ℕ → ℕ → Table → ℕ
soonest_from peer until [] = peer
soonest_from peer until ((q, b) ∷ m) =
    soonest_from (if ltb b.0 until then q else peer) (if ltb b.0 until then b.0 else until) m

-- A full table gives up the entry that ends soonest.
evict : Table → Table
evict [] = []
evict ((p, b) ∷ m) = remove (soonest_from p b.0 m) ((p, b) ∷ m)

abbrev pub next_delay : Option (ℕ × ℕ) → ℕ
next_delay none = 30000
next_delay (some b) = min (b.1 * 2) 300000

unfoldable pub back_off : Table → ℕ → ℕ → Table
unfolding evict soonest_from
back_off m peer now =
    let delay = next_delay (lookup peer m) in
    let m' = if leb max_backoff (length m) && not (contains_key peer m) then evict m else m in
    insert peer (add_sat64 now delay, delay) m'

-- `self.backoff.get(&peer).is_some_and(|b| now < b.0)`
unfoldable pub is_waiting : Table → ℕ → ℕ → Bool
is_waiting m peer now = elim (lookup peer m) [ none ↦ false | some b ↦ ltb now b.0 ]
