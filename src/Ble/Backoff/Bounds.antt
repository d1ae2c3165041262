-- ===== src/Ble/Backoff/Bounds.antt =====
-- The table of failed peers stays within its size, and its delays between 30 seconds and 5 minutes.
use conest.Base.{
  ℕ, ◌+◌, ◌≤◌, ◌<◌, ◌≡◌, refl, Bool, true, not, ◌&&◌, [], ◌∷◌, arith, ltb, leb, if◌then◌else◌,
  length, Bool-cases, Option-cases, if_ind, leb→le, ltb→lt, leb-false, inl, inr, ◌⊎◌,
}
use conest.Base.Words.{add_sat64}
use conest.Base.OrdMap.{
  Above, Values, lookup, contains_key, insert, insert-Above, remove-Above, length-remove_self,
  length-insert, length-insert_self, insert-Values, remove-Values, lookup-Values,
}
use conest.Ble.Backoff.{Table, soonest_from, evict, back_off, next_delay, max_backoff}

pub record IsValid (m : Table) : Type 0 where
  pub sorted : Above 0 m
  pub few : length m ≤ max_backoff
  pub delays : Values (λ b. (30000 ≤ b.1) × (b.1 ≤ 300000)) m

soonest_from_key :
    (p t : ℕ) (m : Table) → (soonest_from p t m ≡ p) ⊎ (contains_key (soonest_from p t m) m ≡ true)
unfolding soonest_from contains_key lookup
soonest_from_key p t [] = inl refl
soonest_from_key p t ((q, b) ∷ m) =
    ground (arith, soonest_from_key (if ltb b.0 t then q else p) (if ltb b.0 t then b.0 else t) m)

length-evict : (m : Table) → 0 < length m → length (evict m) + 1 ≡ length m
unfolding evict
length-evict [] h = elim h [ ]
length-evict ((p, b) ∷ m) h =
    length-remove_self (soonest_from p b.0 m) ((p, b) ∷ m)
      (unfold contains_key lookup in ground (arith, soonest_from_key p b.0 m))

evict-Above : (m : Table) → Above 0 m → Above 0 (evict m)
unfolding evict
evict-Above [] a = tt
evict-Above ((p, b) ∷ m) a = remove-Above 0 (soonest_from p b.0 m) ((p, b) ∷ m) a

abbrev IsDelay : ℕ × ℕ → Type 0
IsDelay b = (30000 ≤ b.1) × (b.1 ≤ 300000)

evict-Values : (m : Table) → Values IsDelay m → Values IsDelay (evict m)
unfolding evict
evict-Values [] a = tt
evict-Values ((p, b) ∷ m) a = remove-Values IsDelay (soonest_from p b.0 m) ((p, b) ∷ m) a

next_delay-IsDelay :
    (peer : ℕ) (m : Table)
    → Values IsDelay m
    → (30000 ≤ next_delay (lookup peer m)) × (next_delay (lookup peer m) ≤ 300000)
next_delay-IsDelay peer m a = elim (Option-cases (lookup peer m)) [
  | inl e ↦ rw e (omega arith)
  | inr (b, e) ↦ rw e (omega (arith, lookup-Values IsDelay peer b m a e))
]

module _ (m : Table) (peer now : ℕ) (v : IsValid m) where
  entry : ℕ × ℕ
  entry = (add_sat64 now (next_delay (lookup peer m)), next_delay (lookup peer m))

  is_full : Bool
  is_full = leb max_backoff (length m) && not (contains_key peer m)

  room : length (insert peer entry (if is_full then evict m else m)) ≤ max_backoff
  unfolding is_full
  room = elim (Bool-cases (leb max_backoff (length m))) [
    | inr e ↦ rw e (omega (arith, length-insert peer entry m, ltb→lt _ _ (leb-false _ _ e)))
    | inl e ↦ elim (Bool-cases (contains_key peer m)) [
      | inl k ↦ rw (e, k) (omega (arith, length-insert_self 0 peer entry m v.sorted k, v.few))
      | inr k ↦
          rw (e, k)
            (omega (
              arith,
              length-evict m (omega (arith, leb→le _ _ e)),
              length-insert peer entry (evict m),
              v.few,
            ))
    ]
  ]

  -- Noting a failed peer keeps the table in order, within 128 peers, and its delays in their range.
  pub back_off-IsValid : 0 < peer → IsValid (back_off m peer now)
  unfolding back_off is_full entry
  back_off-IsValid h = record {
    sorted =
        insert-Above 0 peer entry (if is_full then evict m else m)
          (if_ind (Above 0) is_full (evict m) m (λ _. evict-Above m v.sorted) (λ _. v.sorted)) h;
    few = room;
    delays =
        insert-Values IsDelay peer entry (if is_full then evict m else m)
          (next_delay-IsDelay peer m v.delays)
          (if_ind (Values IsDelay) is_full (evict m) m (λ _. evict-Values m v.delays)
            (λ _. v.delays));
  }
