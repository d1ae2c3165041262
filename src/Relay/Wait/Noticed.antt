-- ===== src/Relay/Wait/Noticed.antt =====
-- A store that comes while a fetch is under way is not slept through.
use conest.Base.{
  ℕ, ◌+◌, ◌≤◌, ◌<◌, ◌≡◌, sym, ap, subst, Bool, true, false, not, ◌||◌, Option, List, length, arith,
  if_ind, Option-cases, inl, inr,
}
use conest.Base.Text.{Text, get, get-put_self}
use conest.Base.Words.{u64_max}
use conest.Relay.Table.{Row}
use conest.Relay.Store.{Config, RelayState, validate_mailbox_id}
use conest.Relay.Wait.{
  observe_generation, sleeps, signal_of, notifier_for, Begun, refuses, answers, waits, is_nothing,
  look_again, first_look, begin_fetch, wait_of, limit_of,
}
use conest.Relay.Wait.Others.{Other, others, has_stored}
use conest.Relay.Wait.Signalled.{IsPast, others-IsPast}

observe_generation-IsPast :
    (s : RelayState) (mailbox : Text)
    → (observe_generation s mailbox).1 ≤ u64_max
    → IsPast mailbox (observe_generation s mailbox).1 0 (observe_generation s mailbox).0.notifiers
unfolding observe_generation notifier_for signal_of
observe_generation-IsPast s mailbox h =
    let n = signal_of (get mailbox s.notifiers) in
    let found = get-put_self mailbox n s.notifiers in
    let small : n.generation ≤ u64_max = rw found at h in
    (n, found, rw found (grind (arith, small)))

sleeps_not :
    (s : RelayState) (mailbox : Text) (g k : ℕ)
    → g ≤ u64_max
    → 0 < k
    → k ≤ u64_max
    → IsPast mailbox g k s.notifiers
    → sleeps g mailbox s.notifiers ≡ false
unfolding sleeps signal_of
sleeps_not s mailbox g k h lo hi (n, found, e) = rw found (grind (arith, e))

module _ {V : Type 0} where
  abbrev generation_of : Begun V → ℕ
  generation_of refuses = 0
  generation_of (answers vs lease) = 0
  generation_of (waits wait g) = g

  state_injective : {r s : RelayState × Begun V} → r ≡ s → (r.0 ≡ s.0) × (r.1 ≡ s.1)
  state_injective h = (ap (λ x. x.0) h, ap (λ x. x.1) h)

  -- A fetch that goes to wait has looked at the state `seen` and goes by the generation `observed`.
  abbrev Waits : RelayState → ℕ → RelayState × Begun V → Type 0
  Waits seen observed r =
      (s : RelayState) (wait g : ℕ)
      → r ≡ (s, waits wait g)
      → (g ≡ observed) × (s.notifiers ≡ seen.notifiers)

  not_answered :
      {s s' : RelayState} {vs : List V} {lease : Option Text} {wait g : ℕ}
      → ◌≡◌ {A = RelayState × Begun V} (s, answers vs lease) (s', waits wait g)
      → ⊥
  not_answered h = absurd (cc ((state_injective h).1))

  look_again-Waits :
      (shared : Bool) (mailbox : Text) (wait observed : ℕ) (r : RelayState × (List V × Option Text))
      (parse : Text → Option V)
      → Waits r.0 observed (look_again parse shared mailbox wait observed r)
  unfolding look_again
  look_again-Waits shared mailbox wait observed (s, (messages, lease)) parse =
      if_ind (Waits s observed) (is_nothing parse messages) _ _
        (λ _ s' w g h.
          let (state, begun) = state_injective h in
          (sym (ap generation_of begun), ap (λ x. x.notifiers) (sym state)))
        (λ _ s' w g h. absurd (not_answered h))

  module _ (parse : Text → Option V) (config : Config) (shared : Bool) (mailbox : Text)
      (limit wait_ms : Option ℕ) (lease_id : Text) (lease_ms : Option ℕ) (now : ℕ)
      (between : RelayState → RelayState) (s : RelayState) where
    begin_fetch-Waits :
        Waits
          (between (observe_generation s mailbox).0)
          (observe_generation s mailbox).1
          (begin_fetch parse config shared s mailbox limit wait_ms lease_id lease_ms now between)
    unfolding begin_fetch first_look
    begin_fetch-Waits =
        if_ind (Waits (between (observe_generation s mailbox).0) (observe_generation s mailbox).1)
          (not (validate_mailbox_id mailbox)) _ _
          (λ _ s' w g h. absurd (cc ((state_injective h).1)))
          (λ _. elim (Option-cases (wait_of wait_ms)) [
            | inl never ↦ rw never (λ s' w g h. absurd (not_answered h))
            | inr (wait, e) ↦ rw e (
                look_again-Waits shared mailbox wait (observe_generation s mailbox).1
                  (first_look parse config mailbox (limit_of config limit) lease_id lease_ms now
                    (between (observe_generation s mailbox).0))
                  parse)
          ])

module _ (largest : List Row → Option (Option Text)) {V : Type 0} (parse : Text → Option V)
    (config : Config) (mailbox : Text) where
  abbrev during : List Other → RelayState → RelayState
  during os s = others largest parse config mailbox os s

  -- A fetch that has found nothing and goes to wait does not sleep, or sleep on, once another
  -- thread has stored a row for its mailbox since the fetch read the generation: before its look for
  -- messages or after. The generation is a u64, and the other calls are fewer than 2 to the 64.
  pub sleeps-begin_fetch :
      (shared : Bool) (limit wait_ms : Option ℕ) (lease_id : Text) (lease_ms : Option ℕ) (now : ℕ)
      (before after : List Other) (s waiting : RelayState) (wait observed : ℕ)
      → (observe_generation s mailbox).1 ≤ u64_max
      → length before + length after ≤ u64_max
      → begin_fetch parse config shared s mailbox limit wait_ms lease_id lease_ms now
          (during before)
        ≡ (waiting, waits wait observed)
      → (has_stored largest parse config mailbox before (observe_generation s mailbox).0
          || has_stored largest parse config mailbox after waiting)
        ≡ true
      → sleeps observed mailbox (during after waiting).notifiers ≡ false
  sleeps-begin_fetch shared limit wait_ms lease_id lease_ms now before after s waiting wait observed
        small few h stored =
      let (same, state) =
        begin_fetch-Waits parse config shared mailbox limit wait_ms lease_id lease_ms now
          (during before) s waiting wait observed h in
      let g = (observe_generation s mailbox).1 in
      let (i, i_few, i_stored, past) =
        others-IsPast largest parse config mailbox before g 0 (observe_generation s mailbox).0
          (observe_generation-IsPast s mailbox small) in
      let (j, j_few, j_stored, later) =
        others-IsPast largest parse config mailbox after g (0 + i) waiting
          (subst (IsPast mailbox g (0 + i)) (sym state) past) in
      subst (λ x. sleeps x mailbox (during after waiting).notifiers ≡ false) (sym same)
        (sleeps_not (during after waiting) mailbox g (0 + i + j) small
          (ground (arith, stored, i_stored, j_stored)) (omega (arith, few, i_few, j_few)) later)
