-- ===== src/Relay/Wait/Signalled.antt =====
-- What each call of another thread does to the notifier of a mailbox that a fetch holds.
use conest.Base.{
  ℕ, ◌+◌, ◌-◌, ◌==◌, ◌%◌, ◌≤◌, ◌<◌, ◌≡◌, refl, sym, ◌∙◌, subst, Bool, true, false, not, ◌&&◌, ◌||◌,
  Option, some, List, [], ◌∷◌, ◌⊎◌, inl, inr, ltb, length, arith, if_ind, Bool-cases, Option-cases,
}
use conest.Base.Text.{
  Text, TextMap, get, remove, get-put, get-put_self, get-remove, same_text, same_text→≡,
}
use conest.Base.Words.{u64_max}
use conest.Relay.Table.{Row, Database, delete, is_stale}
use conest.Relay.Store.{
  Config, Envelope, MailboxSignal, RelayState, Result, goes_on, refused, hangs, Answer, signal,
  commit, count_bytes, store_in, store_from, source_of, enqueue, is_present, dedup_key_of,
  validate_mailbox_id,
}
use conest.Relay.Wait.{signal_of, notifier_for, prune_notifier}
use conest.Relay.Wait.Others.{
  Other, stores, takes, acknowledges, notifies, prunes, other, others, inserts, has_stored,
}

-- A call inserted no row and left the notifiers, or it signalled the mailbox.
abbrev Signals : Text → RelayState → RelayState × Answer → Type 0
Signals mailbox s r =
    ((r.0.notifiers ≡ s.notifiers) × (r.0.database.next ≡ s.database.next))
    ⊎ (r.0.notifiers ≡ signal mailbox s.notifiers)

commit-Signals :
    (mailbox : Text) (s : RelayState) (x : Result) → Signals mailbox s (commit s mailbox (x, true))
unfolding commit
commit-Signals mailbox s (goes_on db) = inr refl
commit-Signals mailbox s (refused r) = inl (refl, refl)
commit-Signals mailbox s hangs = inl (refl, refl)

store_from-Signals :
    (largest : List Row → Option (Option Text)) (config : Config) (s : RelayState) (t now : ℕ)
    (source mailbox : Text) (e : Envelope)
    → Signals mailbox s (store_from largest config s t now source mailbox e)
unfolding store_from store_in delete
store_from-Signals largest config s t now source mailbox e =
    if_ind (Signals mailbox s) (not (validate_mailbox_id mailbox)) _ _ (λ _. inl (refl, refl))
      (λ _.
        if_ind (Signals mailbox s) (ltb config.max_envelope_bytes (length e.encoded)) _ _
          (λ _. inl (refl, refl))
          (λ _.
            if_ind (Signals mailbox s) (count_bytes config s.mailbox_bytes mailbox e t).1 _ _
              (λ _.
                if_ind (λ x. Signals mailbox s (commit s' mailbox x))
                  (is_present largest mailbox (dedup_key_of e) cleaned) (goes_on cleaned, false)
                  (enqueue largest config now (source_of source) mailbox e cleaned, true)
                  (λ _. unfold commit in inl (refl, refl))
                  (λ _.
                    commit-Signals mailbox s'
                      (enqueue largest config now (source_of source) mailbox e cleaned)))
              (λ _. inl (refl, refl))))
  where
    s' : RelayState
    s' = record s { mailbox_bytes = (count_bytes config s.mailbox_bytes mailbox e t).0 }

    cleaned : Database
    cleaned = delete (is_stale (now - config.ttl)) s.database

-- The notifier of the mailbox is there, `k` signals past the generation `g`.
abbrev pub IsPast : Text → ℕ → ℕ → TextMap MailboxSignal → Type 0
IsPast mailbox g k m =
    (n : MailboxSignal) × (get mailbox m ≡ some n) × (n.generation ≡ (g + k) % (u64_max + 1))

signal_self :
    (mailbox : Text) (g k : ℕ) (m : TextMap MailboxSignal)
    → IsPast mailbox g k m
    → IsPast mailbox g (k + 1) (signal mailbox m)
unfolding signal
signal_self mailbox g k m (n, h, e) =
    let next : MailboxSignal = record n { generation = (n.generation + 1) % (u64_max + 1) } in
    (next, rw (h, signal) (get-put_self mailbox next m), rw e (grind arith))

signal_other :
    (mailbox name : Text) (g k : ℕ) (m : TextMap MailboxSignal)
    → same_text name mailbox ≡ false
    → IsPast mailbox g k m
    → IsPast mailbox g k (signal name m)
unfolding signal
signal_other mailbox name g k m d (n, h, e) = elim (Option-cases (get name m)) [
  | inl gone ↦ (n, rw (gone, signal) h, e)
  | inr (o, found) ↦ (n, rw (found, signal) (get-put mailbox name _ m ∙ rw d h), e)
]

notifier_for-IsPast :
    (mailbox name : Text) (g k : ℕ) (m : TextMap MailboxSignal)
    → IsPast mailbox g k m
    → IsPast mailbox g k (notifier_for name m)
unfolding notifier_for signal_of
notifier_for-IsPast mailbox name g k m (n, h, e) = elim (Bool-cases (same_text name mailbox)) [
  | inl same ↦
      let equal = same_text→≡ name mailbox same in
      (n, get-put mailbox name _ m ∙ rw (same, equal, h) refl, e)
  | inr other ↦ (n, get-put mailbox name _ m ∙ rw other h, e)
]

prune_notifier-IsPast :
    (mailbox name : Text) (shared : Bool) (g k : ℕ) (m : TextMap MailboxSignal)
    → IsPast mailbox g k m
    → IsPast mailbox g k (prune_notifier (shared || same_text name mailbox) name m)
unfolding prune_notifier
prune_notifier-IsPast mailbox name shared g k m (n, h, e) = elim (Option-cases (get name m)) [
  | inl gone ↦ (n, rw (gone, prune_notifier) h, e)
  | inr (o, found) ↦
      rw (found, prune_notifier)
        (if_ind (IsPast mailbox g k) (o.waiters == 0 && not (shared || same_text name mailbox))
          (remove name m) m
          (λ free.
            let apart : same_text name mailbox ≡ false = ground (arith, free) in
            (n, get-remove mailbox name m ∙ rw apart h, e))
          (λ _. (n, h, e)))
]

-- A call signals the mailbox at most once, and once when it inserts a row for it.
abbrev Noted : Text → ℕ → ℕ → Bool → TextMap MailboxSignal → Type 0
Noted mailbox g k inserted m =
    (j : ℕ) × (j ≤ 1) × (inserted ≡ true → j ≡ 1) × IsPast mailbox g (k + j) m

unnoted :
    (mailbox : Text) (g k : ℕ) (b : Bool) (m : TextMap MailboxSignal)
    → b ≡ false
    → IsPast mailbox g k m
    → Noted mailbox g k b m
unnoted mailbox g k b m f h =
    (0, omega arith, λ t. absurd (cc (t, f)), subst (λ x. IsPast mailbox g x m) (omega arith) h)

module _ (largest : List Row → Option (Option Text)) {V : Type 0} (parse : Text → Option V)
    (config : Config) (mailbox : Text) where
  other-Noted :
      (g k : ℕ) (s : RelayState) (o : Other)
      → IsPast mailbox g k s.notifiers
      → Noted mailbox g k
          (inserts largest parse config mailbox s o)
          (other largest parse config mailbox s o).notifiers
  unfolding other inserts
  other-Noted g k s (stores t now source name e) h =
      elim (store_from-Signals largest config s t now source name e) [
        | inl (same, next) ↦
            unnoted mailbox g k _ _ (ground (arith, next)) (subst (IsPast mailbox g k) (sym same) h)
        | inr signalled ↦ elim (Bool-cases (same_text name mailbox)) [
          | inl same ↦
              let self = same_text→≡ name mailbox same in
              (
                1,
                omega arith,
                λ _. refl,
                subst (IsPast mailbox g (k + 1)) (sym signalled) (
                    subst (λ x. IsPast mailbox g (k + 1) (signal x s.notifiers)) (sym self)
                      (signal_self mailbox g k s.notifiers h)),
              )
          | inr apart ↦ unnoted mailbox g k _ _ (rw apart refl) (
              subst (IsPast mailbox g k) (sym signalled)
                (signal_other mailbox name g k s.notifiers apart h))
        ]
      ]
  other-Noted g k s (takes name limit lease_id lease_ms now) h = unnoted mailbox g k false _ refl h
  other-Noted g k s (acknowledges name lease_id) h = unnoted mailbox g k false _ refl h
  other-Noted g k s (notifies name) h =
      unnoted mailbox g k false _ refl (notifier_for-IsPast mailbox name g k s.notifiers h)
  other-Noted g k s (prunes shared name) h =
      unnoted mailbox g k false _ refl (prune_notifier-IsPast mailbox name shared g k s.notifiers h)

  -- Some calls signal the mailbox at most as often as they are many, and at least once when one of
  -- them stores a row for it.
  pub others-IsPast :
      (os : List Other) (g k : ℕ) (s : RelayState)
      → IsPast mailbox g k s.notifiers
      → (j : ℕ) × (j ≤ length os)
        × (has_stored largest parse config mailbox os s ≡ true → 0 < j)
        × IsPast mailbox g (k + j) (others largest parse config mailbox os s).notifiers
  unfolding others has_stored
  others-IsPast [] g k s h = (
    0,
    omega arith,
    λ t. absurd (cc t),
    subst (λ x. IsPast mailbox g x s.notifiers) (omega arith) h,
  )
  others-IsPast (o ∷ os) g k s h =
      let (i, once, noted, past) = other-Noted g k s o h in
      let (j, few, stored, later) =
        others-IsPast os g (k + i) (other largest parse config mailbox s o) past in
      (
        i + j,
        omega (arith, once, few),
        λ t. ground (arith, t, noted, stored),
        subst
            (λ x.
              IsPast mailbox g x
                (others largest parse config mailbox os
                  (other largest parse config mailbox s o)).notifiers)
            (omega arith) later,
      )
