-- ===== src/Relay/Budget/Windows.antt =====
-- The windows of stores are not pruned by stores: the check of the request, right before, has
-- taken the second's pruning for the other map.
use conest.Base.{
  ℕ, ◌-◌, ◌≤◌, ◌<◌, ◌≡◌, refl, ap, ◌∙◌, Bool, true, false, not, ◌&&◌, ◌||◌, none, List, [], ◌∷◌,
  arith, ltb, leb, length, is_some, Bool-cases, inl, inr, if_ind,
}
use conest.Base.Text.{Text, same_text, same_text→≡, get, put, get-put, length-put, retain_values}
use conest.Base.Words.{add_sat64}
use conest.Relay.Budget.{
  Config, Limits, StoreWindow, keeps, is_banned, prune, spend, allow_request_banning, prune_stores,
  store_window_at, spend_store, allow_store, allow_both,
}

-- The windows are as many as they may be, and the peer has none.
pub record IsFull (config : Config) (peer : Text) (s : Limits) : Type 0 where
  pub full : config.max_rate_keys ≤ length s.store_windows
  pub absent : get peer s.store_windows ≡ none

-- The check of a request leaves the windows of stores, and an allowed one the pruning not due.
abbrev Checked : ℕ → Limits → Limits × Bool → Type 0
Checked now s (d, allowed) =
    (d.store_windows ≡ s.store_windows) × (allowed ≡ true → now - d.rates_pruned_at < 1000)

prune-Checked :
    (now : ℕ) (s : Limits)
    → ((prune now s).store_windows ≡ s.store_windows) × (now - (prune now s).rates_pruned_at < 1000)
unfolding prune
prune-Checked now s =
    if_ind (λ (d : Limits). (d.store_windows ≡ s.store_windows) × (now - d.rates_pruned_at < 1000))
      (leb 1000 (now - s.rates_pruned_at)) _ _ (λ e. (refl, omega arith))
      (λ e. (refl, ground arith))

spend-Checked :
    (config : Config) (now : ℕ) (peer : Text) (ban : Bool) (s : Limits)
    → now - s.rates_pruned_at < 1000
    → Checked now s (spend config now peer ban s)
unfolding spend
spend-Checked config now peer ban s h = ground arith

allow_request_banning-Checked :
    (config : Config) (now : ℕ) (peer : Text) (ban : Bool) (s : Limits)
    → Checked now s (allow_request_banning config now peer ban s)
unfolding allow_request_banning
allow_request_banning-Checked config now peer ban s =
    let d = record s { banned_peers = retain_values (keeps now) s.banned_peers } in
    let p = prune-Checked now d in
    if_ind (Checked now s) (is_banned now (get peer d.banned_peers)) (d, false)
      (spend config now peer ban (prune now d)) (λ e. (refl, λ k. cc))
      (λ e. let q = spend-Checked config now peer ban (prune now d) p.1 in (q.0 ∙ p.0, q.1))

-- A write to the window of a peer that has one.
put-IsFull :
    (config : Config) (peer other : Text) (w : StoreWindow) (s : Limits)
    → IsFull config peer s
    → is_some (get other s.store_windows) ≡ true
    → IsFull config peer (record s { store_windows = put other w s.store_windows })
put-IsFull config peer other w s f h = record {
  full = omega (arith, f.full, length-put other w s.store_windows);
  absent = elim (Bool-cases (same_text other peer)) [
    | inl e ↦
        let k = ap (λ t. get t s.store_windows) (same_text→≡ other peer e) ∙ f.absent in
        absurd (ground (arith, ap is_some k))
    | inr e ↦ get-put peer other w s.store_windows ∙ rw e f.absent
  ];
}

spend_store-IsFull :
    (config : Config) (now : ℕ) (peer other : Text) (bytes : ℕ) (s : Limits)
    → IsFull config peer s
    → IsFull config peer (spend_store config now other bytes s).0
unfolding spend_store
spend_store-IsFull config now peer other bytes s f =
    let w = store_window_at s.store_windows other now in
    if_ind (λ (x : Limits × Bool). IsFull config peer x.0)
      (leb config.max_rate_keys (length s.store_windows)
        && not (is_some (get other s.store_windows)))
      _ _ (λ _. f)
      (λ e.
        let h : is_some (get other s.store_windows) ≡ true = ground (arith, f.full) in
        if_ind (λ (x : Limits × Bool). IsFull config peer x.0)
          (leb config.max_stores_per_minute w.count
            || ltb config.max_store_bytes_per_minute (add_sat64 w.bytes bytes))
          _ _ (λ _. put-IsFull config peer other w s f h)
          (λ _. put-IsFull config peer other _ s f h))

unprunable : (now : ℕ) (s : Limits) → now - s.rates_pruned_at < 1000 → prune_stores now s ≡ s
unfolding prune_stores
unprunable now s h = ground arith

-- Both checks of anyone's store leave the windows as full, and refuse the peer.
allow_both-IsFull :
    (config : Config) (now : ℕ) (peer other : Text) (bytes : ℕ) (s : Limits)
    → IsFull config peer s
    → IsFull config peer (allow_both config now other bytes s).0
unfolding allow_both allow_store
allow_both-IsFull config now peer other bytes s f =
    let x = allow_request_banning config now other true s in
    let c = allow_request_banning-Checked config now other true s in
    let g : IsFull config peer x.0 = record {
      full = omega (arith, f.full, ap length c.0);
      absent = ap (get peer) c.0 ∙ f.absent;
    } in
    if_ind (λ (y : Limits × Bool). IsFull config peer y.0) x.1 _ (x.0, false)
      (λ e. rw (unprunable now x.0 (c.1 e)) (spend_store-IsFull config now peer other bytes x.0 g))
      (λ _. g)

allow_both_refuses :
    (config : Config) (now : ℕ) (peer : Text) (bytes : ℕ) (s : Limits)
    → IsFull config peer s
    → (allow_both config now peer bytes s).1 ≡ false
unfolding allow_both allow_store
allow_both_refuses config now peer bytes s f =
    let x = allow_request_banning config now peer true s in
    let c = allow_request_banning-Checked config now peer true s in
    if_ind (λ (y : Limits × Bool). y.1 ≡ false) x.1 _ (x.0, false)
      (λ e.
        rw (unprunable now x.0 (c.1 e)) (
          unfold spend_store in
          ground (arith, f.full, ap length c.0, ap (get peer) c.0 ∙ f.absent)))
      (λ _. refl)

-- Some store: when, by whom, and how many bytes.
abbrev pub Store : Type 0
Store = ℕ × Text × ℕ

pub after_stores : Config → Limits → List Store → Limits
after_stores config s [] = s
after_stores config s ((now, peer, bytes) ∷ rs) =
    after_stores config (allow_both config now peer bytes s).0 rs

after_stores-IsFull :
    (config : Config) (rs : List Store) (peer : Text) (s : Limits)
    → IsFull config peer s
    → IsFull config peer (after_stores config s rs)
unfolding after_stores
after_stores-IsFull config [] peer s f = f
after_stores-IsFull config ((now, other, bytes) ∷ rs) peer s f =
    after_stores-IsFull config rs peer (allow_both config now other bytes s).0
      (allow_both-IsFull config now peer other bytes s f)

-- Once as many addresses as the limit have a window of stores, an address without one is refused
-- at any later time, whatever stores come and however much time passes, where the two checks of
-- each store read the same time.
pub after_stores-refuses :
    (config : Config) (rs : List Store) (peer : Text) (s : Limits) (now bytes : ℕ)
    → IsFull config peer s
    → (allow_both config now peer bytes (after_stores config s rs)).1 ≡ false
after_stores-refuses config rs peer s now bytes f =
    allow_both_refuses config now peer bytes (after_stores config s rs)
      (after_stores-IsFull config rs peer s f)
