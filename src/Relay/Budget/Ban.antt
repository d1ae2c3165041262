-- ===== src/Relay/Budget/Ban.antt =====
-- A soft ban holds until it ends.
use conest.Base.{
  ℕ, ◌<◌, ◌≡◌, refl, ap, ◌∙◌, Bool, true, false, some, List, [], ◌∷◌, arith, Bool-cases,
  Option-cases, inl, inr, if_ind, All,
}
use conest.Base.Text.{Text, TextMap, same_text, same_text→≡, get, retain_values, get-put}
use conest.Relay.Budget.{
  Config, Limits, BanEntry, keeps, is_banned, note_rate_violation, note_rate_compliance, prune,
  spend, allow_request_banning,
}

-- Some request: when, by whom, and whether refusals count.
abbrev pub Request : Type 0
Request = ℕ × Text × Bool

pub after : Config → Limits → List Request → Limits
after config s [] = s
after config s ((now, peer, ban) ∷ rs) =
    after config (allow_request_banning config now peer ban s).0 rs

-- The first entry of a peer stays where it is kept.
get-retain_values :
    {V : Type 0} (p : V → Bool) (t : Text) (v : V) (m : TextMap V)
    → get t m ≡ some v
    → p v ≡ true
    → get t (retain_values p m) ≡ some v
unfolding get retain_values
get-retain_values p t v [] h k = cc
get-retain_values p t v ((s, w) ∷ m) h k = elim (Bool-cases (same_text s t)) [
  | inl e ↦ let same : w ≡ v = ground arith in let q : p w ≡ true = ap p same ∙ k in ground arith
  | inr e ↦ ground (arith, get-retain_values p t v m)
]

prune_bans : (now : ℕ) (s : Limits) → (prune now s).banned_peers ≡ s.banned_peers
unfolding prune
prune_bans now s = ground arith

-- The notes on a peer leave the entries of others.
violation_other :
    (config : Config) (bans : TextMap BanEntry) (peer other : Text) (now : ℕ)
    → same_text other peer ≡ false
    → get peer (note_rate_violation config bans other now) ≡ get peer bans
unfolding note_rate_violation
violation_other config bans peer other now h = get-put peer other _ bans ∙ rw h refl

compliance_other :
    (bans : TextMap BanEntry) (peer other : Text)
    → same_text other peer ≡ false
    → get peer (note_rate_compliance bans other) ≡ get peer bans
unfolding note_rate_compliance
compliance_other bans peer other h = elim (Option-cases (get other bans)) [
  | inl e ↦ rw (e, note_rate_compliance) refl
  | inr (b, e) ↦
      rw (e, note_rate_compliance)
        (ground (arith, get-put peer other (record b { consecutive_violations = 0 }) bans))
]

spend_other :
    (config : Config) (now : ℕ) (peer other : Text) (ban : Bool) (s : Limits)
    → same_text other peer ≡ false
    → get peer (spend config now other ban s).0.banned_peers ≡ get peer s.banned_peers
unfolding spend
spend_other config now peer other ban s h = ground (
  arith,
  violation_other config s.banned_peers peer other now h,
  compliance_other s.banned_peers peer other h,
)

-- A request before the end of a peer's ban leaves the ban as it is.
kept :
    (config : Config) (now : ℕ) (peer other : Text) (ban : Bool) (s : Limits) (e : BanEntry)
    → get peer s.banned_peers ≡ some e
    → now < e.banned_until
    → get peer (allow_request_banning config now other ban s).0.banned_peers ≡ some e
unfolding allow_request_banning
kept config now peer other ban s e h k = elim (Bool-cases (same_text other peer)) [
  | inl same ↦
      let p =
        ap (λ t. get t (retain_values (keeps now) s.banned_peers)) (same_text→≡ other peer same) in
      let q = get-retain_values (keeps now) peer e s.banned_peers h (ground arith) in
      rw (p ∙ q) (ground (arith, q))
  | inr apart ↦
      let d = record s { banned_peers = retain_values (keeps now) s.banned_peers } in
      let q = get-retain_values (keeps now) peer e s.banned_peers h (ground arith) in
      if_ind (λ (x : Limits × Bool). get peer x.0.banned_peers ≡ some e)
        (is_banned now (get other d.banned_peers)) (d, false)
        (spend config now other ban (prune now d)) (λ _. q)
        (λ _.
          spend_other config now peer other ban (prune now d) apart
          ∙ ap (get peer) (prune_bans now d)
          ∙ q)
]

kept_after :
    (config : Config) (rs : List Request) (peer : Text) (s : Limits) (e : BanEntry)
    → get peer s.banned_peers ≡ some e
    → All (λ r. r.0 < e.banned_until) rs
    → get peer (after config s rs).banned_peers ≡ some e
unfolding after
kept_after config [] peer s e h a = h
kept_after config ((now, other, ban) ∷ rs) peer s e h a =
    kept_after config rs peer (allow_request_banning config now other ban s).0 e
      (kept config now peer other ban s e h a.0) a.1

-- While a peer is banned, whatever requests it and others make, each before the ban's end, the
-- peer's next request before the end is refused.
pub after-refuses :
    (config : Config) (rs : List Request) (peer : Text) (s : Limits) (e : BanEntry) (now : ℕ)
    (ban : Bool)
    → get peer s.banned_peers ≡ some e
    → All (λ r. r.0 < e.banned_until) rs
    → now < e.banned_until
    → (allow_request_banning config now peer ban (after config s rs)).1 ≡ false
unfolding allow_request_banning
after-refuses config rs peer s e now ban h a k =
    let d = after config s rs in
    let q =
      get-retain_values (keeps now) peer e d.banned_peers (kept_after config rs peer s e h a)
        (ground arith) in
    rw q (ground arith)
