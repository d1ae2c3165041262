-- ===== src/Audio/Rates.antt =====
-- The bitrate goes up and down in single steps.
use conest.Base.{
  ℕ, ◌+◌, ◌≡◌, refl, ◌&&◌, Option, none, some, List, [], ◌∷◌, ◌⊎◌, inr, ltb, leb, arith, if_ind,
  subst, sym,
}
use conest.Audio.{
  AdaptiveBitrate, default, rate, observe, on_congestion, on_clear, rates, set_bitrate, add_sat8,
  min_bitrate, max_bitrate, high_queue_watermark, low_queue_watermark,
}

-- One of the three rates.
abbrev pub IsRate : ℕ → Type 0
IsRate r = (r ≡ 16000) ⊎ (r ≡ 24000) ⊎ (r ≡ 32000)

abbrev pub IsNeighbour : ℕ → ℕ → Type 0
IsNeighbour r s = (s + 8000 ≡ r) ⊎ (r + 8000 ≡ s)

-- Rates that each lie one step of 8000 from the one before.
abbrev pub Steps : ℕ → List ℕ → Type 0
Steps r [] = Unit {0}
Steps r (s ∷ rest) = IsNeighbour r s × IsRate s × Steps s rest

-- What an observation leaves, and answers, where the controller stood at `r`.
abbrev Stepped : ℕ → AdaptiveBitrate → Option ℕ → Type 0
Stepped r c none = rate c ≡ r
Stepped r c (some s) = (rate c ≡ s) × IsNeighbour r s × IsRate s

on_congestion-Stepped :
    (r frames : ℕ) → IsRate r → Stepped r (on_congestion r frames).0 (on_congestion r frames).1
on_congestion-Stepped r frames h =
    if_ind (λ (x : AdaptiveBitrate × Option ℕ). Stepped r x.0 x.1)
      (leb 5 frames && ltb min_bitrate r) _ _ (λ e. ground arith) (λ e. ground arith)

on_clear-Stepped : (r frames : ℕ) → IsRate r → Stepped r (on_clear r frames).0 (on_clear r frames).1
on_clear-Stepped r frames h =
    if_ind (λ (x : AdaptiveBitrate × Option ℕ). Stepped r x.0 x.1)
      (leb 50 frames && ltb r max_bitrate) _ _ (λ e. ground arith) (λ e. ground arith)

observe-Stepped :
    (q : ℕ) (c : AdaptiveBitrate)
    → IsRate (rate c)
    → Stepped (rate c) (observe q c).0 (observe q c).1
unfolding observe
observe-Stepped q c h =
    if_ind (λ (x : AdaptiveBitrate × Option ℕ). Stepped (rate c) x.0 x.1)
      (leb high_queue_watermark q) _ _
      (λ _. on_congestion-Stepped (rate c) (add_sat8 c.congested_frames 1) h)
      (λ _.
        if_ind (λ (x : AdaptiveBitrate × Option ℕ). Stepped (rate c) x.0 x.1)
          (leb q low_queue_watermark) _ _
          (λ _. on_clear-Stepped (rate c) (add_sat8 c.clear_frames 1) h) (λ _. ground arith))

set_bitrate-Steps :
    (r : ℕ) (c : AdaptiveBitrate) (answer : Option ℕ) (later : List ℕ)
    → IsRate r
    → Stepped r c answer
    → (IsRate (rate c) → Steps (rate c) later)
    → Steps r (set_bitrate answer later)
set_bitrate-Steps r c none later h e k = subst (λ x. Steps x later) e (k (subst IsRate (sym e) h))
set_bitrate-Steps r c (some s) later h e k =
    (e.1, e.2, subst (λ x. Steps x later) e.0 (k (subst IsRate (sym e.0) e.2)))

rates-Steps_from :
    (queues : List ℕ) (c : AdaptiveBitrate) → IsRate (rate c) → Steps (rate c) (rates queues c)
unfolding rates
rates-Steps_from [] c h = tt
rates-Steps_from (q ∷ queues) c h =
    set_bitrate-Steps (rate c) (observe q c).0 (observe q c).1 (rates queues (observe q c).0) h
      (observe-Stepped q c h) (rates-Steps_from queues (observe q c).0)

-- Whatever the lengths of the queue are, the rates that a new controller sets are 16000, 24000 or
-- 32000, and each is one step of 8000 from the rate before it, the first from 32000.
pub rates-default-Steps : (queues : List ℕ) → Steps max_bitrate (rates queues default)
rates-default-Steps queues = rates-Steps_from queues default (inr (inr refl))
