-- ===== src/Ble/DropGuard.antt =====
-- `DropGuard` of native/conest_native/src/ble/mod.rs: how often the mesh that was up has failed
-- lately. An `Instant` is a number of milliseconds; the deque is a list, its oldest first.
use mathlib.Core.List.{append_assoc, append-nil}
use conest.Base.{
  ℕ, ◌-◌, ◌*◌, ◌≤◌, ◌≡◌, refl, ap, Bool, List, [], ◌∷◌, ◌++◌, arith, ltb, leb, if◌then◌else◌,
  length, All,
}

abbrev pub drops_to_pause : ℕ
drops_to_pause = 3

abbrev pub drop_window : ℕ
drop_window = 180 * 1000

abbrev pub DropGuard : Type 0
DropGuard = List ℕ

-- The loop that forgets what is out of the window, from the oldest on.
pub forget_old : ℕ → DropGuard → DropGuard
forget_old at [] = []
forget_old at (first ∷ drops) =
    let rest = forget_old at drops in if ltb drop_window (at - first) then rest else first ∷ drops

pub dropped : DropGuard → ℕ → DropGuard × Bool
dropped drops at =
    let drops' = forget_old at drops ++ at ∷ [] in (drops', leb drops_to_pause (length drops'))

-- The guard behind a history of drops, oldest first.
pub after_drops : DropGuard → List ℕ → DropGuard
after_drops g [] = g
after_drops g (t ∷ ts) = after_drops (dropped g t).0 ts

-- The times of a list that lie in the window before `at`.
pub recent : ℕ → List ℕ → List ℕ
recent at [] = []
recent at (t ∷ ts) = let rest = recent at ts in if ltb drop_window (at - t) then rest else t ∷ rest

-- The times do not go back, from `lo` on.
abbrev pub Chain : ℕ → List ℕ → Type 0
Chain lo [] = Unit {0}
Chain lo (t ∷ ts) = (lo ≤ t) × Chain t ts

recent_all : (at lo : ℕ) (ts : List ℕ) → at - lo ≤ drop_window → Chain lo ts → recent at ts ≡ ts
unfolding recent
recent_all at lo [] h c = refl
recent_all at lo (t ∷ ts) h c = ground (arith, recent_all at t ts)

forget_old-recent : (at lo : ℕ) (ts : List ℕ) → Chain lo ts → forget_old at ts ≡ recent at ts
unfolding forget_old recent
forget_old-recent at lo [] c = refl
forget_old-recent at lo (t ∷ ts) c =
    ground (arith, forget_old-recent at t ts c.1, recent_all at t ts)

Chain-mono : (lo lo' : ℕ) (ts : List ℕ) → lo ≤ lo' → Chain lo' ts → Chain lo ts
Chain-mono lo lo' [] h c = tt
Chain-mono lo lo' (t ∷ ts) h c = (omega arith, c.1)

recent-Chain : (at lo : ℕ) (ts : List ℕ) → Chain lo ts → Chain lo (recent at ts)
unfolding recent
recent-Chain at lo [] c = tt
recent-Chain at lo (t ∷ ts) c =
    ground (arith, recent-Chain at t ts c.1, Chain-mono lo t (recent at ts))

recent-recent : (b at : ℕ) (ts : List ℕ) → b ≤ at → recent at (recent b ts) ≡ recent at ts
unfolding recent
recent-recent b at [] h = refl
recent-recent b at (t ∷ ts) h = ground (arith, recent-recent b at ts h)

recent_snoc : (at : ℕ) (ts : List ℕ) → recent at (ts ++ at ∷ []) ≡ recent at ts ++ at ∷ []
unfolding recent
recent_snoc at [] = ground arith
recent_snoc at (t ∷ ts) = ground (arith, recent_snoc at ts)

dropped-recent :
    (h : List ℕ) (b at : ℕ)
    → Chain 0 h
    → b ≤ at
    → (dropped (recent b h) at).0 ≡ recent at (h ++ at ∷ [])
unfolding dropped
dropped-recent h b at c le =
    rw
      (
        forget_old-recent at 0 (recent b h) (recent-Chain b 0 h c),
        recent-recent b at h le,
        recent_snoc at h,
      )
      refl

Chain-snoc :
    (lo b t : ℕ) (h : List ℕ)
    → Chain lo h
    → All (λ x. x ≤ b) h
    → lo ≤ b
    → b ≤ t
    → Chain lo (h ++ t ∷ [])
Chain-snoc lo b t [] c a p q = (omega arith, tt)
Chain-snoc lo b t (x ∷ h) c a p q = (c.0, Chain-snoc x b t h c.1 a.1 a.0 q)

All-le : (b t : ℕ) (h : List ℕ) → b ≤ t → All (λ x. x ≤ b) h → All (λ x. x ≤ t) (h ++ t ∷ [])
All-le b t [] p a = (omega arith, tt)
All-le b t (x ∷ h) p a = (omega arith, All-le b t h p a.1)

after_drops-recent :
    (ts h : List ℕ) (b at : ℕ)
    → Chain 0 h
    → All (λ x. x ≤ b) h
    → Chain b (ts ++ at ∷ [])
    → (dropped (after_drops (recent b h) ts) at).0 ≡ recent at (h ++ ts ++ at ∷ [])
unfolding after_drops
after_drops-recent [] h b at c a d = rw append-nil (dropped-recent h b at c d.0)
after_drops-recent (t ∷ ts) h b at c a d =
    rw (dropped-recent h b t c d.0, ← append_assoc h (t ∷ []) ts)
      (after_drops-recent ts (h ++ t ∷ []) t at (Chain-snoc 0 b t h c a (omega arith) d.0)
        (All-le b t h d.0 a) d.1)

-- The mesh pauses exactly at the drops that are at least the third within three minutes, the
-- drop itself counted, for drops that come in the order of time.
pub dropped_lem :
    (ts : List ℕ) (at : ℕ)
    → Chain 0 (ts ++ at ∷ [])
    → (dropped (after_drops [] ts) at).1 ≡ leb 3 (length (recent at (ts ++ at ∷ [])))
unfolding recent dropped
dropped_lem ts at c =
    ap (λ (g : DropGuard). leb 3 (length g)) (after_drops-recent ts [] 0 at tt tt c)
