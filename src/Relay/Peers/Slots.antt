-- ===== src/Relay/Peers/Slots.antt =====
-- The map of slots counts the slots that are held, whatever is taken and given back.
use conest.Base.{
  ℕ, ◌+◌, ◌-◌, ◌≤◌, ◌≡◌, ap, List, [], ◌∷◌, arith, ◌==◌, if◌then◌else◌, Option-cases, inl, inr,
}
use conest.Base.Text.{Text, same_text, same_text_self, same_text→≡, get, get-put, get-remove}
use conest.Relay.Peers.{Slots, held_by, take_peer_slot, drop_slot}

-- The slots that are held, by their peers.
abbrev pub Held : Type 0
Held = List Text

unfoldable pub count : Text → Held → ℕ
count peer [] = 0
count peer (p ∷ ps) = let rest = count peer ps in if same_text p peer then rest + 1 else rest

-- One slot of a peer is given up.
abbrev pub without : Text → Held → Held
without peer [] = []
without peer (p ∷ ps) = let rest = without peer ps in if same_text p peer then ps else p ∷ rest

pub data Use : Type 0 where
  takes : Text → Use
  drops : Text → Use

-- A slot is dropped by its holder only.
pub step : ℕ → Slots × Held → Use → Slots × Held
step max (slots, held) (takes peer) =
    let (slots', got) = take_peer_slot slots peer max in (slots', if got then peer ∷ held else held)
step max (slots, held) (drops peer) =
    if count peer held == 0 then (slots, held) else (drop_slot slots peer, without peer held)

pub run : ℕ → Slots × Held → List Use → Slots × Held
run max x [] = x
run max x (u ∷ us) = run max (step max x u) us

count-without :
    (p q : Text) (held : Held)
    → count q (without p held) ≡ (if same_text p q then count q held - 1 else count q held)
unfolding count
count-without p q [] = ground arith
count-without p q (r ∷ rs) = ground (
  arith,
  count-without p q rs,
  same_text→≡ r p,
  same_text→≡ r q,
  same_text→≡ p q,
  same_text_self p,
  same_text_self q,
)

-- Every peer's entry counts the slots that it holds, at most `max` of them.
abbrev pub IsCounted : ℕ → Slots × Held → Type 0
IsCounted max x = (peer : Text) → (held_by (get peer x.0) ≡ count peer x.1) × (count peer x.1 ≤ max)

takes-IsCounted :
    (max : ℕ) (slots : Slots) (held : Held) (peer : Text)
    → IsCounted max (slots, held)
    → IsCounted max (step max (slots, held) (takes peer))
unfolding step take_peer_slot count
takes-IsCounted max slots held peer h q = ground (
  arith,
  h q,
  h peer,
  get-put q peer (held_by (get peer slots)) slots,
  get-put q peer (held_by (get peer slots) + 1) slots,
  same_text→≡ peer q,
)

drops-IsCounted :
    (max : ℕ) (slots : Slots) (held : Held) (peer : Text)
    → IsCounted max (slots, held)
    → IsCounted max (step max (slots, held) (drops peer))
unfolding step drop_slot
drops-IsCounted max slots held peer h q = elim (Option-cases (get peer slots)) [
  | inl e ↦ let k = ap held_by e in ground (arith, h q, h peer, e, k)
  | inr (n, e) ↦
      let k = ap held_by e in
      ground (
        arith,
        h q,
        h peer,
        k,
        e,
        get-put q peer (n - 1) slots,
        get-remove q peer slots,
        count-without peer q held,
        same_text→≡ peer q,
      )
]

-- Whatever slots are taken and given back, each by its holder, an address holds at most its share
-- at once, and its entry in the map is the number that it holds.
pub run-IsCounted :
    (max : ℕ) (us : List Use) (x : Slots × Held) → IsCounted max x → IsCounted max (run max x us)
unfolding run
run-IsCounted max [] x h = h
run-IsCounted max (takes peer ∷ us) (slots, held) h =
    run-IsCounted max us (step max (slots, held) (takes peer))
      (takes-IsCounted max slots held peer h)
run-IsCounted max (drops peer ∷ us) (slots, held) h =
    run-IsCounted max us (step max (slots, held) (drops peer))
      (drops-IsCounted max slots held peer h)
