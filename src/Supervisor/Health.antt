-- ===== src/Supervisor/Health.antt =====
-- `wait_for_health`: the relay that was started has to answer as the one that was meant.
use conest.Base.{
  ◌++◌, ◌≡◌, ◌≢◌, refl, Bool, true, false, not, Option, none, some, List, [], ◌∷◌, if◌then◌else◌,
  All, arith, Bool-cases, inl, inr,
}
use conest.Base.Outcome.{Outcome, Outcome-cases, ok_injective, ok, err, panics}
use conest.Base.Text.{Text, same_text}
use conest.Supervisor.{UpdateError, health_gate, identity_changed}

-- The fields of the health answer that the gate reads.
pub record RelayHealth : Type 0 where
  pub version : Text
  pub identity_public_key : Text

-- One round before the deadline: the answer of `relay_health`, and whether the probe that is
-- stored and fetched comes back.
pub record Attempt : Type 0 where
  pub health : Outcome UpdateError RelayHealth
  pub probe : Bool

-- `expected.is_some_and(|value| value != found)`
abbrev pub differs : Option Text → Text → Bool
differs none found = false
differs (some value) found = not (same_text value found)

-- The rounds of the thirty seconds, in order.
unfoldable pub wait_for_health :
    Option Text → Option Text → List Attempt → Outcome UpdateError RelayHealth
wait_for_health version identity [] = err health_gate
wait_for_health version identity (a ∷ rest) =
    let later = wait_for_health version identity rest in
    elim a.health [
      | ok h ↦
          if differs version h.version
          then later
          else (if differs identity h.identity_public_key
              then err identity_changed
              else (if a.probe then ok h else later))
      | err e ↦ later
      | panics ↦ panics
    ]

-- The attempt that passed the gate.
pub record Passed (version identity : Option Text) (attempts : List Attempt) (h : RelayHealth)
    : Type 0 where
  pub before : List Attempt
  pub attempt : Attempt
  pub later : List Attempt
  pub found : attempts ≡ before ++ attempt ∷ later
  pub answered : attempt.health ≡ ok h
  pub probed : attempt.probe ≡ true
  pub same_version : differs version h.version ≡ false
  pub same_identity : differs identity h.identity_public_key ≡ false

-- A later attempt that passed, with one more in front.
later_Passed :
    (version identity : Option Text) (a : Attempt) (rest : List Attempt) (h : RelayHealth)
    → Passed version identity rest h
    → Passed version identity (a ∷ rest) h
later_Passed version identity a rest h p = record {
  before = a ∷ p.before;
  attempt = p.attempt;
  later = p.later;
  found = rw p.found refl;
  answered = p.answered;
  probed = p.probed;
  same_version = p.same_version;
  same_identity = p.same_identity;
}

further :
    (version identity : Option Text) (a : Attempt) (rest : List Attempt) (h : RelayHealth)
    → (wait_for_health version identity rest ≡ ok h → Passed version identity rest h)
    → wait_for_health version identity rest ≡ ok h
    → Passed version identity (a ∷ rest) h
further version identity a rest h f e = later_Passed version identity a rest h (f e)

-- When the gate lets a relay pass, one of the attempts answered with this version and identity,
-- which are the expected ones where there are such, and its probe came back.
pub wait_for_health-Passed :
    (version identity : Option Text) (attempts : List Attempt) (h : RelayHealth)
    → wait_for_health version identity attempts ≡ ok h
    → Passed version identity attempts h
unfolding wait_for_health
wait_for_health-Passed version identity [] h e = absurd (cc e)
wait_for_health-Passed version identity (a ∷ rest) h e = elim (Outcome-cases a.health) [
  | inl (g, u) ↦ elim (Bool-cases (differs version g.version)) [
    | inl other ↦
        further version identity a rest h (wait_for_health-Passed version identity rest h)
          (rw (u, wait_for_health, other) at e)
    | inr same ↦ elim (Bool-cases (differs identity g.identity_public_key)) [
      | inl changed ↦ absurd (cc (rw (u, wait_for_health, same, changed) at e))
      | inr kept ↦ elim (Bool-cases a.probe) [
        | inl probed ↦
            let answer : g ≡ h = ok_injective (rw (u, wait_for_health, same, kept, probed) at e) in
            record {
              before = [];
              attempt = a;
              later = rest;
              found = refl;
              answered = rw answer at u;
              probed = probed;
              same_version = rw answer at same;
              same_identity = rw answer at kept;
            }
        | inr lost ↦
            further version identity a rest h (wait_for_health-Passed version identity rest h)
              (rw (u, wait_for_health, same, kept, lost) at e)
      ]
    ]
  ]
  | inr (inl (x, u)) ↦
      later_Passed version identity a rest h
        (wait_for_health-Passed version identity rest h (rw (u, wait_for_health) at e))
  | inr (inr u) ↦ absurd (cc (rw (u, wait_for_health) at e))
]

-- An attempt that is answered is answered with this version.
abbrev pub Reports : Text → Attempt → Type 0
Reports found a = (h : RelayHealth) → a.health ≡ ok h → h.version ≡ found

All-middle :
    (found : Text) (front back : List Attempt) (a : Attempt)
    → All (Reports found) (front ++ a ∷ back)
    → Reports found a
All-middle found [] back a h = h.0
All-middle found (x ∷ front) back a h = All-middle found front back a h.1

-- A relay that answers with another version than the one expected never passes the gate.
pub wait_for_health_other :
    (version found : Text) (identity : Option Text) (attempts : List Attempt)
    → same_text version found ≡ false
    → All (Reports found) attempts
    → (h : RelayHealth) → wait_for_health (some version) identity attempts ≢ ok h
wait_for_health_other version found identity attempts d r h e =
    let p = wait_for_health-Passed (some version) identity attempts h e in
    let reports = rw p.found at r in
    let same = All-middle found p.before p.later p.attempt reports h p.answered in
    ground (arith, p.same_version, rw same at p.same_version, d)
