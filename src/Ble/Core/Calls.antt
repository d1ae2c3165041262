-- ===== src/Ble/Core/Calls.antt =====
-- Every history of calls of the core: the public operations as data, and their runs.
use conest.Base.{ℕ, ◌≡◌, refl, Bool, Option, none, some, List, [], ◌∷◌, arith}
use conest.Ble.Link.{Role}
use conest.Ble.Core.{
  Core, default, set_local, reserve, admit_peripheral, ready, remove, clear_links, expire, enqueue,
  broadcast, take_write, receive, poll,
}
use conest.Ble.Core.Valid.{IsValid}
use conest.Ble.Core.Valid.Frame.{remove-IsValid, expire-IsValid}
use conest.Ble.Core.Valid.Reserve.{reserve-IsValid, admit_peripheral-IsValid, ready-IsValid}
use conest.Ble.Core.Valid.Output.{
  enqueue-IsValid, broadcast-IsValid, take_write-IsValid, clear_links-IsValid, poll-IsValid,
}
use conest.Ble.Core.Valid.Input.{Survives, receive-Survives}

pub data Call : Type 0 where
  sets_local : ℕ → Call
  reserves : ℕ → Role → ℕ → Call
  admits_peripheral : ℕ → ℕ → ℕ → Call
  is_ready : ℕ → ℕ → Call
  removes : ℕ → Bool → ℕ → Call
  clears_links : Call
  expires : ℕ → Call
  enqueues : ℕ → List ℕ → Call
  broadcasts : List ℕ → Option ℕ → Call
  takes_write : ℕ → Call
  receives : ℕ → List ℕ → ℕ → Call
  polls : Call

module _ (encode : List ℕ → List ℕ) where
  -- The core behind a call; `none` stands for a panic.
  pub step : Core → Call → Option Core
  step c (sets_local local) = some (set_local c local)
  step c (reserves peer role now) = some (reserve c peer role now).0
  step c (admits_peripheral peer limit now) = some (admit_peripheral c peer limit now).0
  step c (is_ready id limit) = some (ready c id limit).0
  step c (removes id failed now) = some (remove c id failed now)
  step c clears_links = some (clear_links c)
  step c (expires now) = some (expire c now)
  step c (enqueues id packet) = some (enqueue c id packet).0
  step c (broadcasts packet except) = some (broadcast c packet except).0
  step c (takes_write id) = some (take_write c id).0
  step c (receives id chunk now) = receive encode c id chunk now
  step c polls = some (poll c).0

  pub run : Core → List Call → Option Core
  run c [] = some c
  run c (call ∷ calls) = elim (step c call) [ none ↦ none | some c' ↦ run c' calls ]

  set_local-IsValid : (c : Core) (local : ℕ) → IsValid c → IsValid (set_local c local)
  unfolding set_local
  set_local-IsValid c local v = ground (arith, v)

  pub step-Survives : (c : Core) (call : Call) → IsValid c → Survives (step c call)
  unfolding step
  step-Survives c (sets_local local) v = set_local-IsValid c local v
  step-Survives c (reserves peer role now) v = reserve-IsValid c peer role now v
  step-Survives c (admits_peripheral peer limit now) v = admit_peripheral-IsValid c peer limit now v
  step-Survives c (is_ready id limit) v = ready-IsValid c id limit v
  step-Survives c (removes id failed now) v = remove-IsValid c id failed now v
  step-Survives c clears_links v = clear_links-IsValid c v
  step-Survives c (expires now) v = expire-IsValid c now v
  step-Survives c (enqueues id packet) v = enqueue-IsValid c id packet v
  step-Survives c (broadcasts packet except) v = broadcast-IsValid c packet except v
  step-Survives c (takes_write id) v = take_write-IsValid c id v
  step-Survives c (receives id chunk now) v = receive-Survives encode c id chunk now v
  step-Survives c polls v = poll-IsValid c v

  run-Survives : (calls : List Call) (c : Core) → IsValid c → Survives (run c calls)
  unfolding run
  run-Survives [] c v = v
  run-Survives (call ∷ calls) c v =
      after (step c call) (step-Survives c call v) (run-Survives calls)
    where
      after :
          (o : Option Core)
          → Survives o
          → ((d : Core) → IsValid d → Survives (run d calls))
          → Survives (elim o [ none ↦ none | some c' ↦ run c' calls ])
      after none w rec = elim w [ ]
      after (some d) w rec = rec d w

  pub default-IsValid : IsValid default
  unfolding default
  default-IsValid = record {
    table = record { sorted = tt; given = tt; sound = tt; distinct = tt };
    bounded = omega arith;
    few = omega arith;
    backoff = record { sorted = tt; few = omega arith; delays = tt };
    recent = omega arith;
  }

  -- Whatever calls are made on a new core, with whatever bytes, times and limits, none panics, and
  -- the core stays well formed: at most 8 links, at most one to a peer and none to peer 0, each
  -- with a queue of at most 64 packets and 16 KiB that is counted right, at most 128 failed peers
  -- with delays between 30 seconds and 5 minutes, and at most 256 events.
  pub run-default-IsValid :
      (calls : List Call) → (c : Core) × (run default calls ≡ some c) × IsValid c
  run-default-IsValid calls =
      result (run default calls) (run-Survives calls default default-IsValid)
    where
      result : (o : Option Core) → Survives o → (c : Core) × (o ≡ some c) × IsValid c
      result none w = elim w [ ]
      result (some c) w = (c, refl, w)
