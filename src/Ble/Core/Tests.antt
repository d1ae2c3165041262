-- ===== src/Ble/Core/Tests.antt =====
-- Runs of the core at concrete inputs.
use conest.Base.{◌↔◌, ℕ, ◌≡◌, refl, true, some, List, [], ◌∷◌, ◌++◌, replicate, arith}
use conest.Base.OrdMap.{lookup, insert}
use conest.Ble.Backoff.{is_waiting}
use conest.Ble.Link
use conest.Ble.Link.{Link, new_link, central, peripheral}
use conest.Ble.Core.{
  Core, default, set_local, reserve, admit_peripheral, receive, expire, find_peer, deliver, lone,
  place, remove_all, expired, peer_link, find_link, greet, ready,
}
use conest.Ble.Core.Valid.{IsValid}
use conest.Ble.Core.Valid.Reserve.{admit_peripheral-IsValid}
use conest.Ble.Core.Valid.Input.{Survives, receive-Survives}
use conest.Ble.Core.Calls.{
  Call, run, run-default-IsValid, default-IsValid, sets_local, reserves, admits_peripheral,
  is_ready, enqueues, broadcasts, takes_write, receives, removes, expires, polls,
}
use conest.Ble.Core.Removal.{IsOnTime, lookup-expire}
use conest.Ble.Core.Crossing.{IsReserved, reserve-IsReserved, role_to, opposite, crossed_ends_agree}
use conest.Ble.Core.Events.{Delivers, deliver_events}

-- An encoder that leaves the bytes as they are.
abbrev plain : List ℕ → List ℕ
plain bytes = bytes

-- A whole packet of version 1: 14 bytes of header, 8 of sender, 2 of payload.
abbrev small : List ℕ
small = 1 ∷ 2 ∷ 7 ∷ replicate 8 0 ++ 0 ∷ 0 ∷ 2 ∷ replicate 8 9 ++ 5 ∷ 6 ∷ []

abbrev calls : List Call
calls =
    sets_local 9
    ∷ admits_peripheral 5 512 100
    ∷ reserves 7 central 150
    ∷ is_ready 2 64
    ∷ receives 1 small 200
    ∷ enqueues 1 small
    ∷ broadcasts small (some 1)
    ∷ takes_write 2
    ∷ removes 2 true 300
    ∷ polls
    ∷ expires 200000
    ∷ []

run-default-IsValid_example : (c : Core) × (run plain default calls ≡ some c) × IsValid c
run-default-IsValid_example = run-default-IsValid plain calls

-- A core with one ready link of a peer.
abbrev linked : Core
linked = (admit_peripheral default 5 512 100).0

linked-IsValid : IsValid linked
linked-IsValid = admit_peripheral-IsValid default 5 512 100 (default-IsValid plain)

receive-Survives_example : Survives (receive plain linked 1 small 200)
receive-Survives_example = receive-Survives plain linked 1 small 200 linked-IsValid

abbrev its_link : Link
its_link = record (new_link 5 peripheral 100) { limit = some 512 }

lookup-expire_example :
    (lookup 1 (expire linked 110000).links ≡ some its_link)
    ↔ (lookup 1 linked.links ≡ some its_link) × IsOnTime its_link 110000
lookup-expire_example = lookup-expire linked 110000 1 its_link linked-IsValid

abbrev one : Core
one = set_local default 1

abbrev two : Core
two = set_local default 2

one-IsValid : IsValid one
unfolding set_local default
one-IsValid = record {
  table = record { sorted = tt; given = tt; sound = tt; distinct = tt };
  bounded = omega arith;
  few = omega arith;
  backoff = record { sorted = tt; few = omega arith; delays = tt };
  recent = omega arith;
}

two-IsValid : IsValid two
unfolding set_local default
two-IsValid = record {
  table = record { sorted = tt; given = tt; sound = tt; distinct = tt };
  bounded = omega arith;
  few = omega arith;
  backoff = record { sorted = tt; few = omega arith; delays = tt };
  recent = omega arith;
}

-- Each of the two has dialled the other.
abbrev one_dials : Core
one_dials = (reserve one 2 central 10).0

abbrev two_dials : Core
two_dials = (reserve two 1 central 12).0

reserve-one : reserve one 2 central 10 ≡ (one_dials, some 1)
unfolding reserve lone place expire remove_all expired set_local default find_peer new_link
    is_waiting lookup
reserve-one = refl

reserve-two : reserve two 1 central 12 ≡ (two_dials, some 1)
unfolding reserve lone place expire remove_all expired set_local default find_peer new_link
    is_waiting lookup
reserve-two = refl

reserve-IsReserved_example : IsReserved one 2 central 10 1 one_dials
reserve-IsReserved_example = reserve-IsReserved one one_dials 2 central 10 1 one-IsValid reserve-one

crossed_ends_agree_example :
    (role : Link.Role) × (role_to (reserve one_dials 2 peripheral 20).0 2 ≡ some role)
    × (role_to (reserve two_dials 1 peripheral 22).0 1 ≡ some (opposite role))
unfolding reserve lone place expire remove_all expired set_local default find_peer new_link
    is_waiting lookup
crossed_ends_agree_example =
    crossed_ends_agree one two one_dials two_dials central peripheral central peripheral 10 12 20 22
      1 1 one-IsValid two-IsValid (λ e. omega (arith, e)) refl refl reserve-one reserve-two
      (omega arith) (omega arith)

abbrev busy : Link
busy = record (new_link 5 peripheral 0) { packets = 39 }

deliver_events_example :
    Delivers plain 1 200 linked
      (small ∷ [])
      1
      (deliver plain 1 200 (linked, busy) (small ∷ small ∷ [])).0
unfolding admit_peripheral peer_link find_link greet reserve lone place expire remove_all expired
    default find_peer ready new_link lookup insert
deliver_events_example =
    deliver_events plain 1 200 (small ∷ small ∷ []) linked busy (omega arith) (omega arith)
      (omega arith)
