-- ===== src/Ble/Core/Valid/Output.antt =====
-- The writing side, `clear_links` and `poll` keep the core well formed.
use conest.Base.{
  ℕ, ◌≡◌, refl, Bool, false, Option, some, List, [], ◌∷◌, arith, length, if_ind, Option-cases, inl,
  inr, if◌then◌else◌, length-drop, min,
}
use conest.Base.OrdMap.{lookup, lookup-Values, length-update}
use conest.Ble.Link
use conest.Ble.Link.{Link}
use conest.Ble.Link.Valid.{
  enqueue-IsValid as link_enqueue-IsValid, take_write-IsValid as link_take_write-IsValid,
}
use conest.Ble.Core.{
  Core, set_link, enqueue, broadcast_to, broadcast, excluded, keys, take_write, clear_links, poll,
}
use conest.Ble.Core.Table.{IsTable-update}
use conest.Ble.Core.Valid.{IsValid}

-- Writing a link back keeps the core well formed.
pub set_link-IsValid :
    (c : Core) (id : ℕ) (l w : Link)
    → lookup id c.links ≡ some l
    → w.peer ≡ l.peer
    → Link.IsValid w
    → IsValid c
    → IsValid (set_link c id w)
set_link-IsValid c id l w e h ok v = record {
  table = IsTable-update c.next id l w c.links e h ok v.table;
  bounded = v.bounded;
  few = omega (arith, length-update id w c.links, v.few);
  backoff = v.backoff;
  recent = v.recent;
}

enqueue_peer : (l : Link) (packet : List ℕ) → (Link.enqueue l packet).0.peer ≡ l.peer
unfolding Link.enqueue
enqueue_peer l packet = ground arith

take_write_peer' :
    (l : Link) (q : List (List ℕ)) → l.queue ≡ q → (Link.take_write l).0.peer ≡ l.peer
unfolding Link.take_write
take_write_peer' l [] e = ground arith
take_write_peer' l (p ∷ q) e = ground arith

pub sound_at :
    (c : Core) (id : ℕ) (l : Link) → lookup id c.links ≡ some l → IsValid c → Link.IsValid l
sound_at c id l e v = lookup-Values Link.IsValid id l c.links v.table.sound e

pub enqueue-IsValid :
    (c : Core) (id : ℕ) (packet : List ℕ) → IsValid c → IsValid (enqueue c id packet).0
unfolding enqueue
enqueue-IsValid c id packet v = elim (Option-cases (lookup id c.links)) [
  | inl e ↦ rw (e, enqueue) v
  | inr (l, e) ↦
      rw (e, enqueue)
        (set_link-IsValid c id l (Link.enqueue l packet).0 e (enqueue_peer l packet)
          (link_enqueue-IsValid l packet (sound_at c id l e v)) v)
]

broadcast_to-IsValid :
    (ids : List ℕ) (c : Core) (packet : List ℕ) (except : Option ℕ)
    → IsValid c
    → IsValid (broadcast_to c packet except ids).0
unfolding broadcast_to
broadcast_to-IsValid [] c packet except v = v
broadcast_to-IsValid (id ∷ ids) c packet except v =
    broadcast_to-IsValid ids (if excluded id except then (c, false) else enqueue c id packet).0
      packet except
      (if_ind (λ (x : Core × Bool). IsValid x.0) (excluded id except) (c, false)
        (enqueue c id packet) (λ _. v) (λ _. enqueue-IsValid c id packet v))

pub broadcast-IsValid :
    (c : Core) (packet : List ℕ) (except : Option ℕ)
    → IsValid c
    → IsValid (broadcast c packet except).0
unfolding broadcast
broadcast-IsValid c packet except v = broadcast_to-IsValid (keys c.links) c packet except v

pub take_write-IsValid : (c : Core) (id : ℕ) → IsValid c → IsValid (take_write c id).0
unfolding take_write
take_write-IsValid c id v = elim (Option-cases (lookup id c.links)) [
  | inl e ↦ rw (e, take_write) v
  | inr (l, e) ↦
      rw (e, take_write)
        (set_link-IsValid c id l (Link.take_write l).0 e (take_write_peer' l l.queue refl)
          (link_take_write-IsValid l (sound_at c id l e v)) v)
]

pub clear_links-IsValid : (c : Core) → IsValid c → IsValid (clear_links c)
unfolding clear_links
clear_links-IsValid c v = record {
  table = record { sorted = tt; given = tt; sound = tt; distinct = tt };
  bounded = v.bounded;
  few = omega arith;
  backoff = v.backoff;
  recent = omega arith;
}

pub poll-IsValid : (c : Core) → IsValid c → IsValid (poll c).0
unfolding poll
poll-IsValid c v = record {
  table = v.table;
  bounded = v.bounded;
  few = v.few;
  backoff = v.backoff;
  recent = omega (arith, length-drop (min (length c.events) 32) c.events, v.recent);
}
