-- ===== src/Ble/Core/Valid/Input.antt =====
-- `receive` keeps the core well formed and never panics.
use conest.Base.{
  ℕ, ◌≡◌, refl, ap, ◌∙◌, Option, none, some, List, [], ◌∷◌, arith, length, length-append, if_ind,
  Option-cases, inl, inr, ltb, drop, length-drop,
}
use conest.Base.Outcome.{ok, err, panics}
use conest.Base.Words.{add_sat32}
use conest.Base.OrdMap.{lookup}
use conest.Ble.Reassembler
use conest.Ble.Reassembler.Valid.{push-IsValid, default-IsValid, IsPushed}
use conest.Ble.LinkId
use conest.Ble.Link
use conest.Ble.Link.{Link, count_chunk}
use conest.Ble.Link.Valid.{count_chunk-IsValid}
use conest.Ble.Core.{
  Core, Event, Links, set_link, drop_input, push_event, accept, deliver, sort, take_chunk, receive,
}
use conest.Ble.Core.Valid.{IsValid}
use conest.Ble.Core.Valid.Output.{set_link-IsValid, sound_at}

pub push_event-IsValid : (c : Core) (event : Event) → IsValid c → IsValid (push_event c event)
unfolding push_event
push_event-IsValid c event v = record {
  table = ground (arith, v.table);
  bounded = ground arith;
  few = ground arith;
  backoff = ground (arith, v.backoff);
  recent = ground (
    arith,
    length-append (drop 1 c.events) (event ∷ []),
    length-append c.events (event ∷ []),
    length-drop 1 c.events,
  );
}

-- What a packet leaves: a valid core with the same links, and a valid link to the same peer.
abbrev Keeps : Links → ℕ → Core × Link → Type 0
Keeps links peer (c, link) = IsValid c × (c.links ≡ links) × Link.IsValid link × (link.peer ≡ peer)

push_event_links : (c : Core) (event : Event) → (push_event c event).links ≡ c.links
unfolding push_event
push_event_links c event = ground arith

accept-Keeps :
    (encode : List ℕ → List ℕ) (id now : ℕ) (packet : List ℕ) (links : Links) (peer : ℕ)
    (x : Core × Link)
    → Keeps links peer x
    → Keeps links peer (accept encode id now x packet)
unfolding accept
accept-Keeps encode id now packet links peer (c, link) k =
    if_ind (Keeps links peer) (ltb Link.max_packets_per_second (add_sat32 link.packets 1))
      (drop_input c, record link { packets = add_sat32 link.packets 1 })
      (push_event c event, record link { packets = add_sat32 link.packets 1; heard = now })
      (λ _. (ground (arith, k.0), k.1, ground (arith, k.2), k.3))
      (λ _.
        (push_event-IsValid c event k.0, push_event_links c event ∙ k.1, ground (arith, k.2), k.3))
  where
    event : Event
    event = record { link = LinkId.id id; payload = encode packet }

deliver-Keeps :
    (encode : List ℕ → List ℕ) (packets : List (List ℕ)) (id now : ℕ) (links : Links) (peer : ℕ)
    (x : Core × Link)
    → Keeps links peer x
    → Keeps links peer (deliver encode id now x packets)
unfolding deliver
deliver-Keeps encode [] id now links peer x k = k
deliver-Keeps encode (packet ∷ packets) id now links peer x k =
    deliver-Keeps encode packets id now links peer (accept encode id now x packet)
      (accept-Keeps encode id now packet links peer x k)

-- A result that is no panic, and a valid core.
abbrev pub Survives : Option Core → Type 0
Survives none = ⊥
Survives (some c) = IsValid c

module _ (encode : List ℕ → List ℕ) (c : Core) (id now : ℕ) (l : Link)
    (found : lookup id c.links ≡ some l) (v : IsValid c) where
  with_input :
      (link : Link) (r : Reassembler.Reassembler)
      → Link.IsValid link
      → Reassembler.Valid.IsValid r
      → Link.IsValid (record link { input = r })
  with_input link r w k = record {
    known = w.known;
    narrow = w.narrow;
    short = w.short;
    counted = w.counted;
    light = w.light;
    filled = w.filled;
    input = k;
  }

  write_back : (x : Core × Link) → Keeps c.links l.peer x → IsValid (set_link x.0 id x.1)
  write_back x k = set_link-IsValid x.0 id l x.1 (ap (lookup id) k.1 ∙ found) k.3 k.2 k.0

  sort-Survives :
      (link : Link) (x : Reassembler.Pushed)
      → Link.IsValid link
      → link.peer ≡ l.peer
      → IsPushed x
      → Survives (sort encode c id now link x)
  unfolding sort
  sort-Survives link (input, ok packets) w h k =
      write_back (deliver encode id now (c, record link { input = input }) packets) (
        deliver-Keeps encode packets id now c.links l.peer (c, record link { input = input })
          (v, refl, with_input link input w k.0, h))
  sort-Survives link (input, err e) w h k =
      write_back (drop_input c, record link { input = input })
        (ground (arith, v), refl, with_input link input w k, h)
  sort-Survives link (input, panics) w h k = elim k [ ]

  take_chunk-Survives :
      (chunk : List ℕ) (link : Link)
      → Link.IsValid link
      → link.peer ≡ l.peer
      → Survives (take_chunk encode c id now chunk link)
  unfolding take_chunk
  take_chunk-Survives chunk link w h =
      if_ind Survives (Link.refuses link chunk)
        (some (set_link (drop_input c) id (record link { input = Reassembler.default })))
        (sort encode c id now link (Reassembler.push link.input chunk now))
        (λ _.
          write_back (drop_input c, record link { input = Reassembler.default })
            (ground (arith, v), refl, with_input link Reassembler.default w default-IsValid, h))
        (λ _.
          sort-Survives link (Reassembler.push link.input chunk now) w h
            (push-IsValid link.input chunk now w.input))

count_chunk_peer : (l : Link) (n now : ℕ) → (count_chunk l n now).peer ≡ l.peer
unfolding count_chunk
count_chunk_peer l n now = ground arith

-- Whatever bytes arrive, on whatever link and whenever, `receive` does not panic and leaves a
-- valid core.
pub receive-Survives :
    (encode : List ℕ → List ℕ) (c : Core) (id : ℕ) (chunk : List ℕ) (now : ℕ)
    → IsValid c
    → Survives (receive encode c id chunk now)
unfolding receive
receive-Survives encode c id chunk now v = elim (Option-cases (lookup id c.links)) [
  | inl e ↦ rw (e, receive) v
  | inr (l, e) ↦
      rw (e, receive)
        (take_chunk-Survives encode c id now l e v chunk (count_chunk l (length chunk) now)
          (count_chunk-IsValid l (length chunk) now (sound_at c id l e v))
          (count_chunk_peer l (length chunk) now))
]
