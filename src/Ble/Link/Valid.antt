-- ===== src/Ble/Link/Valid.antt =====
-- The queue of a link is a bounded first-in first-out queue, and its bytes are counted right.
use conest.Base.{
  ℕ, ◌+◌, ◌≤◌, ◌<◌, ◌≡◌, refl, Bool, true, false, ◌↔◌, List, [], ◌∷◌, ◌++◌, arith, length,
  length-append, All-append, if_ind,
}
use conest.Ble.Reassembler.Valid
use conest.Ble.Link.{
  Link, Role, IsValid, new_link, no_room, push_back, enqueue, take_write, pop_front, count_chunk,
  total, limit_or_zero, max_queue_bytes, max_queue_packets, max_write,
}

pub total-append : (ps qs : List (List ℕ)) → total (ps ++ qs) ≡ total ps + total qs
total-append [] qs = omega arith
total-append (p ∷ ps) qs = omega (arith, total-append ps qs)

pub new_link-IsValid :
    (peer : ℕ) (role : Role) (now : ℕ) → 0 < peer → IsValid (new_link peer role now)
unfolding new_link
new_link-IsValid peer role now h = ground (arith, Valid.default-IsValid)

-- The packets that are taken: not empty, within the link's limit and within the queue's room.
pub no_room_iff :
    (l : Link) (packet : List ℕ)
    → (no_room l packet ≡ false) ↔ (
        (0 < length packet)
        × (length packet ≤ limit_or_zero l.limit)
        × (length l.queue < max_queue_packets)
        × (l.queued_bytes + length packet ≤ max_queue_bytes))
no_room_iff l [] = ground arith
no_room_iff l (b ∷ bs) = ground arith

pub enqueue-IsValid : (l : Link) (packet : List ℕ) → IsValid l → IsValid (enqueue l packet).0
unfolding enqueue
enqueue-IsValid l packet v =
    if_ind (λ (x : Link × Bool). IsValid x.0) (no_room l packet) (l, false)
      (push_back l packet, true) (λ _. v) (λ free. pushed ((no_room_iff l packet).0 free))
  where
    pushed :
        (0 < length packet)
          × (length packet ≤ limit_or_zero l.limit)
          × (length l.queue < max_queue_packets)
          × (l.queued_bytes + length packet ≤ max_queue_bytes)
        → IsValid (push_back l packet)
    pushed f = record {
      known = v.known;
      narrow = v.narrow;
      short = omega (arith, length-append l.queue (packet ∷ []));
      counted = omega (arith, total-append l.queue (packet ∷ []), v.counted);
      light = omega arith;
      filled =
          All-append (λ p. (0 < length p) × (length p ≤ max_write)) l.queue (packet ∷ []) v.filled
            ((f.0, omega (arith, v.narrow)), tt);
      input = v.input;
    }

take_write-IsValid' :
    (l : Link) (q : List (List ℕ)) → l.queue ≡ q → IsValid l → IsValid (pop_front l q).0
unfolding pop_front
take_write-IsValid' l [] e v = v
take_write-IsValid' l (p ∷ q) e v = ground arith

pub take_write-IsValid : (l : Link) → IsValid l → IsValid (take_write l).0
unfolding take_write
take_write-IsValid l v = take_write-IsValid' l l.queue refl v

pub count_chunk-IsValid : (l : Link) (n now : ℕ) → IsValid l → IsValid (count_chunk l n now)
unfolding count_chunk
count_chunk-IsValid l n now v = ground arith
