-- ===== src/Ble/Link/Fifo.antt =====
-- The queue of a link gives back what it took, in order.
use mathlib.Core.List.{append_assoc, append-nil}
use conest.Base.{
  ℕ, ◌≡◌, refl, sym, ap, ◌∙◌, Bool, true, false, none, some, List, [], ◌∷◌, ◌++◌, if_ind,
}
use conest.Ble.Link.{Link, enqueue, take_write, pop_front, no_room, push_back}

-- A call of the queue: a packet to write, or the writer asking for the next one.
pub data QueueCall : Type 0 where
  put : List ℕ → QueueCall
  fetch : QueueCall

-- The packets of one call that were taken in, and that were handed out.
abbrev pub taken_by : Link → QueueCall → List (List ℕ)
taken_by l (put packet) = elim (enqueue l packet).1 [ true ↦ packet ∷ [] | false ↦ [] ]
taken_by l fetch = []

abbrev pub given_by : Link → QueueCall → List (List ℕ)
given_by l (put packet) = []
given_by l fetch = elim (take_write l).1 [ none ↦ [] | some packet ↦ packet ∷ [] ]

abbrev pub after_call : Link → QueueCall → Link
after_call l (put packet) = (enqueue l packet).0
after_call l fetch = (take_write l).0

pub after_calls : Link → List QueueCall → Link
after_calls l [] = l
after_calls l (q ∷ qs) = after_calls (after_call l q) qs

pub taken : Link → List QueueCall → List (List ℕ)
taken l [] = []
taken l (q ∷ qs) = taken_by l q ++ taken (after_call l q) qs

pub given : Link → List QueueCall → List (List ℕ)
given l [] = []
given l (q ∷ qs) = given_by l q ++ given (after_call l q) qs

put_balance :
    (l : Link) (packet : List ℕ) → (enqueue l packet).0.queue ≡ l.queue ++ taken_by l (put packet)
unfolding enqueue
put_balance l packet =
    if_ind
      (λ (x : Link × Bool). x.0.queue ≡ l.queue ++ (elim x.1 [ true ↦ packet ∷ [] | false ↦ [] ]))
      (no_room l packet) (l, false) (push_back l packet, true) (λ _. sym (append-nil l.queue))
      (λ _. refl)

pop_front_balance :
    (l : Link) (q : List (List ℕ))
    → l.queue ≡ q
    → (elim (pop_front l q).1 [ none ↦ [] | some packet ↦ packet ∷ [] ]) ++ (pop_front l q).0.queue
      ≡ q
unfolding pop_front
pop_front_balance l [] e = e
pop_front_balance l (p ∷ q) e = refl

call_balance :
    (l : Link) (q : QueueCall) → given_by l q ++ (after_call l q).queue ≡ l.queue ++ taken_by l q
call_balance l (put packet) = put_balance l packet
call_balance l fetch =
    unfold take_write in (pop_front_balance l l.queue refl ∙ sym (append-nil l.queue))

-- Over any history of a link's queue, what was handed out followed by what still waits is what
-- waited at first followed by what was taken in, each packet once and in order.
pub queue_balance :
    (qs : List QueueCall) (l : Link)
    → given l qs ++ (after_calls l qs).queue ≡ l.queue ++ taken l qs
unfolding given after_calls taken
queue_balance [] l = sym (append-nil l.queue)
queue_balance (q ∷ qs) l =
    append_assoc (given_by l q) (given (after_call l q) qs) (after_calls (after_call l q) qs).queue
    ∙ ap (◌++◌ (given_by l q)) (queue_balance qs (after_call l q))
    ∙ sym (append_assoc (given_by l q) (after_call l q).queue (taken (after_call l q) qs))
    ∙ ap (λ (xs : List (List ℕ)). xs ++ taken (after_call l q) qs) (call_balance l q)
    ∙ append_assoc l.queue (taken_by l q) (taken (after_call l q) qs)
