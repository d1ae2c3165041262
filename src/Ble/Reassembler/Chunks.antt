-- ===== src/Ble/Reassembler/Chunks.antt =====
-- How the radio cuts the bytes into chunks does not matter.
use conest.Base.{
  ℕ, suc, ◌+◌, ◌-◌, ◌≤◌, ◌≡◌, refl, sym, ◌∙◌, ap, List, [], ◌∷◌, ◌++◌, Option, none, some, arith,
  length, length-append,
}
use conest.Base.Outcome.{Outcome, ok, err, panics}
use mathlib.Core.List.{append_assoc, append-nil}
use conest.Ble.Packet.{packet_size}
use conest.Ble.Reassembler.{
  Reassembler, settle, append, take_byte, emit, push_loop, fresh, push, Round, Pushed,
}
use conest.Ble.Reassembler.Valid.{resume, push_fits}

push_loop-append :
    (a b : List ℕ) (r r' : Reassembler) (out mid : List (List ℕ))
    → push_loop r out a ≡ (r', ok mid)
    → push_loop r out (a ++ b) ≡ push_loop r' mid b
unfolding push_loop
push_loop-append [] b r r' out mid h = cc
push_loop-append (x ∷ a) b r r' out mid h =
    after (take_byte r x) (λ s o. push_loop-append a b s r' o mid) h
  where
    after :
        (y : Round)
        → ((s : Reassembler) (o : List (List ℕ))
            → push_loop s o a ≡ (r', ok mid)
            → push_loop s o (a ++ b) ≡ push_loop r' mid b)
        → resume y out a ≡ (r', ok mid)
        → resume y out (a ++ b) ≡ push_loop r' mid b
    after (s, ok o) rec e = rec s (emit out o) e
    after (s, err e') rec e = cc
    after (s, panics) rec e = cc

-- The parts of a state that decide what comes out; `last` only dates it.
abbrev pub Same : Reassembler → Reassembler → Type 0
Same r s = (r.bytes ≡ s.bytes) × (r.padding ≡ s.padding)

settle-Same :
    (r s : Reassembler) (o : Outcome (Unit {0}) (Option ℕ))
    → Same r s
    → Same (settle r o).0 (settle s o).0 × ((settle r o).1 ≡ (settle s o).1)
unfolding settle
settle-Same r s (err e) h = ((refl, refl), refl)
settle-Same r s panics h = (h, refl)
settle-Same r s (ok size) h = ground arith

take_byte-Same :
    (r s : Reassembler) (b : ℕ)
    → Same r s
    → Same (take_byte r b).0 (take_byte s b).0 × ((take_byte r b).1 ≡ (take_byte s b).1)
unfolding take_byte append
take_byte-Same r s b h = ground (
  arith,
  settle-Same (record r { bytes = r.bytes ++ b ∷ [] }) (record s { bytes = r.bytes ++ b ∷ [] })
      (packet_size (r.bytes ++ b ∷ [])),
  settle-Same (record r { bytes = r.bytes ++ b ∷ []; padding = (0, 0) })
      (record s { bytes = r.bytes ++ b ∷ []; padding = (0, 0) }) (packet_size (r.bytes ++ b ∷ [])),
)

-- A round that does not fail adds a byte at most, and keeps the date.
take_byte_kept :
    (r s : Reassembler) (b : ℕ) (o : Option (List ℕ))
    → take_byte r b ≡ (s, ok o)
    → (length s.bytes ≤ length r.bytes + 1) × (s.last ≡ r.last)
unfolding take_byte append settle
take_byte_kept r s b o h = ground (arith, length-append r.bytes (b ∷ []))

-- What was returned before joins what a later chunk returns.
abbrev pub prepend :
    List (List ℕ) → Outcome (Unit {0}) (List (List ℕ)) → Outcome (Unit {0}) (List (List ℕ))
prepend out (ok packets) = ok (out ++ packets)
prepend out (err e) = err e
prepend out panics = panics

-- Two runs agree but for the date, and for what was returned before.
abbrev pub Joins : List (List ℕ) → Pushed → Pushed → Type 0
Joins out x y = Same y.0 x.0 × (y.1 ≡ prepend out x.1)

push_loop-Joins :
    (chunk : List ℕ) (r s : Reassembler) (out before : List (List ℕ))
    → Same s r
    → Joins before (push_loop r out chunk) (push_loop s (before ++ out) chunk)
unfolding push_loop
push_loop-Joins [] r s out before h = (h, refl)
push_loop-Joins (b ∷ chunk) r s out before h =
    after (take_byte r b) (take_byte s b) (take_byte-Same s r b h)
      (λ r' s' o h'. push_loop-Joins chunk r' s' o before h')
  where
    after :
        (x y : Round)
        → Same y.0 x.0 × (y.1 ≡ x.1)
        → ((r' s' : Reassembler) (o : List (List ℕ))
            → Same s' r'
            → Joins before (push_loop r' o chunk) (push_loop s' (before ++ o) chunk))
        → Joins before (resume x out chunk) (resume y (before ++ out) chunk)
    after (r', ok none) (s', y) k rec = rw k.1 (rec r' s' out k.0)
    after (r', ok (some raw)) (s', y) k rec =
        rw (k.1, append_assoc before out (raw ∷ [])) (rec r' s' (out ++ raw ∷ []) k.0)
    after (r', err e) (s', y) k rec = rw k.1 (k.0, refl)
    after (r', panics) (s', y) k rec = rw k.1 (k.0, refl)

push_loop_kept :
    (chunk : List ℕ) (r s : Reassembler) (out packets : List (List ℕ))
    → push_loop r out chunk ≡ (s, ok packets)
    → (length s.bytes ≤ length r.bytes + length chunk) × (s.last ≡ r.last)
unfolding push_loop
push_loop_kept [] r s out packets h = ground arith
push_loop_kept (b ∷ chunk) r s out packets h =
    after (take_byte r b) refl h (λ r' o e. push_loop_kept chunk r' s o packets e)
  where
    after :
        (x : Round)
        → take_byte r b ≡ x
        → resume x out chunk ≡ (s, ok packets)
        → ((r' : Reassembler) (o : List (List ℕ))
            → push_loop r' o chunk ≡ (s, ok packets)
            → (length s.bytes ≤ length r'.bytes + length chunk) × (s.last ≡ r'.last))
        → (length s.bytes ≤ length r.bytes + suc (length chunk)) × (s.last ≡ r.last)
    after (r', ok o) e k rec = ground (arith, rec r' (emit out o) k, take_byte_kept r r' b o e)
    after (r', err e') e k rec = cc
    after (r', panics) e k rec = cc

fresh_kept : (r s : Reassembler) (t u : ℕ) → s.last ≡ t → u - t ≤ 5000 → Same (fresh s u) s
unfolding fresh
fresh_kept r s t u e h = ground arith

-- Where a chunk succeeds at `t` and the next comes at `u`, at most 5 seconds later, with room for
-- both, the two together at `t` leave the same buffer and padding, and return the packets of the
-- first followed by those of the second, or fail as the second does.
pub push-append :
    (a b : List ℕ) (r s : Reassembler) (t u : ℕ) (packets : List (List ℕ))
    → push r a t ≡ (s, ok packets)
    → u - t ≤ 5000
    → length (fresh r t).bytes + length a + length b ≤ 4096
    → Joins packets (push s b u) (push r (a ++ b) t)
push-append a b r s t u packets h soon room =
    rw
      (
        push_fits s b u (omega (arith, kept, ap length same.0)),
        push_fits r (a ++ b) t (omega (arith, length-append a b)),
        push_loop-append a b (fresh r t) s [] packets first,
      )
      (rw append-nil at (push_loop-Joins b (fresh s u) s [] packets (sym same.0, sym same.1)))
  where
    first : push_loop (fresh r t) [] a ≡ (s, ok packets)
    first = sym (push_fits r a t (omega arith)) ∙ h

    kept : (length s.bytes ≤ length (fresh r t).bytes + length a) × (s.last ≡ t)
    kept = unfold fresh in push_loop_kept a (fresh r t) s [] packets first

    same : Same (fresh s u) s
    same = fresh_kept r s t u kept.1 soon
