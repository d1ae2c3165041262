-- ===== src/Ble/Reassembler/Packets.antt =====
-- What the peer sent is what comes out: whole packets, each with its padding block or without.
use conest.Base.{
  ℕ, zero, suc, ◌-◌, ◌≤◌, ◌≡◌, refl, ap, ◌∙◌, inl, inr, List, [], ◌∷◌, ◌++◌, Option, none, some,
  arith, length, length-append, All, Bool, Bool-cases, true, false, ltb, if◌then◌else◌, replicate,
}
use mathlib.Core.List.{append_assoc, append-nil}
use conest.Base.Outcome.{Outcome, ok, err, panics}
use conest.Ble.Packet.{packet_size}
use conest.Ble.Packet.Prefix.{packet_size-append, packet_size-append_err}
use conest.Ble.Packet.Bounds.{packet_size-ne-panics, packet_size_version, packet_size-some}
use conest.Ble.Reassembler.{
  Reassembler, block_padding, settle, append, take_byte, emit, push_loop, fresh, push, Round,
}
use conest.Ble.Reassembler.Valid.{
  resume, fresh-IsValid, push_fits, IsPacket, IsPadding, IsValid, block_padding-IsPadding,
}

-- A byte inside a packet is kept and nothing comes out yet.
append_inside :
    (r : Reassembler) (b c : ℕ) (ys : List ℕ)
    → IsPacket (r.bytes ++ b ∷ c ∷ ys)
    → append r b ≡ (record r { bytes = r.bytes ++ b ∷ [] }, ok none)
unfolding append
append_inside r b c ys h = waits (packet_size (r.bytes ++ b ∷ [])) refl
  where
    bs : List ℕ
    bs = r.bytes ++ b ∷ []

    regroup : bs ++ c ∷ ys ≡ r.bytes ++ b ∷ c ∷ ys
    regroup = append_assoc r.bytes (b ∷ []) (c ∷ ys)

    waits :
        (o : Outcome (Unit {0}) (Option ℕ))
        → packet_size bs ≡ o
        → settle (record r { bytes = bs }) o ≡ (record r { bytes = bs }, ok none)
    waits (err e) p = ground (arith, packet_size-append_err bs (c ∷ ys), regroup)
    waits panics p =
        absurd (packet_size-ne-panics bs (omega (arith, length-append r.bytes (b ∷ []))) p)
    waits (ok none) p = unfold settle in refl
    waits (ok (some n)) p =
        unfold settle in
        ground (arith, packet_size-append bs (c ∷ ys) n p, regroup, length-append bs (c ∷ ys))

-- The last byte of a packet brings it out, and leaves its padding to be skipped.
append_last :
    (r : Reassembler) (b : ℕ)
    → IsPacket (r.bytes ++ b ∷ [])
    → append r b ≡ (
      record r { bytes = []; padding = block_padding (length (r.bytes ++ b ∷ [])) },
      ok (some (r.bytes ++ b ∷ [])),
    )
unfolding append settle
append_last r b h = rw h (ground arith)

-- The state behind a packet.
abbrev pub done : Reassembler → List ℕ → Reassembler
done r p = record r { bytes = []; padding = block_padding (length p) }

take_byte_inside :
    (r : Reassembler) (x : ℕ) (xs : List ℕ) (b : ℕ) → r.bytes ≡ x ∷ xs → take_byte r b ≡ append r b
unfolding take_byte
take_byte_inside r x xs b h = rw h refl

-- A round that does not fail goes on with what it leaves.
push_loop_next :
    (r s : Reassembler) (out : List (List ℕ)) (b : ℕ) (cs : List ℕ) (o : Option (List ℕ))
    → take_byte r b ≡ (s, ok o)
    → push_loop r out (b ∷ cs) ≡ push_loop s (emit out o) cs
unfolding push_loop
push_loop_next r s out b cs o h = ap (λ (y : Round). resume y out cs) h

push_loop_inside :
    (ys : List ℕ) (r : Reassembler) (out : List (List ℕ)) (rest xs : List ℕ) (x b : ℕ)
    → r.bytes ≡ x ∷ xs
    → IsPacket (r.bytes ++ b ∷ ys)
    → push_loop r out (b ∷ (ys ++ rest))
      ≡ push_loop (done r (r.bytes ++ b ∷ ys)) (out ++ (r.bytes ++ b ∷ ys) ∷ []) rest
push_loop_inside [] r out rest xs x b h p =
    push_loop_next r _ out b rest _ (take_byte_inside r x xs b h ∙ append_last r b p)
push_loop_inside (c ∷ ys) r out rest xs x b h p =
    push_loop_next r _ out b (c ∷ (ys ++ rest)) _
      (take_byte_inside r x xs b h ∙ append_inside r b c ys p)
    ∙ rw (append_assoc r.bytes (b ∷ []) (c ∷ ys)) at (
        push_loop_inside ys (record r { bytes = r.bytes ++ b ∷ [] }) out rest (xs ++ b ∷ []) x c
          (rw h refl) (rw (append_assoc r.bytes (b ∷ []) (c ∷ ys)) p))

-- Between packets the padding is skipped or forgotten, as the next byte begins a packet.
take_byte_first :
    (r : Reassembler) (b : ℕ) (ys : List ℕ)
    → r.bytes ≡ []
    → IsPadding r.padding
    → IsPacket (b ∷ ys)
    → (q : ℕ × ℕ) × (take_byte r b ≡ append (record r { padding = q }) b)
unfolding take_byte
take_byte_first r b ys h pad p = elim (Bool-cases (ltb 0 r.padding.1)) [
  | inl e ↦ ((0, 0), ground (arith, packet_size_version b ys _ p))
  | inr e ↦ (r.padding, ground arith)
]

-- A whole packet between packets comes out, whatever follows it.
pub push_loop_packet :
    (p : List ℕ) (r : Reassembler) (out : List (List ℕ)) (rest : List ℕ)
    → r.bytes ≡ []
    → IsPadding r.padding
    → IsPacket p
    → push_loop r out (p ++ rest) ≡ push_loop (done r p) (out ++ p ∷ []) rest
push_loop_packet [] r out rest h pad p = absurd (omega (arith, packet_size-some [] 0 p))
push_loop_packet (b ∷ []) r out rest h pad p = absurd (omega (arith, packet_size-some (b ∷ []) 1 p))
push_loop_packet (b ∷ c ∷ ys) r out rest h pad p =
    let (q, e) = take_byte_first r b (c ∷ ys) h pad p in
    let s : Reassembler = record r { padding = q } in
    push_loop_next r (record s { bytes = b ∷ [] }) out b (c ∷ (ys ++ rest)) none
      (e
        ∙ append_inside s b c ys (rw h p)
        ∙ ap (λ (bs : List ℕ). (record s { bytes = bs ++ b ∷ [] }, ok none)) h)
    ∙ push_loop_inside ys (record s { bytes = b ∷ [] }) out rest [] b c refl p

-- Skipping the padding block of the packet before.
pub push_loop_padding :
    (k v : ℕ) (r : Reassembler) (out : List (List ℕ)) (rest : List ℕ)
    → r.bytes ≡ []
    → r.padding ≡ (v, k)
    → push_loop r out (replicate k v ++ rest) ≡ push_loop (record r { padding = (v, 0) }) out rest
push_loop_padding zero v r out rest h e =
    ap (λ (q : ℕ × ℕ). push_loop (record r { padding = q }) out rest) e
push_loop_padding (suc k) v r out rest h e =
    push_loop_next r (record r { padding = (v, k) }) out v (replicate k v ++ rest) none
      (unfold take_byte in ground arith)
    ∙ push_loop_padding k v (record r { padding = (v, k) }) out rest h refl

-- The smallest of the four block sizes that holds 16 bytes more than the packet's `n`, if any.
abbrev pub block_of : ℕ → ℕ
block_of n =
    if ltb 2032 n
    then n
    else (if ltb 1008 n
        then 2048
        else (if ltb 496 n then 1024 else (if ltb 240 n then 512 else 256)))

-- The bytes of padding, each of which is their number; none where that is no byte.
abbrev pub padding_of : ℕ → ℕ
padding_of n = if ltb 255 (block_of n - n) then 0 else block_of n - n

block_padding_lem : (n : ℕ) → block_padding n ≡ (padding_of n, padding_of n)
unfolding block_padding
block_padding_lem n = ground arith

-- What the peer writes for a packet: the packet, and its padding block or nothing.
abbrev pub wire : List ℕ × Bool → List ℕ
wire (p, true) = p ++ replicate (padding_of (length p)) (padding_of (length p))
wire (p, false) = p

abbrev pub wires : List (List ℕ × Bool) → List ℕ
wires [] = []
wires (f ∷ fs) = wire f ++ wires fs

-- The packets among what the peer writes.
abbrev pub packets_of : List (List ℕ × Bool) → List (List ℕ)
packets_of [] = []
packets_of ((p, padded) ∷ fs) = p ∷ packets_of fs

push_loop-wires :
    (fs : List (List ℕ × Bool)) (r : Reassembler) (out : List (List ℕ))
    → r.bytes ≡ []
    → IsPadding r.padding
    → All IsPacket (packets_of fs)
    → ((push_loop r out (wires fs)).1 ≡ ok (out ++ packets_of fs))
      × ((push_loop r out (wires fs)).0.bytes ≡ [])
push_loop-wires [] r out h pad ps = unfold push_loop in (rw append-nil refl, h)
push_loop-wires ((p, false) ∷ fs) r out h pad ps =
    rw (push_loop_packet p r out (wires fs) h pad ps.0, ← append_assoc out (p ∷ []) (packets_of fs))
      (push_loop-wires fs (done r p) (out ++ p ∷ []) refl (block_padding-IsPadding (length p)) ps.1)
push_loop-wires ((p, true) ∷ fs) r out h pad ps =
    let v = padding_of (length p) in
    rw
      (
        append_assoc p (replicate v v) (wires fs),
        push_loop_packet p r out (replicate v v ++ wires fs) h pad ps.0,
        push_loop_padding v v (done r p) (out ++ p ∷ []) (wires fs) refl
            (block_padding_lem (length p)),
        ← append_assoc out (p ∷ []) (packets_of fs),
      )
      (push_loop-wires fs (record (done r p) { padding = (v, 0) }) (out ++ p ∷ []) refl (inl refl)
        ps.1)

fresh_empty : (r : Reassembler) (now : ℕ) → r.bytes ≡ [] → (fresh r now).bytes ≡ []
unfolding fresh
fresh_empty r now h = ground arith

-- From a state that waits for no packet's rest, one chunk of whole packets, each padded to the
-- next block of 256, 512, 1024 or 2048 bytes or not and at most 4096 bytes in all, returns exactly
-- these packets in order, and leaves the buffer empty again.
pub push-wires :
    (fs : List (List ℕ × Bool)) (r : Reassembler) (now : ℕ)
    → IsValid r
    → r.bytes ≡ []
    → All IsPacket (packets_of fs)
    → length (wires fs) ≤ 4096
    → ((push r (wires fs) now).1 ≡ ok (packets_of fs)) × ((push r (wires fs) now).0.bytes ≡ [])
push-wires fs r now v h ps fits =
    rw (push_fits r (wires fs) now (omega (arith, ap length (fresh_empty r now h))))
      (push_loop-wires fs (fresh r now) [] (fresh_empty r now h) (fresh-IsValid r now v).padded ps)
