-- ===== src/Ble/Reassembler/Valid.antt =====
-- The buffer stays bounded and always waits for something, and no chunk makes the code panic.
use conest.Base.{
  ℕ, ◌+◌, ◌-◌, ◌≤◌, ◌<◌, ◌≡◌, ◌≢◌, refl, ap, ◌⊎◌, inl, inr, List, [], ◌∷◌, ◌++◌, Option, none, some,
  arith, length, length-append, All, All-append, Bool-cases, ==_iff, ◌==◌, if_ind, if◌then◌else◌,
  ◌&&◌, ltb,
}
use conest.Base.Outcome.{Outcome, ok, err, panics}
use conest.Ble.Packet.{packet_size}
use conest.Ble.Packet.Prefix.{packet_size-append}
use conest.Ble.Packet.Bounds.{
  packet_size-ne-panics, packet_size-some, packet_size-none, packet_size_waits,
}
use conest.Ble.Reassembler.{
  Reassembler, default, block_padding, settle, append, take_byte, emit, push_loop, fresh, push,
  Round, Pushed, is_empty,
}

-- The bytes are no whole packet yet: empty, of unknown size, or shorter than their size.
abbrev pub IsPartial : List ℕ → Type 0
IsPartial bs =
    (bs ≡ [])
    ⊎ (packet_size bs ≡ ok none)
    ⊎ ((n : ℕ) × (packet_size bs ≡ ok (some n)) × (length bs < n))

-- A whole packet by its own length fields.
abbrev pub IsPacket : List ℕ → Type 0
IsPacket bs = packet_size bs ≡ ok (some (length bs))

-- No padding is awaited, or a byte that begins no packet: the versions are 1 and 2.
abbrev pub IsPadding : ℕ × ℕ → Type 0
IsPadding p = (p.1 ≡ 0) ⊎ ((16 ≤ p.0) × (p.0 ≤ 255) × (p.1 ≤ p.0))

pub record IsValid (r : Reassembler) : Type 0 where
  pub partial : IsPartial r.bytes
  pub padded : IsPadding r.padding

pub block_padding-IsPadding : (n : ℕ) → IsPadding (block_padding n)
unfolding block_padding
block_padding-IsPadding n = ground arith

-- A partial packet is shorter than `MAX_PACKET`.
pub partial_lt : (bs : List ℕ) → IsPartial bs → length bs < 4096
partial_lt bs (inl e) = omega (arith, ap length e)
partial_lt bs (inr (inl e)) = omega (arith, packet_size-none bs e)
partial_lt bs (inr (inr (n, e, h))) = omega (arith, packet_size-some bs n e)

abbrev IsRound : Round → Type 0
IsRound (r, ok none) = IsValid r
IsRound (r, ok (some raw)) = IsValid r × IsPacket raw
IsRound (r, err e) = IsValid r
IsRound (r, panics) = ⊥

pub default-IsValid : IsValid default
default-IsValid = record { partial = inl refl; padded = inl refl }

-- The byte that a partial packet takes does not put it past its size.
pub grows :
    (bs : List ℕ) (b n : ℕ)
    → IsPartial bs
    → packet_size (bs ++ b ∷ []) ≡ ok (some n)
    → length bs + 1 ≤ n
grows bs b n (inl e) h = omega (arith, ap length e, packet_size-some _ n h)
grows bs b n (inr (inl e)) h = packet_size_waits bs b n e h
grows bs b n (inr (inr (m, e, lt))) h = ground (arith, packet_size-append bs (b ∷ []) m e)

settle-IsRound :
    (r : Reassembler) (o : Outcome (Unit {0}) (Option ℕ))
    → packet_size r.bytes ≡ o
    → o ≢ panics
    → ((n : ℕ) → o ≡ ok (some n) → length r.bytes ≤ n)
    → IsPadding r.padding
    → IsRound (settle r o)
unfolding settle
settle-IsRound r (err e) p safe bound pad = default-IsValid
settle-IsRound r panics p safe bound pad = safe refl
settle-IsRound r (ok none) p safe bound pad = record { partial = inr (inl p); padded = pad }
settle-IsRound r (ok (some n)) p safe bound pad = elim (Bool-cases (n == length r.bytes)) [
  | inl e ↦ rw e (
    record { partial = inl refl; padded = block_padding-IsPadding (length r.bytes) },
    rw (← (==_iff n (length r.bytes)).0 e) p,
  )
  | inr e ↦ rw e (record { partial = inr (inr (n, p, ground (arith, bound n refl))); padded = pad })
]

pub append-IsRound : (r : Reassembler) (b : ℕ) → IsValid r → IsRound (append r b)
unfolding append
append-IsRound r b v =
    settle-IsRound (record r { bytes = r.bytes ++ b ∷ [] }) (packet_size (r.bytes ++ b ∷ [])) refl
      (packet_size-ne-panics _ (omega (arith, length-append r.bytes (b ∷ []))))
      (λ n e. omega (arith, grows r.bytes b n v.partial e, length-append r.bytes (b ∷ []))) v.padded

shorter : (p : ℕ × ℕ) → IsPadding p → IsPadding (p.0, p.1 - 1)
shorter p h = ground arith

pub take_byte-IsRound : (r : Reassembler) (b : ℕ) → IsValid r → IsRound (take_byte r b)
unfolding take_byte
take_byte-IsRound r b v =
    if_ind IsRound (is_empty r.bytes && ltb 0 r.padding.1)
      (if b == r.padding.0
        then (record r { padding = (r.padding.0, r.padding.1 - 1) }, ok none)
        else append (record r { padding = (0, 0) }) b)
      (append r b)
      (λ waits.
        if_ind IsRound (b == r.padding.0)
          (record r { padding = (r.padding.0, r.padding.1 - 1) }, ok none)
          (append (record r { padding = (0, 0) }) b)
          (λ pad. record { partial = v.partial; padded = shorter r.padding v.padded })
          (λ other.
            append-IsRound (record r { padding = (0, 0) }) b
              (record { partial = v.partial; padded = inl refl })))
      (λ plain. append-IsRound r b v)

abbrev pub IsPushed : Pushed → Type 0
IsPushed (r, ok packets) = IsValid r × All IsPacket packets
IsPushed (r, err e) = IsValid r
IsPushed (r, panics) = ⊥

-- What follows a round of the loop.
abbrev pub resume : Round → List (List ℕ) → List ℕ → Pushed
resume x out chunk = elim x.1 [
  | ok raw ↦ push_loop x.0 (emit out raw) chunk
  | err e ↦ (x.0, err e)
  | panics ↦ (x.0, panics)
]

resume-IsPushed :
    (x : Round) (out : List (List ℕ)) (chunk : List ℕ)
    → IsRound x
    → All IsPacket out
    → ((r : Reassembler) (out' : List (List ℕ))
        → IsValid r
        → All IsPacket out'
        → IsPushed (push_loop r out' chunk))
    → IsPushed (resume x out chunk)
resume-IsPushed (r, ok none) out chunk w h rec = rec r out w h
resume-IsPushed (r, ok (some raw)) out chunk w h rec =
    rec r (out ++ raw ∷ []) w.0 (All-append IsPacket out (raw ∷ []) h (w.1, tt))
resume-IsPushed (r, err e) out chunk w h rec = w
resume-IsPushed (r, panics) out chunk w h rec = w

push_loop-IsPushed :
    (chunk : List ℕ) (r : Reassembler) (out : List (List ℕ))
    → IsValid r
    → All IsPacket out
    → IsPushed (push_loop r out chunk)
unfolding push_loop
push_loop-IsPushed [] r out v h = (v, h)
push_loop-IsPushed (b ∷ chunk) r out v h =
    resume-IsPushed (take_byte r b) out chunk (take_byte-IsRound r b v) h
      (λ r' out' v' h'. push_loop-IsPushed chunk r' out' v' h')

pub fresh-IsValid : (r : Reassembler) (now : ℕ) → IsValid r → IsValid (fresh r now)
unfolding fresh
fresh-IsValid r now v = elim (Bool-cases (ltb 5000 (now - r.last))) [
  | inl e ↦ rw e (record { partial = inl refl; padded = inl refl })
  | inr e ↦ rw e (record { partial = v.partial; padded = v.padded })
]

-- From a valid state `push` never panics, leaves a valid state whether it succeeds or fails, so
-- that the buffer waits for its packet with fewer than 4096 bytes, and every packet that it
-- returns is whole by its own length fields and at most 4096 bytes long.
pub push-IsValid :
    (r : Reassembler) (chunk : List ℕ) (now : ℕ) → IsValid r → IsPushed (push r chunk now)
unfolding push
push-IsValid r chunk now v =
    if_ind IsPushed (ltb 4096 (length chunk)) (default, err tt)
      (if ltb 4096 (length (fresh r now).bytes + length chunk)
        then (default, err tt)
        else push_loop (fresh r now) [] chunk)
      (λ _. default-IsValid)
      (λ _.
        if_ind IsPushed (ltb 4096 (length (fresh r now).bytes + length chunk)) (default, err tt)
          (push_loop (fresh r now) [] chunk) (λ _. default-IsValid)
          (λ _. push_loop-IsPushed chunk (fresh r now) [] (fresh-IsValid r now v) tt))

-- A chunk for which there is room goes to the loop.
pub push_fits :
    (r : Reassembler) (chunk : List ℕ) (now : ℕ)
    → length (fresh r now).bytes + length chunk ≤ 4096
    → push r chunk now ≡ push_loop (fresh r now) [] chunk
unfolding push
push_fits r chunk now h = ground arith
