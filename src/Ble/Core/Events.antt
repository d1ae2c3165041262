-- ===== src/Ble/Core/Events.antt =====
-- What the packets of a chunk become: events, in order, up to 40 a second from one link, in a
-- buffer that keeps the newest 256.
use conest.Base.{
  ℕ, zero, suc, ◌+◌, ◌-◌, ◌≤◌, ◌≡◌, refl, ap, sym, subst, ◌∙◌, true, false, List, [], ◌∷◌, ◌++◌,
  arith, length, length-append, length-drop, leb-false, ltb-false, ltb→lt, Bool-cases, inl, inr,
  ltb, leb, drop, take, map, min,
}
use mathlib.Core.List.{append_assoc, append-nil}
use native.Mathlib.Nat.{zero-add}
use conest.Base.Words.{add_sat32, add_sat64, u64_max}
use conest.Ble.LinkId
use conest.Ble.Link.{Link}
use conest.Ble.Core.{Core, Event, push_event, accept, deliver, drop_input}

module _ {ℓ} {A : Type ℓ} where
  -- The last `n` of a list, or all of it.
  pub keep_last : ℕ → List A → List A
  keep_last n xs = drop (length xs - n) xs

  drop-append_left : (n : ℕ) (xs ys : List A) → n ≤ length xs → drop n xs ++ ys ≡ drop n (xs ++ ys)
  drop-append_left zero xs ys h = refl
  drop-append_left (suc n) [] ys h = elim h [ ]
  drop-append_left (suc n) (x ∷ xs) ys h = drop-append_left n xs ys (omega arith)

  drop-nil : (m : ℕ) → drop {A = A} m [] ≡ []
  drop-nil zero = refl
  drop-nil (suc m) = refl

  drop-drop : (m n : ℕ) (xs : List A) → drop m (drop n xs) ≡ drop (n + m) xs
  drop-drop m zero xs = ap (λ (k : ℕ). drop k xs) (sym (zero-add m))
  drop-drop m (suc n) [] = drop-nil m ∙ sym (drop-nil (suc n + m))
  drop-drop m (suc n) (x ∷ xs) =
      drop-drop m n xs
      ∙ ap (λ (k : ℕ). drop k (x ∷ xs)) (let e : suc (n + m) ≡ suc n + m = omega arith in e)

  -- A buffer that is cut after each addition holds what one cut at the end leaves.
  keep_last-append :
      (n : ℕ) (xs ys : List A) → keep_last n (keep_last n xs ++ ys) ≡ keep_last n (xs ++ ys)
  unfolding keep_last
  keep_last-append n xs ys = rw (drop-append_left (length xs - n) xs ys (omega arith)) (
      drop-drop (length (drop (length xs - n) (xs ++ ys)) - n) (length xs - n) (xs ++ ys)
      ∙ ap (λ (k : ℕ). drop k (xs ++ ys)) cut)
    where
      cut : length xs - n + (length (drop (length xs - n) (xs ++ ys)) - n) ≡ length (xs ++ ys) - n
      cut = omega (arith, length-drop (length xs - n) (xs ++ ys), length-append xs ys)

  keep_last_short : (n : ℕ) (xs : List A) → length xs ≤ n → keep_last n xs ≡ xs
  unfolding keep_last
  keep_last_short n xs h = let e : length xs - n ≡ 0 = omega arith in ap (λ (k : ℕ). drop k xs) e

  length-keep_last : (n : ℕ) (xs : List A) → length (keep_last n xs) ≡ min n (length xs)
  unfolding keep_last
  length-keep_last n xs = omega (arith, length-drop (length xs - n) xs)

  keep_last_full :
      (n : ℕ) (xs : List A) (x : A)
      → length xs ≡ suc n
      → drop 1 xs ++ x ∷ [] ≡ keep_last (suc n) (xs ++ x ∷ [])
  unfolding keep_last
  keep_last_full n xs x h =
      let e : 1 ≡ length (xs ++ x ∷ []) - suc n = omega (arith, length-append xs (x ∷ [])) in
      drop-append_left 1 xs (x ∷ []) (omega arith) ∙ ap (λ (k : ℕ). drop k (xs ++ x ∷ [])) e

module _ (encode : List ℕ → List ℕ) (id now : ℕ) where
  abbrev pub event_of : List ℕ → Event
  event_of packet = record { link = LinkId.id id; payload = encode packet }

  -- The packets of a chunk that become events, where `n` came before them in the same second.
  abbrev pub admitted : ℕ → List (List ℕ) → List (List ℕ)
  admitted n packets = take (40 - n) packets

  push_event_parts :
      (c : Core) (event : Event)
      → length c.events ≤ 256
      → c.status.dropped_events ≤ u64_max
      → ((push_event c event).events ≡ keep_last 256 (c.events ++ event ∷ []))
        × ((push_event c event).status.dropped_input ≡ c.status.dropped_input)
        × ((push_event c event).status.dropped_events
            ≡ add_sat64 c.status.dropped_events (length c.events + 1 - 256))
  unfolding push_event
  push_event_parts c event h k = elim (Bool-cases (leb 256 (length c.events))) [
    | inl full ↦ rw full (keep_last_full 255 c.events event (ground arith), refl, ground arith)
    | inr room ↦ rw room (
      sym (
          keep_last_short 256 (c.events ++ event ∷ [])
            (omega (arith, length-append c.events (event ∷ []), ltb→lt _ _ (leb-false _ _ room)))),
      refl,
      ground arith,
    )
  ]

  -- The core `d` is `c` with an event for each of the packets `taken`, of which the buffer keeps
  -- the newest 256, and with `refused` more packets counted as dropped.
  abbrev pub Delivers : Core → List (List ℕ) → ℕ → Core → Type 0
  Delivers c taken refused d =
      (d.events ≡ keep_last 256 (c.events ++ map event_of taken))
      × (d.status.dropped_input ≡ add_sat64 c.status.dropped_input refused)
      × (d.status.dropped_events
          ≡ add_sat64 c.status.dropped_events (length c.events + length taken - 256))

  Delivers-count :
      (c d : Core) (taken : List (List ℕ)) (k k' : ℕ)
      → k ≡ k'
      → Delivers c taken k d
      → Delivers c taken k' d
  Delivers-count c d taken k k' e = subst (λ (n : ℕ). Delivers c taken n d) e

  Delivers-drop :
      (c d : Core) (refused : ℕ)
      → Delivers (drop_input c) [] refused d
      → Delivers c [] (suc refused) d
  Delivers-drop c d refused h = (h.0, omega (arith, h.1), h.2)

  Delivers-push :
      (c d : Core) (packet : List ℕ) (taken : List (List ℕ)) (refused : ℕ)
      → length c.events ≤ 256
      → c.status.dropped_events ≤ u64_max
      → Delivers (push_event c (event_of packet)) taken refused d
      → Delivers c (packet ∷ taken) refused d
  Delivers-push c d packet taken refused h k (events, input, lost) = (
    events
        ∙ ap (λ (es : List Event). keep_last 256 (es ++ map event_of taken)) p.0
        ∙ keep_last-append 256 (c.events ++ event_of packet ∷ []) (map event_of taken)
        ∙ ap (keep_last 256) (append_assoc c.events (event_of packet ∷ []) (map event_of taken)),
    input ∙ ap (λ (n : ℕ). add_sat64 n refused) p.1,
    omega (
      arith,
      lost,
      p.2,
      ap length p.0,
      length-keep_last 256 (c.events ++ event_of packet ∷ []),
      length-append c.events (event_of packet ∷ []),
    ),
  )
    where
      p :
          ((push_event c (event_of packet)).events
            ≡ keep_last 256 (c.events ++ event_of packet ∷ []))
          × ((push_event c (event_of packet)).status.dropped_input ≡ c.status.dropped_input)
          × ((push_event c (event_of packet)).status.dropped_events
              ≡ add_sat64 c.status.dropped_events (length c.events + 1 - 256))
      p = push_event_parts c (event_of packet) h k

  take_none : (m : ℕ) (packets : List (List ℕ)) → m ≡ 0 → take m packets ≡ []
  take_none m packets e = ap (λ (k : ℕ). take k packets) e

  take_first :
      (m k : ℕ) (packet : List ℕ) (packets : List (List ℕ))
      → m ≡ suc k
      → take m (packet ∷ packets) ≡ packet ∷ take k packets
  take_first m k packet packets e = ap (λ (j : ℕ). take j (packet ∷ packets)) e

  take-nil : (m : ℕ) → take {A = List ℕ} m [] ≡ []
  take-nil zero = refl
  take-nil (suc m) = refl

  abbrev heard_at : Link → Link
  heard_at link = record link { packets = add_sat32 link.packets 1; heard = now }

  abbrev flooded_by : Link → Link
  flooded_by link = record link { packets = add_sat32 link.packets 1 }

  accept_flooded :
      (c : Core) (link : Link) (packet : List ℕ)
      → ltb 40 (add_sat32 link.packets 1) ≡ true
      → (drop_input c, flooded_by link) ≡ accept encode id now (c, link) packet
  unfolding accept
  accept_flooded c link packet h = rw h refl

  accept_calm :
      (c : Core) (link : Link) (packet : List ℕ)
      → ltb 40 (add_sat32 link.packets 1) ≡ false
      → (push_event c (event_of packet), heard_at link) ≡ accept encode id now (c, link) packet
  unfolding accept
  accept_calm c link packet h = rw h refl

  -- One chunk's packets: of those that are not over the link's 40 a second each becomes an event
  -- behind the older ones, of which the newest 256 are kept; the others, and the events that were
  -- pushed out, are counted, up to the largest u64.
  pub deliver_events :
      (packets : List (List ℕ)) (c : Core) (link : Link)
      → length c.events ≤ 256
      → c.status.dropped_input ≤ u64_max
      → c.status.dropped_events ≤ u64_max
      → let taken = admitted link.packets packets in
        Delivers c taken (length packets - length taken) (deliver encode id now (c, link) packets).0
  unfolding deliver
  deliver_events [] c link h i j = rw (take-nil (40 - link.packets)) (
    sym (ap (keep_last 256) (append-nil c.events) ∙ keep_last_short 256 c.events h),
    omega arith,
    omega arith,
  )
  deliver_events (packet ∷ packets) c link h i j =
      elim (Bool-cases (ltb 40 (add_sat32 link.packets 1))) [
        | inl flooded ↦
            let none_left : 40 - link.packets ≡ 0 = omega (arith, ltb→lt _ _ flooded) in
            let none_after : 40 - (flooded_by link).packets ≡ 0 =
              omega (arith, ltb→lt _ _ flooded) in
            let d = (deliver encode id now (drop_input c, flooded_by link) packets).0 in
            let rest : Delivers (drop_input c) [] (length packets - 0) d =
              rw (take_none (40 - (flooded_by link).packets) packets none_after) at
                (deliver_events packets (drop_input c) (flooded_by link) h (omega arith) j) in
            rw
              (
                take_none (40 - link.packets) (packet ∷ packets) none_left,
                ← accept_flooded c link packet flooded,
                deliver,
              )
              (Delivers-count c d [] (suc (length packets - 0)) (suc (length packets) - 0)
                (omega arith) (Delivers-drop c d (length packets - 0) rest))
        | inr calm ↦
            let one_left : 40 - link.packets ≡ suc (40 - (heard_at link).packets) =
              omega (arith, ltb-false _ _ calm) in
            let p = push_event_parts c (event_of packet) h j in
            let taken = admitted (heard_at link).packets packets in
            let d =
              (deliver encode id now (push_event c (event_of packet), heard_at link) packets).0 in
            let rest : Delivers (push_event c (event_of packet)) taken
                (length packets - length taken) d =
              deliver_events packets (push_event c (event_of packet)) (heard_at link)
                (omega
                  (arith, ap length p.0, length-keep_last 256 (c.events ++ event_of packet ∷ [])))
                (omega (arith, p.1)) (omega (arith, p.2)) in
            rw
              (
                take_first (40 - link.packets) (40 - (heard_at link).packets) packet packets
                    one_left,
                ← accept_calm c link packet calm,
                deliver,
              )
              (Delivers-count c d (packet ∷ taken) (length packets - length taken)
                (suc (length packets) - suc (length taken)) (omega arith)
                (Delivers-push c d packet taken (length packets - length taken) h j rest))
      ]
