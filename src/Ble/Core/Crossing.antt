-- ===== src/Ble/Core/Crossing.antt =====
-- `reserve`: ids are never used twice, and a crossed pair of links converges to one direction.
use conest.Base.{
  ℕ, ◌+◌, ◌<◌, ◌≡◌, ◌≢◌, refl, ap, ◌∙◌, subst, true, false, not, ◌&&◌, ◌||◌, Option, none, some,
  arith, length, if_ind, Option-cases, Bool-cases, inl, inr, ◌==◌, leb,
}
use conest.Base.Words.{u64_max}
use conest.Base.OrdMap.{lookup, insert, length-remove_self, lookup-insert, contains_key}
use conest.Ble.Link.{Link, Role, central, peripheral, same_role, new_link}
use conest.Ble.Backoff.{is_waiting}
use conest.Ble.Core.{
  Core, find_peer, remove, expire, place, cross, lone, reserve, preferred, max_links,
}
use conest.Ble.Core.Table.{Avoids, find_peer-some, find_peer-none, find_peer-insert, lookup_next}
use conest.Ble.Core.Valid.{IsValid}
use conest.Ble.Core.Valid.Frame.{remove-IsValid, expire-IsValid, expire-Avoids}
use conest.Ble.Core.Valid.Reserve.{remove-found, reserve-IsValid}
use conest.Ble.Core.Removal.{remove_parts, expire_parts}

same_role_eq : (r s : Role) → same_role r s ≡ true → r ≡ s
same_role_eq r s h = ground arith

other_role :
    (old role best : Role) → same_role old role ≡ false → same_role role best ≡ false → old ≡ best
other_role old role best h k = ground arith

-- What a successful reservation of `peer` in `role` means, from the core before it.
pub record IsReserved (c : Core) (peer : ℕ) (role : Role) (now id : ℕ) (d : Core) : Type 0 where
  pub fresh : id ≡ c.next + 1
  pub unused : lookup id c.links ≡ none
  pub counted : d.next ≡ id
  pub here : d.local ≡ c.local
  pub found : find_peer peer d.links ≡ some (id, new_link peer role now)
  pub stored : lookup id d.links ≡ some (new_link peer role now)

abbrev Reserved : Core → ℕ → Role → ℕ → Core × Option ℕ → Type 0
Reserved c peer role now (d, none) = Unit {0}
Reserved c peer role now (d, some id) = IsReserved c peer role now id d

place-Reserved :
    (c : Core) (peer : ℕ) (role : Role) (now : ℕ)
    → IsValid c
    → Avoids peer c.links
    → Reserved c peer role now (place c peer role now)
unfolding place
place-Reserved c peer role now v a =
    if_ind (Reserved c peer role now) (leb max_links (length c.links) || leb u64_max c.next)
      (c, none)
      (record c { next = c.next + 1; links = insert (c.next + 1) link c.links }, some (c.next + 1))
      (λ _. tt)
      (λ _. record {
        fresh = refl;
        unused = lookup_next c.next (c.next + 1) c.links v.table.given (omega arith);
        counted = refl;
        here = refl;
        found = find_peer-insert peer (c.next + 1) link c.links (unfold new_link in refl) a;
        stored = ground (arith, lookup-insert (c.next + 1) (c.next + 1) link c.links);
      })
  where
    link : Link
    link = new_link peer role now

-- A reservation behind the removal of links counts from before it.
Reserved-from :
    (c b : Core) (peer : ℕ) (role : Role) (now : ℕ) (x : Core × Option ℕ)
    → b.next ≡ c.next
    → b.local ≡ c.local
    → IsValid c
    → Reserved b peer role now x
    → Reserved c peer role now x
Reserved-from c b peer role now (d, none) p q v r = tt
Reserved-from c b peer role now (d, some id) p q v r = record {
  fresh = r.fresh ∙ ap (λ (n : ℕ). n + 1) p;
  unused = lookup_next c.next id c.links v.table.given (omega (arith, r.fresh));
  counted = r.counted;
  here = r.here ∙ q;
  found = r.found;
  stored = r.stored;
}

cross-Reserved :
    (c : Core) (peer : ℕ) (role : Role) (now id : ℕ) (old : Link)
    → IsValid c
    → find_peer peer c.links ≡ some (id, old)
    → Reserved c peer role now (cross c peer role now (id, old))
unfolding cross
cross-Reserved c peer role now id old v e =
    if_ind (Reserved c peer role now)
      (same_role old.role role || not (same_role role (preferred c.local peer))) (c, none)
      (place b peer role now) (λ _. tt)
      (λ _.
        Reserved-from c b peer role now (place b peer role now)
          ((expire_parts (remove c id false now) now).0 ∙ (remove_parts c id false now).1)
          ((expire_parts (remove c id false now) now).1 ∙ (remove_parts c id false now).2) v
          (place-Reserved b peer role now
            (expire-IsValid (remove c id false now) now (remove-IsValid c id false now v))
            (expire-Avoids (remove c id false now) peer now (remove-found c peer id now old v e))))
  where
    b : Core
    b = expire (remove c id false now) now

lone-Reserved :
    (c : Core) (peer : ℕ) (role : Role) (now : ℕ)
    → IsValid c
    → find_peer peer c.links ≡ none
    → Reserved c peer role now (lone c peer role now)
unfolding lone
lone-Reserved c peer role now v e =
    if_ind (Reserved c peer role now) (same_role role central && is_waiting c.backoff peer now)
      (c, none) (place (expire c now) peer role now) (λ _. tt)
      (λ _.
        Reserved-from c (expire c now) peer role now (place (expire c now) peer role now)
          (expire_parts c now).0 (expire_parts c now).1 v
          (place-Reserved (expire c now) peer role now (expire-IsValid c now v)
            (expire-Avoids c peer now (find_peer-none peer c.links e))))

reserve-Reserved :
    (c : Core) (peer : ℕ) (role : Role) (now : ℕ)
    → IsValid c
    → Reserved c peer role now (reserve c peer role now)
unfolding reserve
reserve-Reserved c peer role now v = elim (Bool-cases (peer == c.local || peer == 0)) [
  | inl refused ↦ rw refused tt
  | inr open_ ↦ rw open_ (elim (Option-cases (find_peer peer c.links)) [
    | inl e ↦ rw e (lone-Reserved c peer role now v e)
    | inr ((id, old), e) ↦ rw e (cross-Reserved c peer role now id old v e)
  ])
]

-- A reservation that succeeds gives the id after all that were given out, which no link has, and
-- stores under it a new link to the peer in the role, which is then the peer's link.
pub reserve-IsReserved :
    (c d : Core) (peer : ℕ) (role : Role) (now id : ℕ)
    → IsValid c
    → reserve c peer role now ≡ (d, some id)
    → IsReserved c peer role now id d
reserve-IsReserved c d peer role now id v e =
    subst (Reserved c peer role now) e (reserve-Reserved c peer role now v)

-- The role of the link to a peer.
pub role_to : Core → ℕ → Option Role
role_to c peer = elim (find_peer peer c.links) [ none ↦ none | some found ↦ some found.1.role ]

role_to_found :
    (c : Core) (peer id : ℕ) (l : Link)
    → find_peer peer c.links ≡ some (id, l)
    → role_to c peer ≡ some l.role
unfolding role_to
role_to_found c peer id l e = rw (e, role_to) refl

-- The other direction, while a link to the peer is there, is taken exactly if it is preferred, and
-- there is always room for it.
cross_taken :
    (c : Core) (peer : ℕ) (role : Role) (now id : ℕ) (old : Link)
    → IsValid c
    → find_peer peer c.links ≡ some (id, old)
    → same_role old.role role ≡ false
    → same_role role (preferred c.local peer) ≡ true
    → c.next < u64_max
    → (cross c peer role now (id, old)).1 ≡ some (c.next + 1)
unfolding cross place
cross_taken c peer role now id old v e h k room =
    let found = find_peer-some peer 0 id old c.links v.table.sorted v.table.distinct e in
    ground (
      arith,
      expire_parts (remove c id false now) now,
      ap length (remove_parts c id false now).0,
      (remove_parts c id false now).1,
      length-remove_self id c.links (unfold contains_key in rw found.1 refl),
    )

-- The role in what `cross` leaves, for the other role of the two.
cross_role :
    (c : Core) (peer : ℕ) (role : Role) (now id : ℕ) (old : Link)
    → IsValid c
    → find_peer peer c.links ≡ some (id, old)
    → same_role old.role role ≡ false
    → c.next < u64_max
    → role_to (cross c peer role now (id, old)).0 peer ≡ some (preferred c.local peer)
cross_role c peer role now id old v e h room =
    elim (Bool-cases (same_role role (preferred c.local peer))) [
      | inl k ↦
          taken (cross c peer role now (id, old)) (cross-Reserved c peer role now id old v e)
            (cross_taken c peer role now id old v e h k room) (same_role_eq role _ k)
      | inr k ↦
          unfold cross in
          rw (h, k) (role_to_found c peer id old e ∙ ap some (other_role old.role role _ h k))
    ]
  where
    taken :
        (x : Core × Option ℕ)
        → Reserved c peer role now x
        → x.1 ≡ some (c.next + 1)
        → role ≡ preferred c.local peer
        → role_to x.0 peer ≡ some (preferred c.local peer)
    taken (d, none) r p q = cc
    taken (d, some id') r p q =
        role_to_found d peer id' (new_link peer role now) r.found ∙ unfold new_link in ap some q

-- A reservation that succeeds is of another device.
reserve_other :
    (c d : Core) (peer : ℕ) (role : Role) (now id : ℕ)
    → reserve c peer role now ≡ (d, some id)
    → (peer == c.local || peer == 0) ≡ false
unfolding reserve
reserve_other c d peer role now id e = elim (Bool-cases (peer == c.local || peer == 0)) [
  | inl refused ↦ cc (rw refused at e)
  | inr open_ ↦ open_
]

reserve-cross :
    (c : Core) (peer : ℕ) (role : Role) (now id : ℕ) (old : Link)
    → (peer == c.local || peer == 0) ≡ false
    → find_peer peer c.links ≡ some (id, old)
    → reserve c peer role now ≡ cross c peer role now (id, old)
unfolding reserve
reserve-cross c peer role now id old h e = rw h (rw e refl)

-- Two devices that dial each other: once both directions were reserved, in either order, the one
-- link that is left to the peer has the preferred role.
pub reserve_crossed :
    (c d : Core) (peer : ℕ) (first second : Role) (t u id : ℕ)
    → IsValid c
    → same_role first second ≡ false
    → reserve c peer first t ≡ (d, some id)
    → d.next < u64_max
    → role_to (reserve d peer second u).0 peer ≡ some (preferred c.local peer)
reserve_crossed c d peer first second t u id v h r room =
    let got = reserve-IsReserved c d peer first t id v r in
    let w : IsValid d =
      subst (λ (x : Core × Option ℕ). IsValid x.0) r (reserve-IsValid c peer first t v) in
    let apart : (peer == d.local || peer == 0) ≡ false =
      rw got.here (reserve_other c d peer first t id r) in
    ap (λ (x : Core × Option ℕ). role_to x.0 peer)
      (reserve-cross d peer second u id (new_link peer first t) apart got.found)
    ∙ cross_role d peer second u id (new_link peer first t) w got.found (unfold new_link in h) room
    ∙ ap (λ (local : ℕ). some (preferred local peer)) got.here

abbrev pub opposite : Role → Role
opposite central = peripheral
opposite peripheral = central

preferred-opposite : (a b : ℕ) → a ≢ b → preferred b a ≡ opposite (preferred a b)
unfolding preferred
preferred-opposite a b h = ground arith

-- Two different devices that dial each other, each reserving both directions in its own order,
-- keep opposite roles towards each other: the same one of the two radio links survives at both.
pub crossed_ends_agree :
    (a b a' b' : Core) (x1 x2 y1 y2 : Role) (t u v w i j : ℕ)
    → IsValid a
    → IsValid b
    → a.local ≢ b.local
    → same_role x1 x2 ≡ false
    → same_role y1 y2 ≡ false
    → reserve a b.local x1 t ≡ (a', some i)
    → reserve b a.local y1 u ≡ (b', some j)
    → a'.next < u64_max
    → b'.next < u64_max
    → (role : Role) × (role_to (reserve a' b.local x2 v).0 b.local ≡ some role)
      × (role_to (reserve b' a.local y2 w).0 a.local ≡ some (opposite role))
crossed_ends_agree a b a' b' x1 x2 y1 y2 t u v w i j va vb h hx hy ra rb na nb = (
  preferred a.local b.local,
  reserve_crossed a a' b.local x1 x2 t v i va hx ra na,
  reserve_crossed b b' a.local y1 y2 u w j vb hy rb nb
      ∙ ap some (preferred-opposite a.local b.local h),
)
