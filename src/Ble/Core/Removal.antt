-- ===== src/Ble/Core/Removal.antt =====
-- What `remove` and `expire` take away, and what they leave.
use conest.Base.{
  ℕ, ◌+◌, ◌↔◌, ◌≤◌, ◌≡◌, refl, ap, sym, subst, ◌∙◌, Bool, true, false, Option, none, some, List, [],
  ◌∷◌, arith, length, Option-cases, Bool-cases, inl, inr, if◌then◌else◌, ◌==◌,
}
use conest.Base.OrdMap
use conest.Base.OrdMap.{Above, lookup, remove-Above, length-remove, lookup-remove, lookup_below}
use conest.Ble.Link.{Link, is_expired}
use conest.Ble.Core.{Core, Links, forget, remove, remove_all, expire, expired}
use conest.Ble.Core.Valid.{IsValid}

-- The links and the ids behind `remove`, whatever it notes of the peer.
pub remove_parts :
    (c : Core) (id : ℕ) (failed : Bool) (now : ℕ)
    → ((remove c id failed now).links ≡ OrdMap.remove id c.links)
      × ((remove c id failed now).next ≡ c.next)
      × ((remove c id failed now).local ≡ c.local)
      × ((remove c id failed now).events ≡ c.events)
unfolding remove forget
remove_parts c id failed now = elim (Option-cases (lookup id c.links)) [
  | inl e ↦ rw (e, remove) (sym (OrdMap.remove_absent id c.links e), refl, refl, refl)
  | inr (link, e) ↦ rw (e, remove) (ground arith)
]

remove_all_parts :
    (ids : List ℕ) (c : Core) (now : ℕ)
    → ((remove_all c ids now).next ≡ c.next)
      × ((remove_all c ids now).local ≡ c.local)
      × ((remove_all c ids now).events ≡ c.events)
      × (length (remove_all c ids now).links ≤ length c.links)
unfolding remove_all
remove_all_parts [] c now = (refl, refl, refl, omega arith)
remove_all_parts (id ∷ ids) c now =
    let p = remove_parts c id true now in
    let q = remove_all_parts ids (remove c id true now) now in
    (q.0 ∙ p.1, q.1 ∙ p.2, q.2 ∙ p.3, omega (arith, q.3, ap length p.0, length-remove id c.links))

pub expire_parts :
    (c : Core) (now : ℕ)
    → ((expire c now).next ≡ c.next)
      × ((expire c now).local ≡ c.local)
      × ((expire c now).events ≡ c.events)
      × (length (expire c now).links ≤ length c.links)
unfolding expire
expire_parts c now = remove_all_parts (expired now c.links) c now

-- Whether an id is in a list.
abbrev mem : ℕ → List ℕ → Bool
mem id [] = false
mem id (k ∷ ks) = if k == id then true else mem id ks

lookup-remove_all :
    (ids : List ℕ) (c : Core) (now id : ℕ)
    → Above 0 c.links
    → lookup id (remove_all c ids now).links ≡ (if mem id ids then none else lookup id c.links)
unfolding remove_all
lookup-remove_all [] c now id a = refl
lookup-remove_all (k ∷ ids) c now id a =
    let p = (remove_parts c k true now).0 in
    ground (
      arith,
      lookup-remove_all ids (remove c k true now) now id
          (subst (Above 0) (sym p) (remove-Above 0 k c.links a)),
      ap (lookup id) p,
      lookup-remove id k 0 c.links a,
    )

mem-expired_below : (m : Links) (n now id : ℕ) → Above n m → id ≤ n → mem id (expired now m) ≡ false
unfolding expired
mem-expired_below [] n now id a h = refl
mem-expired_below ((k, x) ∷ m) n now id a h = ground (arith, mem-expired_below m k now id a.1)

mem-expired :
    (m : Links) (n now id : ℕ) (l : Link)
    → Above n m
    → lookup id m ≡ some l
    → mem id (expired now m) ≡ is_expired l now
unfolding expired lookup
mem-expired [] n now id l a e = cc
mem-expired ((k, x) ∷ m) n now id l a e = elim (Bool-cases (k == id)) [
  | inl same ↦
      let head : x ≡ l = ground arith in
      ground (arith, mem-expired_below m k now id a.1, ap (λ (y : Link). is_expired y now) head)
  | inr other ↦ ground (arith, mem-expired m k now id l a.1)
]

-- What a look for a link finds once the expired ones are gone.
abbrev unexpired : ℕ → Option Link → Option Link
unexpired now none = none
unexpired now (some l) = if is_expired l now then none else some l

lookup-unexpired :
    (c : Core) (now id : ℕ)
    → IsValid c
    → lookup id (expire c now).links ≡ unexpired now (lookup id c.links)
unfolding expire
lookup-unexpired c now id v =
    let p = lookup-remove_all (expired now c.links) c now id v.table.sorted in
    elim (Option-cases (lookup id c.links)) [
      | inl e ↦ p ∙ rw e (ground arith)
      | inr (l, e) ↦ p ∙ rw (mem-expired c.links 0 now id l v.table.sorted e, e) refl
    ]

-- A link that is on time: it is ready or at most 15 seconds old, and it was heard at most two
-- minutes ago.
pub record IsOnTime (l : Link) (now : ℕ) : Type 0 where
  pub ready : l.limit ≡ none → now ≤ l.since + 15000
  pub heard : now ≤ l.heard + 120000

is_expired_iff : (l : Link) (now : ℕ) → (is_expired l now ≡ false) ↔ IsOnTime l now
unfolding is_expired
is_expired_iff l now = elim (Option-cases l.limit) [
  | inl e ↦ (
    λ h. record { ready = λ _. ground (arith, rw e at h); heard = ground (arith, rw e at h) },
    λ on. let r = on.ready e in let q = on.heard in rw e (ground arith),
  )
  | inr (n, e) ↦ (
    λ h. record { ready = λ z. absurd (cc (z, e)); heard = ground (arith, rw e at h) },
    λ on. let q = on.heard in rw e (ground arith),
  )
]

link_injective : {k l : Link} → some k ≡ some l → k ≡ l
link_injective h = cc h

unexpired_iff :
    (o : Option Link) (l : Link) (now : ℕ)
    → (unexpired now o ≡ some l) ↔ (o ≡ some l) × IsOnTime l now
unexpired_iff none l now = (λ h. absurd (cc h), λ h. absurd (cc h.0))
unexpired_iff (some k) l now = elim (Bool-cases (is_expired k now)) [
  | inl e ↦ (
    λ h. absurd (cc (rw e at h)),
    λ h.
        let late = subst (λ x. is_expired x now ≡ true) (link_injective h.0) e in
        absurd (cc ((is_expired_iff l now).1 h.1, late)),
  )
  | inr e ↦ (
    λ h.
        let same = rw e at h in
        (same, subst (λ x. IsOnTime x now) (link_injective same) ((is_expired_iff k now).0 e)),
    λ h. rw e h.0,
  )
]

-- `expire` keeps of a valid core exactly the links that are on time, as they were: those that are
-- ready or at most 15 seconds old, and were heard within two minutes.
pub lookup-expire :
    (c : Core) (now id : ℕ) (l : Link)
    → IsValid c
    → (lookup id (expire c now).links ≡ some l) ↔ (lookup id c.links ≡ some l) × IsOnTime l now
lookup-expire c now id l v =
    rw (lookup-unexpired c now id v) (unexpired_iff (lookup id c.links) l now)
