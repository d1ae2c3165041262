-- ===== src/Ble/Core/Valid/Reserve.antt =====
-- `reserve` and `admit_peripheral` keep the core well formed.
use conest.Base.{
  ℕ, ◌≤◌, ◌<◌, ◌≡◌, refl, Bool, true, false, not, ◌&&◌, ◌||◌, Option, none, some, arith, if_ind,
  Option-cases, Bool-cases, inl, inr, ◌==◌, min,
}
use conest.Base.OrdMap
use conest.Base.OrdMap.{
  lookup, lookup-Values, update, length-update, length-remove, remove-Above, remove-Values,
}
use conest.Ble.Link
use conest.Ble.Link.{Link, Role, central, peripheral, same_role, limit_or_zero, max_write}
use conest.Ble.Backoff.{is_waiting}
use conest.Ble.Core.{
  Core, find_peer, forget, remove, expire, place, cross, lone, reserve, preferred, ready, set_link,
  greet, admit_peripheral, peer_link,
}
use conest.Ble.Core.Table.{Avoids, IsTable-update, find_peer-some, find_peer-none}
use conest.Ble.Core.Valid.{IsValid}
use conest.Ble.Core.Valid.Frame.{remove-IsValid, expire-IsValid, expire-Avoids, place-IsValid}

-- Removing the found link of a peer leaves no link to it.
pub remove-found :
    (c : Core) (peer id now : ℕ) (old : Link)
    → IsValid c
    → find_peer peer c.links ≡ some (id, old)
    → Avoids peer (remove c id false now).links
unfolding remove forget
remove-found c peer id now old v e =
    let found = find_peer-some peer 0 id old c.links v.table.sorted v.table.distinct e in
    rw (found.1, remove) found.2

cross-IsValid :
    (c : Core) (peer : ℕ) (role : Role) (now id : ℕ) (old : Link)
    → 0 < peer
    → find_peer peer c.links ≡ some (id, old)
    → IsValid c
    → IsValid (cross c peer role now (id, old)).0
unfolding cross
cross-IsValid c peer role now id old h e v =
    if_ind (λ (x : Core × Option ℕ). IsValid x.0)
      (same_role old.role role || not (same_role role (preferred c.local peer))) (c, none)
      (place (expire (remove c id false now) now) peer role now) (λ _. v)
      (λ _.
        place-IsValid (expire (remove c id false now) now) peer role now h
          (expire-Avoids (remove c id false now) peer now (remove-found c peer id now old v e))
          (expire-IsValid (remove c id false now) now (remove-IsValid c id false now v)))

lone-IsValid :
    (c : Core) (peer : ℕ) (role : Role) (now : ℕ)
    → 0 < peer
    → find_peer peer c.links ≡ none
    → IsValid c
    → IsValid (lone c peer role now).0
unfolding lone
lone-IsValid c peer role now h e v =
    if_ind (λ (x : Core × Option ℕ). IsValid x.0)
      (same_role role central && is_waiting c.backoff peer now) (c, none)
      (place (expire c now) peer role now) (λ _. v)
      (λ _.
        place-IsValid (expire c now) peer role now h
          (expire-Avoids c peer now (find_peer-none peer c.links e)) (expire-IsValid c now v))

pub reserve-IsValid :
    (c : Core) (peer : ℕ) (role : Role) (now : ℕ) → IsValid c → IsValid (reserve c peer role now).0
unfolding reserve
reserve-IsValid c peer role now v = elim (Bool-cases (peer == c.local || peer == 0)) [
  | inl refused ↦ rw refused v
  | inr open_ ↦ rw open_ (elim (Option-cases (find_peer peer c.links)) [
    | inl e ↦ rw e (lone-IsValid c peer role now (ground arith) e v)
    | inr ((id, old), e) ↦ rw e (cross-IsValid c peer role now id old (ground arith) e v)
  ])
]

pub ready-IsValid : (c : Core) (id limit : ℕ) → IsValid c → IsValid (ready c id limit).0
unfolding ready
ready-IsValid c id limit v = elim (Option-cases (lookup id c.links)) [
  | inl e ↦ rw (e, ready) v
  | inr (link, e) ↦
      rw (e, ready)
        (if_ind (λ (x : Core × Bool). IsValid x.0) (limit == 0) (c, false)
          (
            record (set_link c id (record link { limit = some (min limit max_write) })) {
              backoff = OrdMap.remove link.peer c.backoff;
            },
            true,
          )
          (λ _. v) (λ _. set link e (lookup-Values Link.IsValid id link c.links v.table.sound e)))
]
  where
    set :
        (link : Link)
        → lookup id c.links ≡ some link
        → Link.IsValid link
        → IsValid (record (set_link c id (record link { limit = some (min limit max_write) })) {
          backoff = OrdMap.remove link.peer c.backoff;
        })
    set link e k = record {
      table =
          IsTable-update c.next id link (record link { limit = some (min limit max_write) }) c.links
            e refl
            (record {
              known = k.known;
              narrow = omega arith;
              short = k.short;
              counted = k.counted;
              light = k.light;
              filled = k.filled;
              input = k.input;
            })
            v.table;
      bounded = v.bounded;
      few = omega (
        arith,
        length-update id (record link { limit = some (min limit max_write) }) c.links,
        v.few,
      );
      backoff = record {
        sorted = remove-Above 0 link.peer c.backoff v.backoff.sorted;
        few = omega (arith, length-remove link.peer c.backoff, v.backoff.few);
        delays =
            remove-Values (λ (b : ℕ × ℕ). (30000 ≤ b.1) × (b.1 ≤ 300000)) link.peer c.backoff
              v.backoff.delays;
      };
      recent = v.recent;
    }

greet-IsValid : (x : Core × Option ℕ) (limit now : ℕ) → IsValid x.0 → IsValid (greet x limit now).0
unfolding greet
greet-IsValid (c, none) limit now v = v
greet-IsValid (c, some id) limit now v =
    if_ind (λ (x : Core × Option ℕ). IsValid x.0) (ready c id limit).1
      ((ready c id limit).0, some id) (remove (ready c id limit).0 id false now, none)
      (λ _. ready-IsValid c id limit v)
      (λ _. remove-IsValid (ready c id limit).0 id false now (ready-IsValid c id limit v))

pub admit_peripheral-IsValid :
    (c : Core) (peer limit now : ℕ) → IsValid c → IsValid (admit_peripheral c peer limit now).0
unfolding admit_peripheral
admit_peripheral-IsValid c peer limit now v = elim (Option-cases (peer_link c peer peripheral)) [
  | inl e ↦
      rw (e, admit_peripheral)
        (greet-IsValid (reserve c peer peripheral now) limit now
          (reserve-IsValid c peer peripheral now v))
  | inr (id, e) ↦ rw (e, admit_peripheral) v
]
