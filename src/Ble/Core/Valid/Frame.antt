-- ===== src/Ble/Core/Valid/Frame.antt =====
-- Removing links, and making room for a new one.
use conest.Base.{
  ℕ, ◌+◌, ◌<◌, ◌≢◌, Bool, true, ◌&&◌, ◌||◌, Option, none, some, List, [], ◌∷◌, arith, length,
  if_ind, Option-cases, inl, inr, leb,
}
use conest.Base.Words.{u64_max}
use conest.Base.OrdMap
use conest.Base.OrdMap.{lookup, lookup-Values, length-remove, length-insert, remove-Values, insert}
use conest.Ble.Link
use conest.Ble.Link.{Link, Role, central, same_role, new_link}
use conest.Ble.Link.Valid.{new_link-IsValid}
use conest.Ble.Backoff.{back_off}
use conest.Ble.Backoff.Bounds.{back_off-IsValid}
use conest.Ble.Core.{Core, Links, max_links, forget, remove, remove_all, expire, expired, place}
use conest.Ble.Core.Table.{Avoids, IsTable-remove, IsTable-insert}
use conest.Ble.Core.Valid.{IsValid}

forget-IsValid :
    (c : Core) (id : ℕ) (failed : Bool) (now : ℕ) (link : Link)
    → 0 < link.peer
    → IsValid c
    → IsValid (forget c id failed now link)
unfolding forget
forget-IsValid c id failed now link h v =
    if_ind IsValid (failed && same_role link.role central)
      (record c { links = OrdMap.remove id c.links; backoff = back_off c.backoff link.peer now })
      (record c { links = OrdMap.remove id c.links })
      (λ _. record {
        table = IsTable-remove c.next id c.links v.table;
        bounded = v.bounded;
        few = omega (arith, length-remove id c.links, v.few);
        backoff = back_off-IsValid c.backoff link.peer now v.backoff h;
        recent = v.recent;
      })
      (λ _. record {
        table = IsTable-remove c.next id c.links v.table;
        bounded = v.bounded;
        few = omega (arith, length-remove id c.links, v.few);
        backoff = v.backoff;
        recent = v.recent;
      })

pub remove-IsValid :
    (c : Core) (id : ℕ) (failed : Bool) (now : ℕ) → IsValid c → IsValid (remove c id failed now)
unfolding remove
remove-IsValid c id failed now v = elim (Option-cases (lookup id c.links)) [
  | inl e ↦ rw (e, remove) v
  | inr (link, e) ↦
      rw (e, remove)
        (forget-IsValid c id failed now link
          (lookup-Values Link.IsValid id link c.links v.table.sound e).known v)
]

remove_all-IsValid :
    (ids : List ℕ) (c : Core) (now : ℕ) → IsValid c → IsValid (remove_all c ids now)
unfolding remove_all
remove_all-IsValid [] c now v = v
remove_all-IsValid (id ∷ ids) c now v =
    remove_all-IsValid ids (remove c id true now) now (remove-IsValid c id true now v)

pub expire-IsValid : (c : Core) (now : ℕ) → IsValid c → IsValid (expire c now)
unfolding expire
expire-IsValid c now v = remove_all-IsValid (expired now c.links) c now v

-- Removing a link makes way for none.
pub remove-Avoids :
    (c : Core) (peer id : ℕ) (failed : Bool) (now : ℕ)
    → Avoids peer c.links
    → Avoids peer (remove c id failed now).links
unfolding remove forget
remove-Avoids c peer id failed now a = elim (Option-cases (lookup id c.links)) [
  | inl e ↦ rw (e, remove) a
  | inr (link, e) ↦
      rw (e, remove)
        (if_ind (λ (x : Core). Avoids peer x.links) (failed && same_role link.role central)
          (record c {
            links = OrdMap.remove id c.links;
            backoff = back_off c.backoff link.peer now;
          })
          (record c { links = OrdMap.remove id c.links }) (λ _. gone) (λ _. gone))
]
  where
    gone : Avoids peer (OrdMap.remove id c.links)
    gone = remove-Values (λ (l : Link). l.peer ≢ peer) id c.links a

remove_all-Avoids :
    (ids : List ℕ) (c : Core) (peer now : ℕ)
    → Avoids peer c.links
    → Avoids peer (remove_all c ids now).links
unfolding remove_all
remove_all-Avoids [] c peer now a = a
remove_all-Avoids (id ∷ ids) c peer now a =
    remove_all-Avoids ids (remove c id true now) peer now (remove-Avoids c peer id true now a)

pub expire-Avoids :
    (c : Core) (peer now : ℕ) → Avoids peer c.links → Avoids peer (expire c now).links
unfolding expire
expire-Avoids c peer now a = remove_all-Avoids (expired now c.links) c peer now a

pub place-IsValid :
    (c : Core) (peer : ℕ) (role : Role) (now : ℕ)
    → 0 < peer
    → Avoids peer c.links
    → IsValid c
    → IsValid (place c peer role now).0
unfolding place
place-IsValid c peer role now h a v =
    if_ind (λ (x : Core × Option ℕ). IsValid x.0)
      (leb max_links (length c.links) || leb u64_max c.next) (c, none)
      (record c { next = c.next + 1; links = links }, some (c.next + 1)) (λ _. v)
      (λ free. record {
        table =
            IsTable-insert c.next link c.links (unfold new_link in a)
              (new_link-IsValid peer role now h) v.table;
        bounded = ground arith;
        few = ground (arith, length-insert (c.next + 1) link c.links);
        backoff = v.backoff;
        recent = v.recent;
      })
  where
    link : Link
    link = new_link peer role now

    links : Links
    links = insert (c.next + 1) link c.links
