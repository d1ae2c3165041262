-- ===== src/Ble/Core/Table.antt =====
-- The table of links: ids in order and below the next one, and at most one link to a peer.
use conest.Base.{
  ℕ, ◌+◌, ◌≤◌, ◌<◌, ◌≡◌, ◌≢◌, refl, sym, ap, ◌∙◌, subst, true, false, none, some, [], ◌∷◌, arith,
  ◌==◌, if◌then◌else◌, ltb, Bool-cases, ==_iff, inl, inr, if_ind,
}
use conest.Base.OrdMap.{
  Above, Values, lookup, insert, remove, update, insert-Above, remove-Above, update-Above,
  insert-Values, remove-Values, update-Values, lookup-Values, lookup_below,
}
use conest.Ble.Link
use conest.Ble.Link.{Link}
use conest.Ble.Core.{Links, find_peer}

-- No link leads to the peer.
abbrev pub Avoids : ℕ → Links → Type 0
Avoids peer = Values (λ (l : Link). l.peer ≢ peer)

-- No two links lead to the same peer.
abbrev pub Distinct : Links → Type 0
Distinct [] = Unit {0}
Distinct ((id, l) ∷ m) = Avoids l.peer m × Distinct m

-- Every id was given out.
abbrev pub UpTo : ℕ → Links → Type 0
UpTo n [] = Unit {0}
UpTo n ((id, l) ∷ m) = (id ≤ n) × UpTo n m

pub record IsTable (next : ℕ) (m : Links) : Type 0 where
  pub sorted : Above 0 m
  pub given : UpTo next m
  pub sound : Values Link.IsValid m
  pub distinct : Distinct m

UpTo-mono : (n p : ℕ) (m : Links) → n ≤ p → UpTo n m → UpTo p m
UpTo-mono n p [] h u = tt
UpTo-mono n p ((id, l) ∷ m) h u = (omega arith, UpTo-mono n p m h u.1)

UpTo-remove : (n id : ℕ) (m : Links) → UpTo n m → UpTo n (remove id m)
unfolding remove
UpTo-remove n id [] u = tt
UpTo-remove n id ((k, l) ∷ m) u = ground (arith, UpTo-remove n id m u.1)

UpTo-update : (n id : ℕ) (w : Link) (m : Links) → UpTo n m → UpTo n (update id w m)
unfolding update
UpTo-update n id w [] u = tt
UpTo-update n id w ((k, l) ∷ m) u = ground (arith, UpTo-update n id w m u.1)

UpTo-insert : (n id : ℕ) (w : Link) (m : Links) → UpTo n m → id ≤ n → UpTo n (insert id w m)
unfolding insert
UpTo-insert n id w [] u h = (h, tt)
UpTo-insert n id w ((k, l) ∷ m) u h = ground (arith, UpTo-insert n id w m u.1 h)

-- An id that was not given out is free.
pub lookup_next : (n id : ℕ) (m : Links) → UpTo n m → n < id → lookup id m ≡ none
unfolding lookup
lookup_next n id [] u h = refl
lookup_next n id ((k, l) ∷ m) u h = ground (arith, lookup_next n id m u.1 h)

Distinct-remove : (id : ℕ) (m : Links) → Distinct m → Distinct (remove id m)
unfolding remove
Distinct-remove id [] d = tt
Distinct-remove id ((k, l) ∷ m) d =
    ground (arith, Distinct-remove id m d.1, remove-Values (λ (x : Link). x.peer ≢ l.peer) id m d.0)

Distinct-insert :
    (id : ℕ) (w : Link) (m : Links) → Distinct m → Avoids w.peer m → Distinct (insert id w m)
unfolding insert
Distinct-insert id w [] d a = (tt, tt)
Distinct-insert id w ((k, l) ∷ m) d a =
    if_ind Distinct (k == id) ((id, w) ∷ m)
      (if ltb id k then (id, w) ∷ (k, l) ∷ m else (k, l) ∷ insert id w m) (λ _. (a.1, d.1))
      (λ _.
        if_ind Distinct (ltb id k) ((id, w) ∷ (k, l) ∷ m) ((k, l) ∷ insert id w m) (λ _. (a, d))
          (λ _. (
            insert-Values (λ (x : Link). x.peer ≢ l.peer) id w m (λ e. a.0 (sym e)) d.0,
            Distinct-insert id w m d.1 a.1,
          )))

Distinct-update :
    (id : ℕ) (l w : Link) (m : Links)
    → lookup id m ≡ some l
    → w.peer ≡ l.peer
    → Distinct m
    → Distinct (update id w m)
unfolding lookup update
Distinct-update id l w [] e h d = cc
Distinct-update id l w ((k, x) ∷ m) e h d = elim (Bool-cases (k == id)) [
  | inl same ↦ rw same (rw (h ∙ ap (λ (y : Link). y.peer) (sym (head same))) d.0, d.1)
  | inr other ↦ rw other (
    update-Values (λ (y : Link). y.peer ≢ x.peer) id w m (apart (rest other)) d.0,
    Distinct-update id l w m (rest other) h d.1,
  )
]
  where
    head : (k == id) ≡ true → x ≡ l
    head same = ground arith

    rest : (k == id) ≡ false → lookup id m ≡ some l
    rest other = ground arith

    apart : lookup id m ≡ some l → w.peer ≢ x.peer
    apart found p = lookup-Values (λ (y : Link). y.peer ≢ x.peer) id l m d.0 found (sym h ∙ p)

-- A search that finds nothing has met no link to the peer.
pub find_peer-none : (peer : ℕ) (m : Links) → find_peer peer m ≡ none → Avoids peer m
unfolding find_peer
find_peer-none peer [] e = tt
find_peer-none peer ((id, l) ∷ m) e = ground (arith, find_peer-none peer m)

pub IsTable-remove : (n id : ℕ) (m : Links) → IsTable n m → IsTable n (remove id m)
IsTable-remove n id m v = record {
  sorted = remove-Above 0 id m v.sorted;
  given = UpTo-remove n id m v.given;
  sound = remove-Values Link.IsValid id m v.sound;
  distinct = Distinct-remove id m v.distinct;
}

-- Writing a link back under its id, with the peer that it had.
pub IsTable-update :
    (n id : ℕ) (l w : Link) (m : Links)
    → lookup id m ≡ some l
    → w.peer ≡ l.peer
    → Link.IsValid w
    → IsTable n m
    → IsTable n (update id w m)
IsTable-update n id l w m e h ok v = record {
  sorted = update-Above 0 id w m v.sorted;
  given = UpTo-update n id w m v.given;
  sound = update-Values Link.IsValid id w m ok v.sound;
  distinct = Distinct-update id l w m e h v.distinct;
}

-- A link to a new peer under the next id.
pub IsTable-insert :
    (n : ℕ) (w : Link) (m : Links)
    → Avoids w.peer m
    → Link.IsValid w
    → IsTable n m
    → IsTable (n + 1) (insert (n + 1) w m)
IsTable-insert n w m a ok v = record {
  sorted = insert-Above 0 (n + 1) w m v.sorted (omega arith);
  given =
      UpTo-insert (n + 1) (n + 1) w m (UpTo-mono n (n + 1) m (omega arith) v.given) (omega arith);
  sound = insert-Values Link.IsValid (n + 1) w m ok v.sound;
  distinct = Distinct-insert (n + 1) w m v.distinct a;
}

-- The link that a search finds is in the table under its id, and no other link leads to its peer.
pub find_peer-some :
    (peer n id : ℕ) (l : Link) (m : Links)
    → Above n m
    → Distinct m
    → find_peer peer m ≡ some (id, l)
    → (l.peer ≡ peer) × (lookup id m ≡ some l) × Avoids peer (remove id m)
unfolding find_peer lookup remove
find_peer-some peer n id l [] a d e = cc
find_peer-some peer n id l ((k, x) ∷ m) a d e = elim (Bool-cases (x.peer == peer)) [
  | inl hit ↦
      let same : x.peer ≡ peer = (==_iff x.peer peer).0 hit in
      ground (arith, subst (λ (p : ℕ). Avoids p m) same d.0)
  | inr miss ↦ ground (arith, find_peer-some peer k id l m a.1 d.1, lookup_below id k m a.1)
]

-- A link to a peer that had none is the one that a search finds.
pub find_peer-insert :
    (peer id : ℕ) (w : Link) (m : Links)
    → w.peer ≡ peer
    → Avoids peer m
    → find_peer peer (insert id w m) ≡ some (id, w)
unfolding find_peer insert
find_peer-insert peer id w [] h a = ground arith
find_peer-insert peer id w ((k, l) ∷ m) h a = ground (arith, find_peer-insert peer id w m h a.1)
