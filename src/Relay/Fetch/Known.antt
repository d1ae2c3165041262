-- ===== src/Relay/Fetch/Known.antt =====
-- What setting a lease does to the table, and that the rows a fetch reads are in it.
use conest.Base.{
  ℕ, zero, suc, ◌+◌, ◌-◌, ◌≤◌, ◌<◌, ◌≡◌, refl, sym, ap, ◌∙◌, Bool, true, false, none, some, List,
  [], ◌∷◌, arith, ◌==◌, take, All, is_some, if_ind, inl, inr, Bool-cases,
}
use conest.Base.Text.{Text, same_text, same_text_self}
use conest.Relay.Table.{
  Row, Database, select, reject, sizes, delete, set_lease, is_pairing, is_free, is_in, is_stale,
}
use conest.Relay.Table.Valid.{IsValid, IsRow, Ids, All-reject, delete-IsValid}
use conest.Relay.Store.{Config}
use conest.Relay.Fetch.{Lease, is_over, settle, is_ready, ready_rows, is_leased_as}

-- A row has the mailbox and the kind of another.
abbrev pub Alike : Row → Row → Type 0
Alike r x = (x.mailbox ≡ r.mailbox) × (x.kind ≡ r.kind)

-- The rows with the id of `r` are like it.
abbrev pub Known : List Row → Row → Type 0
Known rows r = All (λ x. (x.id == r.id) ≡ true → Alike r x) rows

pub Known-below : (r : Row) (n m : ℕ) (rows : List Row) → Ids n m rows → r.id < n → Known rows r
Known-below r n m [] i h = tt
Known-below r n m (x ∷ xs) i h =
    (λ e. ground arith, Known-below r (x.id + 1) m xs i.1 (omega (arith, i.0)))

pub Known-past :
    (x : Row) (n : ℕ) (xs rs : List Row)
    → n ≤ x.id
    → All (λ r. (x.id + 1 ≤ r.id) × Known xs r) rs
    → All (λ r. (n ≤ r.id) × Known (x ∷ xs) r) rs
Known-past x n xs [] h a = tt
Known-past x n xs (r ∷ rs) h a =
    ((omega (arith, a.0.0), ((λ e. ground (arith, a.0.0)), a.0.1)), Known-past x n xs rs h a.1)

pub select-Known :
    (p : Row → Bool) (n m : ℕ) (rows : List Row)
    → Ids n m rows
    → All (λ r. (n ≤ r.id) × Known rows r) (select p rows)
unfolding select
select-Known p n m [] i = tt
select-Known p n m (x ∷ xs) i =
    let rest = Known-past x n xs (select p xs) i.0 (select-Known p (x.id + 1) m xs i.1) in
    if_ind (All (λ r. (n ≤ r.id) × Known (x ∷ xs) r)) (p x) (x ∷ select p xs) (select p xs)
      (λ _. ((i.0, ((λ _. (refl, refl)), Known-below x (x.id + 1) m xs i.1 (omega arith))), rest))
      (λ _. rest)

pub set_lease-Known :
    (r : Row) (q : Row → Bool) (lease : Lease) (rows : List Row)
    → Known rows r
    → Known (set_lease q lease rows) r
unfolding set_lease
set_lease-Known r q lease [] k = tt
set_lease-Known r q lease (x ∷ xs) k = ground (arith, k.0, set_lease-Known r q lease xs k.1)

-- Acknowledging the rows with an id after leasing them is deleting them.
pub reject-set_lease :
    (mailbox : Text) (lease : Text × ℕ) (r : Row) (rows : List Row)
    → Known rows r
    → is_in mailbox r ≡ true
    → reject (is_leased_as mailbox lease.0) (set_lease (λ x. x.id == r.id) (some lease) rows)
      ≡ reject (λ x. x.id == r.id) (reject (is_leased_as mailbox lease.0) rows)
unfolding reject set_lease is_in
reject-set_lease mailbox lease r [] k h = refl
reject-set_lease mailbox lease r (x ∷ xs) k h = elim (Bool-cases (x.id == r.id)) [
  | inl e ↦
      let p = ap (λ (t : Text). same_text t mailbox) (k.0 e).0 in
      ground (arith, p, same_text_self lease.0, reject-set_lease mailbox lease r xs k.1 h)
  | inr e ↦ ground (arith, reject-set_lease mailbox lease r xs k.1 h)
]

pub reject-reject :
    (p q : Row → Bool) (rows : List Row) → reject p (reject q rows) ≡ reject q (reject p rows)
unfolding reject
reject-reject p q [] = refl
reject-reject p q (x ∷ xs) = ground (arith, reject-reject p q xs)

-- A table in which no row has the lease is not changed by its acknowledgement.
pub reject_none :
    (q : Row → Bool) (rows : List Row) → All (λ r. q r ≡ false) rows → reject q rows ≡ rows
unfolding reject
reject_none q [] a = refl
reject_none q (x ∷ xs) a = ground (arith, a.0, reject_none q xs a.1)

pub set_lease-Ids :
    (q : Row → Bool) (lease : Lease) (n m : ℕ) (rows : List Row)
    → Ids n m rows
    → Ids n m (set_lease q lease rows)
unfolding set_lease
set_lease-Ids q lease n m [] i = i
set_lease-Ids q lease n m (x ∷ xs) i = ground (arith, set_lease-Ids q lease (x.id + 1) m xs i.1)

pub sizes-set_lease :
    (q : Row → Bool) (lease : Lease) (rows : List Row) → sizes (set_lease q lease rows) ≡ sizes rows
unfolding set_lease sizes
sizes-set_lease q lease [] = refl
sizes-set_lease q lease (x ∷ xs) = ground (arith, sizes-set_lease q lease xs)

pub set_lease-IsRow :
    (q : Row → Bool) (lease : Lease) (rows : List Row)
    → All (λ x. q x ≡ true → is_pairing x.kind ≡ true → is_some lease ≡ false) rows
    → All IsRow rows
    → All IsRow (set_lease q lease rows)
unfolding set_lease is_free
set_lease-IsRow q lease [] b a = tt
set_lease-IsRow q lease (x ∷ xs) b a = ground (arith, a.0, b.0, set_lease-IsRow q lease xs b.1 a.1)

pub set_lease-fresh :
    (mailbox name : Text) (q : Row → Bool) (rows : List Row)
    → All (λ r. is_leased_as mailbox name r ≡ false) rows
    → All (λ r. is_leased_as mailbox name r ≡ false) (set_lease q none rows)
unfolding set_lease
set_lease-fresh mailbox name q [] a = tt
set_lease-fresh mailbox name q (x ∷ xs) a =
    ground (arith, a.0, set_lease-fresh mailbox name q xs a.1)

pub reject-Known :
    (r : Row) (q : Row → Bool) (rows : List Row) → Known rows r → Known (reject q rows) r
reject-Known r q rows k = All-reject (λ x. (x.id == r.id) ≡ true → Alike r x) q rows k

pub All-take : (P : Row → Type 0) (n : ℕ) (rows : List Row) → All P rows → All P (take n rows)
All-take P zero rows a = tt
All-take P (suc n) [] a = tt
All-take P (suc n) (x ∷ xs) a = (a.0, All-take P n xs a.1)

pub always :
    (q : Row → Bool) (rows : List Row)
    → All (λ x. q x ≡ true → is_pairing x.kind ≡ true → false ≡ false) rows
always q [] = tt
always q (x ∷ xs) = ((λ _ _. refl), always q xs)

pub settle-IsValid :
    (config : Config) (now : ℕ) (db : Database) → IsValid db → IsValid (settle config now db)
unfolding settle
settle-IsValid config now db v =
    let w = delete-IsValid (is_stale (now - config.ttl)) db v in
    let rows = (delete (is_stale (now - config.ttl)) db).rows in
    record {
      ids = set_lease-Ids (is_over now) none 0 _ rows w.ids;
      counted = w.counted ∙ sym (sizes-set_lease (is_over now) none rows);
      announced = set_lease-IsRow (is_over now) none rows (always (is_over now) rows) w.announced;
    }

pub select-is_in :
    (mailbox : Text) (rows : List Row)
    → All (λ r. is_in mailbox r ≡ true) (select (is_ready mailbox) rows)
unfolding select
select-is_in mailbox [] = tt
select-is_in mailbox (x ∷ xs) = ground (arith, select-is_in mailbox xs)

-- The rows that a loop serves are of the mailbox, and known in the table.
abbrev pub Servable : Text → List Row → Row → Type 0
Servable mailbox rows r = (is_in mailbox r ≡ true) × Known rows r

pub both :
    (mailbox : Text) (n : ℕ) (rows rs : List Row)
    → All (λ r. is_in mailbox r ≡ true) rs
    → All (λ r. (n ≤ r.id) × Known rows r) rs
    → All (Servable mailbox rows) rs
both mailbox n rows [] a b = tt
both mailbox n rows (r ∷ rs) a b = ((a.0, b.0.1), both mailbox n rows rs a.1 b.1)

pub ready_rows-Servable :
    (mailbox : Text) (limit : ℕ) (db : Database)
    → IsValid db
    → All (Servable mailbox db.rows) (ready_rows mailbox limit db)
unfolding ready_rows
ready_rows-Servable mailbox limit db v =
    All-take (Servable mailbox db.rows) limit (select (is_ready mailbox) db.rows) (
      both mailbox 0 db.rows (select (is_ready mailbox) db.rows) (select-is_in mailbox db.rows)
        (select-Known (is_ready mailbox) 0 db.next db.rows v.ids))

pub Known-kind :
    (r : Row) (lease : Lease) (rows : List Row)
    → Known rows r
    → is_pairing r.kind ≡ false
    → All (λ x. (x.id == r.id) ≡ true → is_pairing x.kind ≡ true → is_some lease ≡ false) rows
Known-kind r lease [] k h = tt
Known-kind r lease (x ∷ xs) k h =
    ((λ e p. absurd (ground (arith, ap is_pairing (k.0 e).1))), Known-kind r lease xs k.1 h)
