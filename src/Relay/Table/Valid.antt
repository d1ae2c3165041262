-- ===== src/Relay/Table/Valid.antt =====
-- What holds of the table of rows: ids in order, the total that the triggers keep, announcements
-- never leased; and what the statements do to it.
use conest.Base.{
  ℕ, ◌+◌, ◌≤◌, ◌<◌, ◌≡◌, refl, Bool, true, false, Option, none, some, List, [], ◌∷◌, ◌++◌, arith,
  ◌==◌, if◌then◌else◌, length, All, is_some,
}
use conest.Relay.Table.{
  Row, Database, select, reject, sizes, delete, first_id, delete_id, insert, is_pairing, is_free,
}

-- The ids ascend from `n` on and stay below `m`.
abbrev pub Ids : ℕ → ℕ → List Row → Type 0
Ids n m [] = n ≤ m
Ids n m (r ∷ rs) = (n ≤ r.id) × Ids (r.id + 1) m rs

-- An announcement has no lease.
abbrev pub IsRow : Row → Type 0
IsRow r = is_pairing r.kind ≡ true → is_free r ≡ true

pub record IsValid (db : Database) : Type 0 where
  pub ids : Ids 0 db.next db.rows
  pub counted : db.total ≡ sizes db.rows
  pub announced : All IsRow db.rows

-- A row with a lease.
abbrev pub is_leased : Row → Bool
is_leased r = is_some r.lease

pub Ids-mono : (n p m : ℕ) (rs : List Row) → n ≤ p → Ids p m rs → Ids n m rs
Ids-mono n p m [] h i = omega arith
Ids-mono n p m (r ∷ rs) h i = (omega arith, i.1)

pub Ids-reject : (q : Row → Bool) (n m : ℕ) (rs : List Row) → Ids n m rs → Ids n m (reject q rs)
unfolding reject
Ids-reject q n m [] i = i
Ids-reject q n m (r ∷ rs) i =
    ground (arith, Ids-reject q (r.id + 1) m rs i.1, Ids-mono n (r.id + 1) m (reject q rs))

pub sizes-reject :
    (q : Row → Bool) (rs : List Row) → sizes (reject q rs) + sizes (select q rs) ≡ sizes rs
unfolding reject select sizes
sizes-reject q [] = refl
sizes-reject q (r ∷ rs) = ground (arith, sizes-reject q rs)

pub All-reject :
    (P : Row → Type 0) (q : Row → Bool) (rs : List Row) → All P rs → All P (reject q rs)
unfolding reject
All-reject P q [] a = tt
All-reject P q (r ∷ rs) a = ground (arith, All-reject P q rs a.1)

pub delete-IsValid : (q : Row → Bool) (db : Database) → IsValid db → IsValid (delete q db)
unfolding delete
delete-IsValid q db v = record {
  ids = Ids-reject q 0 db.next db.rows v.ids;
  counted = omega (arith, v.counted, sizes-reject q db.rows);
  announced = All-reject IsRow q db.rows v.announced;
}

pub delete_id-IsValid : (id : Option ℕ) (db : Database) → IsValid db → IsValid (delete_id id db)
unfolding delete_id
delete_id-IsValid none db v = v
delete_id-IsValid (some id) db v = delete-IsValid (λ r. r.id == id) db v

-- A subset takes no more rows and no more bytes.
pub length-select-reject :
    (p q : Row → Bool) (rs : List Row) → length (select p (reject q rs)) ≤ length (select p rs)
unfolding select reject
length-select-reject p q [] = omega arith
length-select-reject p q (r ∷ rs) = ground (arith, length-select-reject p q rs)

pub sizes-select-reject :
    (p q : Row → Bool) (rs : List Row) → sizes (select p (reject q rs)) ≤ sizes (select p rs)
unfolding select reject sizes
sizes-select-reject p q [] = omega arith
sizes-select-reject p q (r ∷ rs) = ground (arith, sizes-select-reject p q rs)

pub length-reject : (q : Row → Bool) (rs : List Row) → length (reject q rs) ≤ length rs
unfolding reject
length-reject q [] = omega arith
length-reject q (r ∷ rs) = ground (arith, length-reject q rs)

-- Deleting a row that a query found makes the table shorter.
pub length-reject_found :
    (p : Row → Bool) (id : ℕ) (rs : List Row)
    → first_id p rs ≡ some id
    → length (reject (λ r. r.id == id) rs) < length rs
unfolding reject first_id
length-reject_found p id [] h = cc
length-reject_found p id (r ∷ rs) h =
    ground (arith, length-reject_found p id rs, length-reject (λ (x : Row). x.id == id) rs)

-- An id below all is no row's.
pub reject_below :
    (id n m : ℕ) (rs : List Row) → Ids n m rs → id < n → reject (λ r. r.id == id) rs ≡ rs
unfolding reject
reject_below id n m [] i h = refl
reject_below id n m (r ∷ rs) i h = ground (arith, reject_below id (r.id + 1) m rs i.1)

first_id_above :
    (p : Row → Bool) (id n m : ℕ) (rs : List Row) → Ids n m rs → first_id p rs ≡ some id → n ≤ id
unfolding first_id
first_id_above p id n m [] i h = cc
first_id_above p id n m (r ∷ rs) i h = ground (arith, first_id_above p id (r.id + 1) m rs i.1)

-- Deleting the first row that satisfies `p` loses no row that `q` selects, where no row satisfies
-- both.
pub select-reject_found :
    (p q : Row → Bool) (id n m : ℕ) (rs : List Row)
    → Ids n m rs
    → All (λ r. p r ≡ true → q r ≡ false) rs
    → first_id p rs ≡ some id
    → select q (reject (λ r. r.id == id) rs) ≡ select q rs
unfolding select reject first_id
select-reject_found p q id n m [] i a h = refl
select-reject_found p q id n m (r ∷ rs) i a h = ground (
  arith,
  a.0,
  first_id_above p id (r.id + 1) m rs i.1,
  reject_below id (r.id + 1) m rs i.1,
  select-reject_found p q id (r.id + 1) m rs i.1 a.1,
)

-- Nor does a deletion of rows that `q` does not select.
pub select-reject_apart :
    (p q : Row → Bool) (rs : List Row)
    → All (λ r. p r ≡ true → q r ≡ false) rs
    → select q (reject p rs) ≡ select q rs
unfolding select reject
select-reject_apart p q [] a = refl
select-reject_apart p q (r ∷ rs) a = ground (arith, a.0, select-reject_apart p q rs a.1)

pub Ids-append :
    (n m : ℕ) (row : Row) (rs : List Row) → Ids n m rs → row.id ≡ m → Ids n (m + 1) (rs ++ row ∷ [])
Ids-append n m row [] i e = (omega (arith, e), omega (arith, e))
Ids-append n m row (r ∷ rs) i e = (i.0, Ids-append (r.id + 1) m row rs i.1 e)

pub sizes-append : (row : Row) (rs : List Row) → sizes (rs ++ row ∷ []) ≡ sizes rs + row.size
unfolding sizes
sizes-append row [] = omega arith
sizes-append row (r ∷ rs) = omega (arith, sizes-append row rs)

pub All_snoc :
    (P : Row → Type 0) (row : Row) (rs : List Row) → All P rs → P row → All P (rs ++ row ∷ [])
All_snoc P row [] a h = (h, tt)
All_snoc P row (r ∷ rs) a h = (a.0, All_snoc P row rs a.1 h)

pub select-append :
    (q : Row → Bool) (row : Row) (rs : List Row)
    → select q (rs ++ row ∷ []) ≡ select q rs ++ (if q row then row ∷ [] else [])
unfolding select
select-append q row [] = ground arith
select-append q row (r ∷ rs) = ground (arith, select-append q row rs)

pub insert-IsValid : (row : Row) (db : Database) → IsValid db → IsValid (insert row db)
unfolding insert
insert-IsValid row db v = record {
  ids = Ids-append 0 db.next new db.rows v.ids refl;
  counted = omega (arith, v.counted, sizes-append new db.rows);
  announced = All_snoc IsRow new db.rows v.announced (λ h. unfold is_free in refl);
}
  where
    new : Row
    new = record row { id = db.next; lease = none }
