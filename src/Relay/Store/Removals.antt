-- ===== src/Relay/Store/Removals.antt =====
-- Deletions of rows without a lease, and the steps of a store that make them.
use conest.Base.{
  ℕ, ◌≤◌, ◌<◌, ◌≡◌, refl, ◌∙◌, Bool, true, false, ◌&&◌, Option, none, some, List, [], ◌∷◌, arith,
  ◌==◌, length, All,
}
use conest.Base.Text.{Text, same_option}
use conest.Relay.Table.{Row, Database, select, sizes, delete, first_id, delete_id, is_free}
use conest.Relay.Table.Valid.{
  IsValid, IsRow, is_leased, delete-IsValid, delete_id-IsValid, length-select-reject,
  sizes-select-reject, length-reject_found, select-reject_found, select-reject_apart,
}
use conest.Relay.Store.{Result, goes_on, refused, hangs, ◌>>=◌, is_announcement, replace_sender}

-- The database `d` is `db` less some rows without a lease.
pub record IsEviction (db d : Database) : Type 0 where
  pub valid : IsValid d
  pub leased : select is_leased d.rows ≡ select is_leased db.rows
  pub fewer : (p : Row → Bool) → length (select p d.rows) ≤ length (select p db.rows)
  pub lighter : (p : Row → Bool) → sizes (select p d.rows) ≤ sizes (select p db.rows)
  pub less : d.total ≤ db.total

pub IsEviction-refl : (db : Database) → IsValid db → IsEviction db db
IsEviction-refl db v = record {
  valid = v;
  leased = refl;
  fewer = λ p. omega arith;
  lighter = λ p. omega arith;
  less = omega arith;
}

pub IsEviction-trans : (a b c : Database) → IsEviction a b → IsEviction b c → IsEviction a c
IsEviction-trans a b c e f = record {
  valid = f.valid;
  leased = f.leased ∙ e.leased;
  fewer = λ p. omega (arith, e.fewer p, f.fewer p);
  lighter = λ p. omega (arith, e.lighter p, f.lighter p);
  less = omega (arith, e.less, f.less);
}

-- A statement that deletes free rows only.
pub delete-IsEviction :
    (q : Row → Bool) (db : Database)
    → IsValid db
    → All (λ r. q r ≡ true → is_leased r ≡ false) db.rows
    → IsEviction db (delete q db)
delete-IsEviction q db v a = record {
  valid = delete-IsValid q db v;
  leased = unfold delete in select-reject_apart q is_leased db.rows a;
  fewer = λ p. unfold delete in length-select-reject p q db.rows;
  lighter = λ p. unfold delete in sizes-select-reject p q db.rows;
  less = unfold delete in omega arith;
}

-- The deletion of the first row that satisfies a test which free rows only pass.
pub delete_found-IsEviction :
    (p : Row → Bool) (id : ℕ) (db : Database)
    → IsValid db
    → ((r : Row) → p r ≡ true → is_leased r ≡ false)
    → first_id p db.rows ≡ some id
    → IsEviction db (delete_id (some id) db)
delete_found-IsEviction p id db v free h = record {
  valid = delete_id-IsValid (some id) db v;
  leased =
      unfold delete_id delete in
      select-reject_found p is_leased id 0 db.next db.rows v.ids (all_rows db.rows) h;
  fewer = λ q. unfold delete_id delete in length-select-reject q (λ r. r.id == id) db.rows;
  lighter = λ q. unfold delete_id delete in sizes-select-reject q (λ r. r.id == id) db.rows;
  less = unfold delete_id delete in omega arith;
}
  where
    all_rows : (rs : List Row) → All (λ r. p r ≡ true → is_leased r ≡ false) rs
    all_rows [] = tt
    all_rows (r ∷ rs) = (free r, all_rows rs)

-- Such a deletion makes the table shorter.
pub delete_found_shorter :
    (p : Row → Bool) (id : ℕ) (db : Database)
    → first_id p db.rows ≡ some id
    → length (delete_id (some id) db).rows < length db.rows
unfolding delete_id delete
delete_found_shorter p id db h = length-reject_found p id db.rows h

-- A step that does not loop, and where it goes on leaves `P`.
abbrev pub Ends : (Database → Type 0) → Result → Type 0
Ends P (goes_on db) = P db
Ends P (refused r) = Unit {0}
Ends P hangs = ⊥

pub Ends-map :
    (P Q : Database → Type 0) (x : Result) → ((d : Database) → P d → Q d) → Ends P x → Ends Q x
Ends-map P Q (goes_on db) f e = f db e
Ends-map P Q (refused r) f e = tt
Ends-map P Q hangs f e = e

-- One round: what the loop does behind such a deletion it does behind the start.
pub evict_more :
    (p : Row → Bool) (id : ℕ) (db : Database) (Q : Database → Type 0) (x : Result)
    → IsValid db
    → ((r : Row) → p r ≡ true → is_leased r ≡ false)
    → first_id p db.rows ≡ some id
    → Ends (λ d. IsEviction (delete_id (some id) db) d × Q d) x
    → Ends (λ d. IsEviction db d × Q d) x
evict_more p id db Q x v free h =
    Ends-map (λ d. IsEviction (delete_id (some id) db) d × Q d) (λ d. IsEviction db d × Q d) x
      (λ d k. (
        IsEviction-trans db (delete_id (some id) db) d (delete_found-IsEviction p id db v free h)
            k.0,
        k.1,
      ))

pub Ends->>= :
    (P Q : Database → Type 0) (x : Result) (f : Database → Result)
    → ((d : Database) → P d → Ends Q (f d))
    → Ends P x
    → Ends Q (x >>= f)
Ends->>= P Q (goes_on db) f g e = g db e
Ends->>= P Q (refused r) f g e = tt
Ends->>= P Q hangs f g e = e

-- No announcement is leased.
unleased_announcements :
    (mailbox sender : Text) (rs : List Row)
    → All IsRow rs
    → All
        (λ r.
          (is_announcement mailbox r && same_option r.sender (some sender)) ≡ true
          → is_leased r ≡ false)
        rs
unleased_announcements mailbox sender [] a = tt
unleased_announcements mailbox sender (r ∷ rs) a = (
  λ h. let p = a.0 in unfold is_free in ground arith,
  unleased_announcements mailbox sender rs a.1,
)

pub replace_sender-IsEviction :
    (mailbox : Text) (sender : Option Text) (db : Database)
    → IsValid db
    → IsEviction db (replace_sender mailbox sender db)
replace_sender-IsEviction mailbox none db v = IsEviction-refl db v
replace_sender-IsEviction mailbox (some sender) db v =
    delete-IsEviction (λ r. is_announcement mailbox r && same_option r.sender (some sender)) db v
      (unleased_announcements mailbox sender db.rows v.announced)
