-- ===== src/Updater/Synced.antt =====
-- After an attempt that goes through, the bundle is the staged directory, whatever it was.
use conest.Base.{
  ℕ, zero, suc, ◌≡◌, refl, sym, ap, subst, ◌∙◌, length, length-append, true, false, Option, none,
  some, List, [], ◌∷◌, if◌then◌else◌, arith, Bool-cases, Option-cases, inl, inr, if_ind,
}
use conest.Base.Text.{Text, same_text, same_text_self, same_text→≡}
use conest.Updater.{
  Node, file, dir, Entries, end, entry, lookup, erase, put, updating, temporary, is_dir, copy_file,
  entries_at, copy_entries, remove_stale_entries, remove_stale_within, sync_directories,
  run_attempts,
}

lookup-erase :
    (n k : Text) (d : Entries) → lookup n (erase k d) ≡ (if same_text k n then none else lookup n d)
unfolding lookup erase
lookup-erase n k end = ground arith
lookup-erase n k (entry m node rest) = ground (
  arith,
  lookup-erase n k rest,
  same_text→≡ m k,
  same_text→≡ m n,
  same_text→≡ k n,
  same_text_self n,
  same_text_self k,
)

lookup-erase_other :
    (n k : Text) (d : Entries) → same_text k n ≡ false → lookup n (erase k d) ≡ lookup n d
lookup-erase_other n k d h = lookup-erase n k d ∙ rw h refl

lookup-copy_file :
    (n name : Text) (bytes : List ℕ) (d : Entries)
    → same_text (temporary name) n ≡ false
    → lookup n (copy_file name bytes d)
      ≡ (if same_text name n then some (file bytes) else lookup n d)
unfolding lookup copy_file
lookup-copy_file n name bytes d h = elim (Bool-cases (same_text name n)) [
  | inl same ↦ rw same refl
  | inr other ↦
      let t = temporary name in
      let cleared = if is_dir (lookup name d) then erase name d else d in
      let copied = put t (file bytes) (erase t cleared) in
      rw other (
        lookup-erase_other n name (erase t (erase name copied)) other
        ∙ lookup-erase_other n t (erase name copied) h
        ∙ lookup-erase_other n name copied other
        ∙ rw h refl
        ∙ lookup-erase_other n t (erase t cleared) h
        ∙ lookup-erase_other n t cleared h
        ∙ if_ind (λ (x : Entries). lookup n x ≡ lookup n d) (is_dir (lookup name d)) (erase name d)
            d (λ _. lookup-erase_other n name d other) (λ _. refl))
]

-- A name is not touched by copying these entries.
abbrev Apart : Text → Entries → Type 0
Apart n end = Unit {0}
Apart n (entry k node rest) =
    (same_text k n ≡ false) × (same_text (temporary k) n ≡ false) × Apart n rest

lookup-copy_other :
    (n : Text) (source d : Entries) → Apart n source → lookup n (copy_entries source d) ≡ lookup n d
unfolding copy_entries lookup
lookup-copy_other n end d a = refl
lookup-copy_other n (entry k (file b) rest) d a =
    lookup-copy_other n rest (copy_file k b d) a.2 ∙ lookup-copy_file n k b d a.1 ∙ rw a.0 refl
lookup-copy_other n (entry k (dir es) rest) d a =
    lookup-copy_other n rest _ a.2 ∙ ground (arith, lookup-erase n k d)

-- No two entries of a directory share a name, and none has the temporary name of a later one.
unfoldable pub WellFormed : Entries → Type 0
WellFormed end = Unit {0}
WellFormed (entry n (file b) rest) = Apart n rest × WellFormed rest
WellFormed (entry n (dir es) rest) = Apart n rest × WellFormed es × WellFormed rest

some_injective : {A : Type 0} {a b : A} → some a ≡ some b → a ≡ b
some_injective h = cc h

abbrev inside : Node → Entries
inside (dir es) = es
inside (file b) = end

temporary_other : (n : Text) → same_text (temporary n) n ≡ false
unfolding temporary
temporary_other n = elim (Bool-cases (same_text (temporary n) n)) [
  | inl same ↦
      let longer = ap length (same_text→≡ (temporary n) n same) in
      absurd (omega (arith, longer, length-append n updating))
  | inr other ↦ other
]

-- The entry of a name behind the copy of the later ones.
Apart-from : (k n : Text) (rest : Entries) → same_text k n ≡ true → Apart k rest → Apart n rest
Apart-from k n rest same a = subst (λ x. Apart x rest) (same_text→≡ k n same) a

temporary_from : (k n : Text) → same_text k n ≡ true → same_text (temporary k) n ≡ false
temporary_from k n same =
    subst (λ x. same_text (temporary k) x ≡ false) (same_text→≡ k n same) (temporary_other k)

-- A file of the source, and a directory, behind the copy.
copied_file :
    (n : Text) (b : List ℕ) (source d : Entries)
    → WellFormed source
    → lookup n source ≡ some (file b)
    → lookup n (copy_entries source d) ≡ some (file b)
unfolding WellFormed copy_entries lookup
copied_file n b end d w h = absurd (cc h)
copied_file n b (entry k (file c) rest) d w h = elim (Bool-cases (same_text k n)) [
  | inl same ↦
      lookup-copy_other n rest (copy_file k c d) (Apart-from k n rest same w.0)
      ∙ lookup-copy_file n k c d (temporary_from k n same)
      ∙ rw same (rw (same, lookup) at h)
  | inr other ↦ copied_file n b rest (copy_file k c d) w.1 (rw (other, lookup) at h)
]
copied_file n b (entry k (dir es) rest) d w h = elim (Bool-cases (same_text k n)) [
  | inl same ↦ absurd (ground (arith, h, same))
  | inr other ↦ copied_file n b rest _ w.2 (rw (other, lookup) at h)
]

copied_dir :
    (n : Text) (es source d : Entries)
    → WellFormed source
    → lookup n source ≡ some (dir es)
    → (sub : Entries) × (lookup n (copy_entries source d) ≡ some (dir (copy_entries es sub)))
      × WellFormed es
unfolding WellFormed copy_entries lookup
copied_dir n es end d w h = absurd (cc h)
copied_dir n es (entry k (file c) rest) d w h = elim (Bool-cases (same_text k n)) [
  | inl same ↦ absurd (ground (arith, h, same))
  | inr other ↦ copied_dir n es rest (copy_file k c d) w.1 (rw (other, lookup) at h)
]
copied_dir n es (entry k (dir fs) rest) d w h = elim (Bool-cases (same_text k n)) [
  | inl same ↦
      let sub = entries_at (lookup k d) in
      let found : dir fs ≡ dir es = some_injective (rw (same, lookup) at h) in
      let inner : fs ≡ es = ap inside found in
      (
        sub,
        lookup-copy_other n rest (put k (dir (copy_entries fs sub)) d)
              (Apart-from k n rest same w.0)
            ∙ rw (same, inner) refl,
        rw inner at w.1,
      )
  | inr other ↦ copied_dir n es rest _ w.2 (rw (other, lookup) at h)
]

stale_gone :
    (n : Text) (source d : Entries)
    → lookup n source ≡ none
    → lookup n (remove_stale_entries source d) ≡ none
unfolding remove_stale_entries lookup
stale_gone n source end h = refl
stale_gone n source (entry k node rest) h =
    ground (arith, stale_gone n source rest h, same_text→≡ k n)

stale_kept :
    (n : Text) (original node : Node) (source d : Entries)
    → lookup n source ≡ some original
    → lookup n d ≡ some node
    → lookup n (remove_stale_entries source d) ≡ some (remove_stale_within original node)
unfolding remove_stale_entries lookup
stale_kept n original node source end h e = absurd (cc e)
stale_kept n original node source (entry k other rest) h e =
    ground (arith, stale_kept n original node source rest h, same_text→≡ k n)

-- What is at a path: nothing, a file with its bytes, or a directory.
unfoldable pub at_path : List Text → Node → Option (Option (List ℕ))
at_path [] (file b) = some (some b)
at_path [] (dir es) = some none
at_path (n ∷ p) (file b) = none
at_path (n ∷ p) (dir es) = elim (lookup n es) [ none ↦ none | some node ↦ at_path p node ]

at_path_entry :
    (n : Text) (p : List Text) (es : Entries) (o : Option Node)
    → lookup n es ≡ o
    → at_path (n ∷ p) (dir es) ≡ (elim o [ none ↦ none | some node ↦ at_path p node ])
unfolding at_path
at_path_entry n p es o h = rw (h, at_path) refl

-- After the copy and the removal of what is stale, every path leads to what it leads to in the
-- source.
pub at_path-sync_directories :
    (p : List Text) (source d : Entries)
    → WellFormed source
    → at_path p (dir (sync_directories source d)) ≡ at_path p (dir source)
unfolding sync_directories remove_stale_within
at_path-sync_directories [] source d w = unfold at_path in refl
at_path-sync_directories (n ∷ p) source d w = elim (Option-cases (lookup n source)) [
  | inl gone ↦
      at_path_entry n p _ none (stale_gone n source (copy_entries source d) gone)
      ∙ sym (at_path_entry n p source none gone)
  | inr (file b, found) ↦
      at_path_entry n p _ (some (file b)) (
        stale_kept n (file b) (file b) source (copy_entries source d) found
          (copied_file n b source d w found))
      ∙ sym (at_path_entry n p source (some (file b)) found)
  | inr (dir es, found) ↦
      let (sub, copied, inner) = copied_dir n es source d w found in
      at_path_entry n p _ (some (dir (sync_directories es sub))) (
        stale_kept n (dir es) (dir (copy_entries es sub)) source (copy_entries source d) found
          copied)
      ∙ at_path-sync_directories p es sub inner
      ∙ sym (at_path_entry n p source (some (dir es)) found)
]

-- When an update has been applied, after any attempts that failed and whatever they left, every
-- path of the bundle leads to what it leads to in the staged directory. Its directories are
-- assumed to have distinct names, none the temporary name of a later one.
pub at_path-run_attempts :
    (n : ℕ) (attempts : List (Option Entries)) (source d result : Entries) (p : List Text)
    → WellFormed source
    → run_attempts n attempts source d ≡ some result
    → at_path p (dir result) ≡ at_path p (dir source)
unfolding run_attempts
at_path-run_attempts zero attempts source d result p w h = absurd (cc h)
at_path-run_attempts (suc n) [] source d result p w h = absurd (cc h)
at_path-run_attempts (suc n) (none ∷ rest) source d result p w h =
    subst (λ x. at_path p (dir x) ≡ at_path p (dir source)) (some_injective h)
      (at_path-sync_directories p source d w)
at_path-run_attempts (suc n) (some left ∷ rest) source d result p w h =
    at_path-run_attempts n rest source left result p w h
