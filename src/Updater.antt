-- ===== src/Updater.antt =====
-- The updater: native/conest_updater/src/main.rs. A directory is a list of named entries, in the
-- order in which they are read; links and permissions are left out. An attempt either goes through,
-- and then none of its calls failed, or leaves a bundle that is given.
pub mod Synced
mod Tests
use conest.Base.{
  ℕ, zero, suc, Bool, true, false, Option, none, some, List, [], ◌∷◌, ◌++◌, if◌then◌else◌, is_some,
}
use conest.Base.Text.{Text, same_text}

abbrev pub max_attempts : ℕ
max_attempts = 120

mutual
  pub data Node : Type 0 where
    file : List ℕ → Node
    dir : Entries → Node

  pub data Entries : Type 0 where
    end : Entries
    entry : Text → Node → Entries → Entries

unfoldable pub lookup : Text → Entries → Option Node
lookup name end = none
lookup name (entry n node rest) = if same_text n name then some node else lookup name rest

-- The removal of a file or of a whole directory.
unfoldable pub erase : Text → Entries → Entries
erase name end = end
erase name (entry n node rest) =
    let others = erase name rest in if same_text n name then others else entry n node others

-- An entry takes a name, whatever had it.
abbrev pub put : Text → Node → Entries → Entries
put name node d = entry name node (erase name d)

abbrev pub updating : Text
updating = 46 ∷ b'u' ∷ b'p' ∷ b'd' ∷ b'a' ∷ b't' ∷ b'i' ∷ b'n' ∷ b'g' ∷ []

-- `.name.updating`
unfoldable pub temporary : Text → Text
temporary name = 46 ∷ name ++ updating

abbrev pub is_dir : Option Node → Bool
is_dir (some (dir es)) = true
is_dir (some (file b)) = false
is_dir none = false

-- The bytes are copied behind the temporary name, and moved into place.
unfoldable pub copy_file : Text → List ℕ → Entries → Entries
copy_file name bytes d =
    let cleared = if is_dir (lookup name d) then erase name d else d in
    let copied = put (temporary name) (file bytes) (erase (temporary name) cleared) in
    put name (file bytes) (erase (temporary name) (erase name copied))

-- The entries of a directory at a name, which is made where there is none and takes the place of
-- a file.
abbrev pub entries_at : Option Node → Entries
entries_at (some (dir es)) = es
entries_at (some (file b)) = end
entries_at none = end

unfoldable pub copy_entries : Entries → Entries → Entries
copy_entries end d = d
copy_entries (entry name (file bytes) rest) d = copy_entries rest (copy_file name bytes d)
copy_entries (entry name (dir es) rest) d =
    copy_entries rest (put name (dir (copy_entries es (entries_at (lookup name d)))) d)

unfoldable mutual
  pub remove_stale_entries : Entries → Entries → Entries
  remove_stale_entries source end = end
  remove_stale_entries source (entry name node rest) =
      let others = remove_stale_entries source rest in
      elim (lookup name source) [
        | none ↦ others
        | some original ↦ entry name (remove_stale_within original node) others
      ]

  -- Only a directory that is one in the source too is looked into.
  pub remove_stale_within : Node → Node → Node
  remove_stale_within (dir source) (dir es) = dir (remove_stale_entries source es)
  remove_stale_within (dir source) (file b) = file b
  remove_stale_within (file b) node = node

unfoldable pub sync_directories : Entries → Entries → Entries
sync_directories source d = remove_stale_entries source (copy_entries source d)

-- The attempts of `run`, each with what it leaves when it fails, or none when it goes through; the
-- answer is none when all fail. The wait for the lock and the launch come behind it.
unfoldable pub run_attempts : ℕ → List (Option Entries) → Entries → Entries → Option Entries
run_attempts zero attempts source d = none
run_attempts (suc n) [] source d = none
run_attempts (suc n) (none ∷ rest) source d = some (sync_directories source d)
run_attempts (suc n) (some left ∷ rest) source d = run_attempts n rest source left

abbrev pub run : List (Option Entries) → Entries → Entries → Option Entries
run attempts source d = run_attempts max_attempts attempts source d
