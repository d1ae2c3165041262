-- ===== src/Updater/Tests.antt =====
-- A bundle with a leftover of a cut copy, a file where a directory comes, and a stale file.
use conest.Base.{◌≡◌, refl, none, some, [], ◌∷◌}
use conest.Base.Text.{Text, same_text}
use conest.Updater.{
  file, dir, Entries, end, entry, lookup, erase, temporary, copy_file, copy_entries,
  remove_stale_entries, sync_directories, run_attempts, run, max_attempts,
}
use conest.Updater.Synced.{WellFormed, at_path, at_path-run_attempts}

abbrev a : Text
a = b'a' ∷ []

abbrev b : Text
b = b'b' ∷ []

staged : Entries
staged = entry a (file (1 ∷ [])) (entry b (dir (entry a (file (2 ∷ [])) end)) end)

bundle : Entries
unfolding temporary
bundle =
    entry b (file (9 ∷ [])) (entry (temporary a) (file (8 ∷ [])) (entry (b'c' ∷ []) (file []) end))

staged-WellFormed : WellFormed staged
unfolding WellFormed staged same_text temporary
staged-WellFormed = ((refl, refl, tt), (tt, (tt, tt), tt))

-- The second attempt goes through; it leaves nothing but what is staged.
went_through : run (some bundle ∷ none ∷ []) staged end ≡ some (sync_directories staged bundle)
unfolding run_attempts
went_through = refl

at_path-run_attempts_example :
    at_path (b ∷ a ∷ []) (dir (sync_directories staged bundle)) ≡ at_path (b ∷ a ∷ []) (dir staged)
at_path-run_attempts_example =
    at_path-run_attempts max_attempts (some bundle ∷ none ∷ []) staged end
      (sync_directories staged bundle) (b ∷ a ∷ []) staged-WellFormed went_through

synced : at_path (b ∷ a ∷ []) (dir (sync_directories staged bundle)) ≡ some (some (2 ∷ []))
unfolding at_path sync_directories remove_stale_entries copy_entries copy_file lookup erase
    temporary same_text staged bundle
synced = refl
