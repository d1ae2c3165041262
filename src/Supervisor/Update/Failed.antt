-- ===== src/Supervisor/Update/Failed.antt =====
-- What an update leaves behind when it fails, when it succeeds, and when the operator takes it
-- back; no call of the system fails.
use conest.Base.{ℕ, ◌≡◌, ◌≢◌, refl, ap, Bool, true, false, Option, none, some, List, All}
use conest.Base.Outcome.{Outcome, ok, err, panics}
use conest.Base.Text.{Text, same_text}
use conest.Supervisor.{Config, SupervisorState, Supervisor, Call, UpdateError, rolled_back}
use conest.Supervisor.Health.{RelayHealth, Attempt, Reports, wait_for_health, wait_for_health_other}
use conest.Supervisor.Update.{
  verified, after_update, started, Result, applied, taken_back, apply_staged_and_verify,
  rollback_binary, rollback, update_round, start,
}

-- No call of the system fails.
abbrev pub calm : Call → Bool
calm c = false

-- A supervisor with a staged update over a binary that runs.
abbrev pub ready :
    SupervisorState
    → SupervisorState
    → List ℕ
    → List ℕ
    → Option (List ℕ)
    → Option (List ℕ)
    → Supervisor
ready state file old new previous failed = record {
  state = state;
  file = file;
  bundle = record { current = some old; staged = some new; previous = previous; failed = failed };
}

abbrev draining : SupervisorState → SupervisorState
draining s = record s { draining = true }

-- What a failed update leaves.
abbrev pub gone_back : SupervisorState → List ℕ → List ℕ → Supervisor
gone_back s old new = record {
  state = taken_back rolled_back (draining s);
  file = taken_back rolled_back (draining s);
  bundle = record { current = some old; staged = none; previous = none; failed = some new };
}

-- What an update leaves that passes the gate.
abbrev pub updated : RelayHealth → SupervisorState → List ℕ → List ℕ → Option (List ℕ) → Supervisor
updated h s old new failed = record {
  state = applied h (draining s);
  file = applied h (draining s);
  bundle = record { current = some new; staged = none; previous = some old; failed = failed };
}

started_refused :
    (r : Outcome UpdateError RelayHealth) (s : Supervisor)
    → ((h : RelayHealth) → r ≢ ok h)
    → (started calm r s).0 ≢ ok tt
started_refused (ok h) s n e = n h refl
started_refused (err x) s n e = cc e
started_refused panics s n e = cc e

module _ (s file : SupervisorState) (old new : List ℕ) (attempts : List Attempt) where
  -- The update is in place, and has not been tried.
  abbrev placed : Option (List ℕ) → Supervisor
  placed failed = record {
    state = draining s;
    file = draining s;
    bundle = record { current = some new; staged = none; previous = some old; failed = failed };
  }

  applied_to : (previous failed : Option (List ℕ)) → Result
  applied_to previous failed =
      apply_staged_and_verify calm attempts
        (ready (draining s) (draining s) old new previous failed)

  apply_failed :
      (previous failed : Option (List ℕ)) (e : UpdateError)
      → wait_for_health s.staged_version s.relay_identity_key attempts ≡ err e
      → applied_to previous failed ≡ (err e, placed failed)
  unfolding applied_to apply_staged_and_verify
  apply_failed none failed e h = ap (λ r. verified calm r (placed failed)) h
  apply_failed (some b) failed e h = ap (λ r. verified calm r (placed failed)) h

  apply_passed :
      (previous failed : Option (List ℕ)) (h : RelayHealth)
      → wait_for_health s.staged_version s.relay_identity_key attempts ≡ ok h
      → applied_to previous failed ≡ (ok tt, updated h s old new failed)
  unfolding applied_to apply_staged_and_verify
  apply_passed none failed h e = ap (λ r. verified calm r (placed failed)) e
  apply_passed (some b) failed h e = ap (λ r. verified calm r (placed failed)) e

  -- An update that does not pass the gate is taken back: the old binary runs again, the new one is
  -- kept as failed, and the version on file is the one before the running one.
  pub update_round_failed :
      (previous failed : Option (List ℕ)) (e : UpdateError)
      → wait_for_health s.staged_version s.relay_identity_key attempts ≡ err e
      → update_round calm attempts (ready s file old new previous failed)
        ≡ (ok tt, gone_back s old new)
  unfolding update_round rollback_binary applied_to
  update_round_failed previous none e h = ap (after_update calm) (apply_failed previous none e h)
  update_round_failed previous (some b) e h =
      ap (after_update calm) (apply_failed previous (some b) e h)

  -- An update that passes the gate is in place, and the old binary is kept.
  pub update_round_applied :
      (previous failed : Option (List ℕ)) (h : RelayHealth)
      → wait_for_health s.staged_version s.relay_identity_key attempts ≡ ok h
      → update_round calm attempts (ready s file old new previous failed)
        ≡ (ok tt, updated h s old new failed)
  unfolding update_round applied_to
  update_round_applied previous failed h e =
      ap (after_update calm) (apply_passed previous failed h e)

  -- The operator's rollback after an update that passed the gate brings back the old binary and
  -- its version, and nothing is staged.
  pub rollback-update_round :
      (previous failed : Option (List ℕ)) (h : RelayHealth)
      → wait_for_health s.staged_version s.relay_identity_key attempts ≡ ok h
      → let (result, after) =
          rollback calm (update_round calm attempts (ready s file old new previous failed)).1 in
        (result ≡ ok tt)
        × (after.bundle.current ≡ some old)
        × (after.state.current_version ≡ s.current_version)
        × (after.state.staged_version ≡ none)
  unfolding rollback rollback_binary
  rollback-update_round previous none h e =
      rw (update_round_applied previous none h e) (refl, refl, refl, refl)
  rollback-update_round previous (some b) h e =
      rw (update_round_applied previous (some b) h e) (refl, refl, refl, refl)

  -- After an update that failed behind an earlier one, the supervisor can no longer start: it
  -- expects the version before the one that runs, while the relay answers with its own.
  pub start-update_round :
      (previous failed : Option (List ℕ)) (e : UpdateError) (running before : Text)
      (config : Config) (later : List Attempt)
      → wait_for_health s.staged_version s.relay_identity_key attempts ≡ err e
      → s.current_version ≡ some running
      → s.previous_version ≡ some before
      → same_text before running ≡ false
      → All (Reports running) later
      → let after = (update_round calm attempts (ready s file old new previous failed)).1 in
        (after.bundle.current ≡ some old) × ((start calm config later after).0 ≢ ok tt)
  unfolding start
  start-update_round previous failed e running before config later h current was other reports =
      rw (update_round_failed previous failed e h) (
        refl,
        rw was (
            started_refused _ _
              (wait_for_health_other before running s.relay_identity_key later other reports)),
      )
