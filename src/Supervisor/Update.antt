-- ===== src/Supervisor/Update.antt =====
-- `apply_staged_and_verify`, `rollback_binary`, `rollback`, the start of `serve` and one round of
-- its loop that applies an update. Which calls of the system fail is given to each.
pub mod Failed
use conest.Base.{
  ℕ, Bool, true, false, not, ◌&&◌, Option, none, some, List, [], ◌∷◌, is_some, if◌then◌else◌,
}
use conest.Base.Outcome.{Outcome, ok, err, panics, and_then}
use conest.Base.Text.{Text}
use conest.Supervisor.{
  Config, SupervisorState, Bundle, Call, Supervisor, UpdateError, UpdateResult, no_staged,
  no_previous, call_failed, relay_missing, remove_previous, keep_current, place_staged,
  make_executable, start_relay, stop_relay, save_state, remove_failed, keep_failed, place_previous,
  make_previous_executable, startup_passed, update_applied, rolled_back, rollback_failed,
  operator_rollback,
}
use conest.Supervisor.Health.{RelayHealth, Attempt, wait_for_health}

-- The result of an operation, with the supervisor behind it.
abbrev pub Result : Type 0
Result = Outcome UpdateError (Unit {0}) × Supervisor

-- A call, and the supervisor behind it when it succeeds.
abbrev pub call : (Call → Bool) → Call → Supervisor → Supervisor → Result
call fails c before after = if fails c then (err call_failed, before) else (ok tt, after)

-- A call that is made only for a file that is there.
abbrev pub call_if : Bool → (Call → Bool) → Call → Supervisor → Supervisor → Result
call_if there fails c before after = if there then call fails c before after else (ok tt, before)

abbrev pub with_bundle : Supervisor → Bundle → Supervisor
with_bundle s b = record s { bundle = b }

-- `write_state`
abbrev pub write_state : (Call → Bool) → Supervisor → Result
write_state fails s = call fails save_state s (record s { file = s.state })

-- `spawn_relay`
abbrev pub spawn_relay : (Call → Bool) → Supervisor → Result
spawn_relay fails s =
    if not (is_some s.bundle.current) then (err relay_missing, s) else call fails start_relay s s

abbrev pub place : (Call → Bool) → List ℕ → Supervisor → Result
place fails new s =
    and_then
      (call_if (is_some s.bundle.previous) fails remove_previous s
        (with_bundle s (record s.bundle { previous = none })))
      (λ _ s.
        and_then
          (call_if (is_some s.bundle.current) fails keep_current s
            (with_bundle s (record s.bundle { current = none; previous = s.bundle.current })))
          (λ _ s.
            and_then
              (call fails place_staged s
                (with_bundle s (record s.bundle { current = some new; staged = none })))
              (λ _ s. call fails make_executable s s)))

-- What `apply_staged_and_verify` notes when the gate is passed.
abbrev pub applied : RelayHealth → SupervisorState → SupervisorState
applied h s = record s {
  previous_version = s.current_version;
  current_version = some h.version;
  relay_identity_key = some h.identity_public_key;
  staged_version = none;
  draining = false;
  last_update_result = some update_applied;
}

-- What follows the gate.
abbrev pub verified : (Call → Bool) → Outcome UpdateError RelayHealth → Supervisor → Result
verified fails (ok h) s = write_state fails (record s { state = applied h s.state })
verified fails (err e) s = (err e, s)
verified fails panics s = (panics, s)

unfoldable pub apply_staged_and_verify : (Call → Bool) → List Attempt → Supervisor → Result
apply_staged_and_verify fails attempts s = elim s.bundle.staged [
  | none ↦ (err no_staged, s)
  | some new ↦ and_then (place fails new s) (λ _ s. and_then (spawn_relay fails s) (λ _ s.
      verified fails (wait_for_health s.state.staged_version s.state.relay_identity_key attempts)
        s))
]

unfoldable pub rollback_binary : (Call → Bool) → Supervisor → Result
rollback_binary fails s = elim s.bundle.previous [
  | none ↦ (err no_previous, s)
  | some old ↦
      and_then
        (call_if (is_some s.bundle.failed) fails remove_failed s
          (with_bundle s (record s.bundle { failed = none })))
        (λ _ s.
          and_then
            (call_if (is_some s.bundle.current) fails keep_failed s
              (with_bundle s (record s.bundle { current = none; failed = s.bundle.current })))
            (λ _ s.
              and_then
                (call fails place_previous s
                  (with_bundle s (record s.bundle { current = some old; previous = none })))
                (λ _ s. call fails make_previous_executable s s)))
]

-- The state after a way back: the version before becomes the current one.
abbrev pub taken_back : UpdateResult → SupervisorState → SupervisorState
taken_back note s = record s {
  current_version = s.previous_version;
  previous_version = none;
  staged_version = none;
  draining = false;
  last_update_result = some note;
}

-- The command `rollback`.
unfoldable pub rollback : (Call → Bool) → Supervisor → Result
rollback fails s =
    and_then (rollback_binary fails s)
      (λ _ s. write_state fails (record s { state = taken_back operator_rollback s.file }))

abbrev pub note_of : Outcome UpdateError (Unit {0}) → UpdateResult
note_of (ok _) = rolled_back
note_of (err _) = rollback_failed
note_of panics = rollback_failed

-- What `serve` does when an update has been tried: an error is taken back, and the relay started.
abbrev pub after_update : (Call → Bool) → Result → Result
after_update fails (ok _, s) = (ok tt, s)
after_update fails (err _, s) =
    let (back, gone) = rollback_binary fails s in
    and_then (write_state fails (record gone { state = taken_back (note_of back) gone.state }))
      (λ _ s. and_then (back, s) (λ _ s. spawn_relay fails s))
after_update fails (panics, s) = (panics, s)

-- The round of `serve` in which an update is applied: an error leaves the loop.
unfoldable pub update_round : (Call → Bool) → List Attempt → Supervisor → Result
update_round fails attempts s =
    and_then (write_state fails (record s { state = record s.state { draining = true } })) (λ _ s.
      and_then (call fails stop_relay s s)
        (λ _ s. after_update fails (apply_staged_and_verify fails attempts s)))

abbrev pub should_apply_staged : SupervisorState → Bool → Bool
should_apply_staged s open_now = is_some s.staged_version && open_now

-- What follows the first gate.
abbrev pub started : (Call → Bool) → Outcome UpdateError RelayHealth → Supervisor → Result
started fails (ok h) s = write_state fails (record s {
  state = record s.state {
    current_version = some h.version;
    relay_identity_key = some h.identity_public_key;
    last_update_result = some startup_passed;
  };
})
started fails (err e) s = (err e, s)
started fails panics s = (panics, s)

-- The start of `serve`, up to its loop.
unfoldable pub start : (Call → Bool) → Config → List Attempt → Supervisor → Result
start fails config attempts s =
    and_then (write_state fails (record s { state = record s.file { channel = config.channel } }))
      (λ _ s. and_then (spawn_relay fails s) (λ _ s.
        started fails (wait_for_health s.state.current_version s.state.relay_identity_key attempts)
          s))
