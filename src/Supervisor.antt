-- ===== src/Supervisor.antt =====
-- The relay supervisor: native/conest_relay_supervisor/src/main.rs. It keeps one relay running,
-- stages signed updates, and applies them with a way back.
pub mod Health
pub mod Update
pub mod Stage
mod Tests
use conest.Base.{ℕ, Bool, Option, List}
use conest.Base.Text.{Text}

-- The options of the command line that the update reads.
pub record Config : Type 0 where
  pub channel : Text
  pub manifest_url : Option Text
  pub release_public_key : Option Text
  pub maintenance_start_hour : ℕ

-- What `last_update_result` says.
pub data UpdateResult : Type 0 where
  startup_passed update_applied rolled_back rollback_failed staged_signed operator_rollback :
      UpdateResult

pub record SupervisorState : Type 0 where
  pub channel : Text
  pub current_version : Option Text
  pub previous_version : Option Text
  pub staged_version : Option Text
  pub relay_identity_key : Option Text
  pub last_update_result : Option UpdateResult
  pub draining : Bool

-- The binaries of the bundle directory, where they are: `conest_relay`, and those whose names end
-- in staged, previous and failed.
pub record Bundle : Type 0 where
  pub current : Option (List ℕ)
  pub staged : Option (List ℕ)
  pub previous : Option (List ℕ)
  pub failed : Option (List ℕ)

-- The calls of the system that can fail.
pub data Call : Type 0 where
  remove_previous keep_current place_staged make_executable start_relay stop_relay save_state
        remove_failed keep_failed place_previous make_previous_executable write_staged :
      Call

-- The failures that these functions tell apart.
pub data UpdateError : Type 0 where
  no_staged no_previous call_failed relay_missing health_gate identity_changed relay_unreachable :
      UpdateError
  no_url no_key bad_scheme no_answer too_large not_text bad_signature bad_manifest
        unsupported_version other_channel bad_version supervisor_too_old :
      UpdateError
  no_asset bad_size unsafe_name no_path other_size other_digest bad_source no_release : UpdateError

-- A supervisor: the state it holds, the state in its file, and the bundle.
pub record Supervisor : Type 0 where
  pub state : SupervisorState
  pub file : SupervisorState
  pub bundle : Bundle
