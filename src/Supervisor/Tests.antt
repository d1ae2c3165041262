-- ===== src/Supervisor/Tests.antt =====
-- Updates of a small bundle, and the theorems at them.
use conest.Base.{
  ℕ, ◌≡◌, ◌≢◌, refl, sym, ap, true, false, none, some, [], ◌∷◌, replicate, ltb, All, if◌then◌else◌,
}
use conest.Base.Outcome.{ok, err, ok_injective}
use conest.Base.Text.{Text, same_text}
use conest.Supervisor.{Config, SupervisorState, Supervisor, health_gate}
use conest.Supervisor.Health.{
  RelayHealth, Attempt, Passed, Reports, wait_for_health, wait_for_health-Passed,
}
use conest.Supervisor.Update.{rollback, update_round, start}
use conest.Supervisor.Update.Failed.{calm, ready, start-update_round, rollback-update_round}
use conest.Supervisor.Stage.{
  World, ReleaseAsset, ReleaseManifest, relay_role, starts_with, before_slash, sibling_url, find,
  to_ascii_lowercase,
}
use conest.Supervisor.Stage.Check.{
  download_bounded, resolve_manifest_url, verify_manifest_signature, fetch_manifest,
  validate_manifest, is_newer, fetch_relay, choose_relay, choose, stage, check_and_stage_update,
}
use conest.Supervisor.Stage.Signed.{IsStaged, check_and_stage_update-IsStaged}

-- Versions are texts of one digit.
abbrev v : ℕ → Text
v n = n ∷ []

answer : ℕ → RelayHealth
answer n = record { version = v n; identity_public_key = v 7 }

attempt : ℕ → Attempt
unfolding answer
attempt n = record { health = ok (answer n); probe = true }

silent : Attempt
silent = record { health = err health_gate; probe = false }

passes :
    wait_for_health (some (v 3)) (some (v 7)) (silent ∷ attempt 2 ∷ attempt 3 ∷ []) ≡ ok (answer 3)
unfolding wait_for_health silent attempt answer same_text
passes = refl

wait_for_health-Passed_example :
    Passed (some (v 3)) (some (v 7)) (silent ∷ attempt 2 ∷ attempt 3 ∷ []) (answer 3)
wait_for_health-Passed_example =
    wait_for_health-Passed (some (v 3)) (some (v 7)) (silent ∷ attempt 2 ∷ attempt 3 ∷ [])
      (answer 3) passes

-- Version 2 runs, version 1 came before it, and version 3 is staged.
state : SupervisorState
state = record {
  channel = v 9;
  current_version = some (v 2);
  previous_version = some (v 1);
  staged_version = some (v 3);
  relay_identity_key = some (v 7);
  last_update_result = none;
  draining = false;
}

config : Config
config = record {
  channel = v 9;
  manifest_url = some (104 ∷ 116 ∷ 116 ∷ 112 ∷ 115 ∷ 58 ∷ 47 ∷ 47 ∷ 97 ∷ 47 ∷ 98 ∷ []);
  release_public_key = some (v 5);
  maintenance_start_hour = 3;
}

stays_two : All (Reports (v 2)) (attempt 2 ∷ [])
unfolding attempt answer
stays_two = (λ h e. sym (ap (λ (x : RelayHealth). x.version) (ok_injective e)), tt)

start-update_round_example :
    let after = (update_round calm [] (ready state state (20 ∷ []) (30 ∷ []) none none)).1 in
    (after.bundle.current ≡ some (20 ∷ [])) × ((start calm config (attempt 2 ∷ []) after).0 ≢ ok tt)
unfolding state wait_for_health same_text
start-update_round_example =
    start-update_round state state (20 ∷ []) (30 ∷ []) [] none none health_gate (v 2) (v 1) config
      (attempt 2 ∷ []) refl refl refl refl stays_two

rollback-update_round_example :
    let (result, after) =
      rollback calm
        (update_round calm (attempt 3 ∷ []) (ready state state (20 ∷ []) (30 ∷ []) none none)).1 in
    (result ≡ ok tt)
    × (after.bundle.current ≡ some (20 ∷ []))
    × (after.state.current_version ≡ state.current_version)
    × (after.state.staged_version ≡ none)
unfolding state wait_for_health same_text attempt answer
rollback-update_round_example =
    rollback-update_round state state (20 ∷ []) (30 ∷ []) (attempt 3 ∷ []) none none (answer 3) refl

asset : ReleaseAsset
asset = record {
  name = v 114;
  sha256 = v 65;
  size_bytes = 2;
  role = relay_role;
  platform = v 1;
  architecture = v 1;
}

manifest : ReleaseManifest
manifest = record {
  version = 1;
  tag_name = v 3;
  release_version = v 3;
  channel = v 9;
  minimum_supervisor_version = v 1;
  assets = asset ∷ [];
}

-- Every answer has the two bytes of a relay, every key and signature decode to zeros, and every
-- signature is good.
world : World
unfolding asset manifest
world = record {
  http = λ url. some (1 ∷ 2 ∷ []);
  utf8 = λ bytes. some bytes;
  trim = λ text. text;
  base64 = λ text. some (if same_text text (v 5) then replicate 32 0 else replicate 64 0);
  verifies = λ key signature bytes. true;
  parse_manifest = λ bytes. some manifest;
  parse_listing = λ bytes. none;
  Version = ℕ;
  parse_version = λ text. elim text [ [] ↦ none | n ∷ _ ↦ some n ];
  older = λ old new. ltb old new;
  supervisor_version = 4;
  sha256_hex = λ bytes. v 97;
  is_file_name = λ name. true;
  platform = v 1;
  architecture = v 1;
}

supervisor : Supervisor
unfolding state
supervisor = record {
  state = state;
  file = state;
  bundle = record { current = some (20 ∷ []); staged = none; previous = none; failed = none };
}

stages : (check_and_stage_update world calm config supervisor).0 ≡ ok (some (v 3))
unfolding check_and_stage_update choose resolve_manifest_url starts_with fetch_manifest
    download_bounded sibling_url before_slash verify_manifest_signature validate_manifest is_newer
    choose_relay fetch_relay find stage world config supervisor state asset manifest same_text
    to_ascii_lowercase
stages = refl

check_and_stage_update-IsStaged_example :
    IsStaged world config supervisor (check_and_stage_update world calm config supervisor).1 (v 3)
check_and_stage_update-IsStaged_example =
    check_and_stage_update-IsStaged world calm config supervisor (v 3) stages
