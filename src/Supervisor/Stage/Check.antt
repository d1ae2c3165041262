-- ===== src/Supervisor/Stage/Check.antt =====
-- The checks of an update in the order of the source, and the staging of what passes them.
use conest.Base.{
  ℕ, Bool, true, false, not, ◌&&◌, ◌||◌, Option, none, some, List, ◌++◌, ltb, ◌==◌, if◌then◌else◌,
  length, drop,
}
use conest.Base.Outcome.{Outcome, ok, err, panics, ◌>>=◌, ◌>>◌, bail_if}
use conest.Base.Text.{Text, same_text}
use conest.Supervisor.{
  Config, SupervisorState, Supervisor, UpdateError, Call, save_state, write_staged, place_staged,
  make_executable, staged_signed, call_failed, no_url, no_key, bad_scheme, no_answer, too_large,
  not_text, bad_signature, bad_manifest, unsupported_version, other_channel, bad_version,
  supervisor_too_old, no_asset, bad_size, unsafe_name, other_size, other_digest, bad_source,
  no_release,
}
use conest.Supervisor.Stage.{
  World, ReleaseAsset, ReleaseManifest, or_fail, starts_with, valid_repo, sibling_url, find,
  first_manifest, to_ascii_lowercase, github_prefix, stable, https_scheme, loopback_scheme,
  github_url, latest_path, api_url, listing_path, download_path, signature_name, relay_role,
  max_manifest_bytes, max_signature_bytes, max_relay_bytes, max_release_listing_bytes,
}

-- What passed the checks: the signed bytes with their signature and key, and the relay.
pub record Choice : Type 0 where
  pub manifest_bytes : List ℕ
  pub signature : List ℕ
  pub key : List ℕ
  pub manifest : ReleaseManifest
  pub asset : ReleaseAsset
  pub binary : List ℕ

module _ (W : World) where
  unfoldable pub download_bounded : Text → ℕ → Outcome UpdateError (List ℕ)
  download_bounded url limit = do
    bail_if (not (starts_with url https_scheme) && not (starts_with url loopback_scheme)) bad_scheme
    bytes ← or_fail (W.http url) no_answer
    bail_if (ltb limit (length bytes)) too_large
    ok bytes

  unfoldable pub newest_prerelease_manifest : List ℕ → Text → Outcome UpdateError Text
  newest_prerelease_manifest listing repo = do
    releases ← or_fail (W.parse_listing listing) bad_manifest
    url ← or_fail (first_manifest releases) no_release
    bail_if (not (starts_with url (github_url ++ repo ++ download_path))) no_release
    ok url

  unfoldable pub resolve_manifest_url : Text → Text → Outcome UpdateError Text
  resolve_manifest_url configured channel =
      if not (starts_with configured github_prefix)
      then ok configured
      else (let repo = drop 7 configured in
          if not (valid_repo repo)
          then err bad_source
          else (if same_text channel stable then ok (github_url ++ repo ++ latest_path) else (do
            listing ← download_bounded (api_url ++ repo ++ listing_path) max_release_listing_bytes
            newest_prerelease_manifest listing repo)))

  -- The key and the signature in bytes, when the signature is of the manifest.
  unfoldable pub verify_manifest_signature :
      List ℕ → Text → Text → Outcome UpdateError (List ℕ × List ℕ)
  verify_manifest_signature manifest signature key = do
    key_bytes ← or_fail (W.base64 (W.trim key)) bad_signature
    signature_bytes ← or_fail (W.base64 signature) bad_signature
    bail_if (not (length key_bytes == 32)) bad_signature
    bail_if (not (length signature_bytes == 64)) bad_signature
    bail_if (not (W.verifies key_bytes signature_bytes manifest)) bad_signature
    ok (key_bytes, signature_bytes)

  unfoldable pub validate_manifest : Config → ReleaseManifest → Outcome UpdateError (Unit {0})
  validate_manifest config m = do
    bail_if (not (m.version == 1) && not (m.version == 2)) unsupported_version
    bail_if (not (same_text m.channel config.channel)) other_channel
    minimum ← or_fail (W.parse_version m.minimum_supervisor_version) bad_version
    bail_if (W.older W.supervisor_version minimum) supervisor_too_old
    release ← or_fail (W.parse_version m.release_version) bad_version
    ok tt

  unfoldable pub is_newer : Text → Option Text → Outcome UpdateError Bool
  is_newer candidate current = do
    new ← or_fail (W.parse_version candidate) bad_version
    elim current [
      | none ↦ ok true
      | some text ↦ do old ← or_fail (W.parse_version text) bad_version; ok (W.older old new)
    ]

  abbrev pub fits : ReleaseAsset → Bool
  fits a =
      same_text a.role relay_role
      && same_text a.platform W.platform
      && same_text a.architecture W.architecture

  -- The relay of a manifest: downloaded, and checked against what was signed.
  unfoldable pub fetch_relay : Text → ReleaseManifest → Outcome UpdateError (ReleaseAsset × List ℕ)
  fetch_relay manifest_url m = do
    asset ← or_fail (find fits m.assets) no_asset
    bail_if (asset.size_bytes == 0 || ltb max_relay_bytes asset.size_bytes) bad_size
    bail_if (not (W.is_file_name asset.name)) unsafe_name
    url ← sibling_url manifest_url asset.name
    bytes ← download_bounded url asset.size_bytes
    bail_if (not (length bytes == asset.size_bytes)) other_size
    bail_if (not (same_text (W.sha256_hex bytes) (to_ascii_lowercase asset.sha256))) other_digest
    ok (asset, bytes)

  -- The manifest that the release key has signed.
  unfoldable pub fetch_manifest : Text → Text → Outcome UpdateError (List ℕ × List ℕ × List ℕ)
  fetch_manifest manifest_url key_text = do
    manifest_bytes ← download_bounded manifest_url max_manifest_bytes
    signature_url ← sibling_url manifest_url signature_name
    signature_bytes ← download_bounded signature_url max_signature_bytes
    signature_text ← or_fail (W.utf8 signature_bytes) not_text
    signed ← verify_manifest_signature manifest_bytes (W.trim signature_text) key_text
    ok (manifest_bytes, signed.0, signed.1)

  -- A manifest that is not newer is left alone.
  unfoldable pub choose_relay :
      Bool → Text → List ℕ × List ℕ × List ℕ → ReleaseManifest → Outcome UpdateError (Option Choice)
  choose_relay false manifest_url signed manifest = ok none
  choose_relay true manifest_url signed manifest = do
    relay ← fetch_relay manifest_url manifest
    ok (
        some (record {
          manifest_bytes = signed.0;
          key = signed.1;
          signature = signed.2;
          manifest = manifest;
          asset = relay.0;
          binary = relay.1;
        }))

  -- The part of `check_and_stage_update` before it writes.
  unfoldable pub choose : Config → SupervisorState → Outcome UpdateError (Option Choice)
  choose config state = do
    configured ← or_fail config.manifest_url no_url
    manifest_url ← resolve_manifest_url configured config.channel
    key_text ← or_fail config.release_public_key no_key
    signed ← fetch_manifest manifest_url key_text
    manifest ← or_fail (W.parse_manifest signed.0) bad_manifest
    validate_manifest config manifest
    newer ← is_newer manifest.release_version state.current_version
    choose_relay newer manifest_url signed manifest

  abbrev pub Staged : Type 0
  Staged = Outcome UpdateError (Option Text) × Supervisor

  -- The binary is written, made executable, and named in the state.
  unfoldable pub stage : (Call → Bool) → Config → Choice → Supervisor → Staged
  stage fails config c s =
      let placed : Supervisor = record s { bundle = record s.bundle { staged = some c.binary } } in
      let state : SupervisorState = record s.file {
        channel = config.channel;
        staged_version = some c.manifest.release_version;
        last_update_result = some staged_signed;
      } in
      if fails write_staged
      then (err call_failed, s)
      else (if fails place_staged
          then (err call_failed, record s { bundle = record s.bundle { staged = none } })
          else (if fails make_executable
              then (err call_failed, placed)
              else (if fails save_state
                  then (err call_failed, placed)
                  else (ok (some c.manifest.release_version), record placed { file = state }))))

  -- It works on the state in the file: `update-now` calls it in a process of its own.
  unfoldable pub check_and_stage_update : (Call → Bool) → Config → Supervisor → Staged
  check_and_stage_update fails config s = elim (choose config s.file) [
    | ok none ↦ (ok none, s)
    | ok (some c) ↦ stage fails config c s
    | err e ↦ (err e, s)
    | panics ↦ (panics, s)
  ]
