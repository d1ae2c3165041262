-- ===== src/Supervisor/Stage/Signed.antt =====
-- What is staged has passed every check.
use conest.Base.{
  ℕ, ◌≡◌, refl, subst, Bool, true, false, not, ◌&&◌, Option, none, some, List, ◌==◌, arith, if_ind,
  inl, inr,
}
use conest.Base.Outcome.{Outcome-cases, ok, ok_injective, Holds, bind-Holds, bail_if-Holds}
use conest.Base.Text.{Text, same_text, same_text→≡}
use conest.Supervisor.{
  Config, SupervisorState, Supervisor, Call, no_url, no_key, bad_manifest, unsupported_version,
  other_channel, write_staged, place_staged, make_executable, save_state,
}
use conest.Supervisor.Stage.{World, ReleaseManifest, or_fail}
use conest.Supervisor.Stage.Check.{
  Choice, fetch_manifest, validate_manifest, is_newer, fetch_relay, choose_relay, choose,
  resolve_manifest_url, Staged, stage, check_and_stage_update,
}
use conest.Supervisor.Stage.Genuine.{
  Signed, or_fail-some, fetch_manifest-Signed, IsRelayOf, fetch_relay-IsRelayOf, IsNewer,
  is_newer-IsNewer,
}

module _ (W : World) where
  -- A choice whose manifest has a signature that is good under the configured release key, for this channel and newer than what runs.
  pub record IsGenuine (config : Config) (state : SupervisorState) (c : Choice) : Type 0 where
    pub signed :
        (key : Text) × (config.release_public_key ≡ some key)
        × Signed W key (c.manifest_bytes, c.key, c.signature)
    pub parsed : W.parse_manifest c.manifest_bytes ≡ some c.manifest
    pub channel : c.manifest.channel ≡ config.channel
    pub newer : IsNewer W c.manifest.release_version state.current_version
    pub relay : IsRelayOf W c.manifest (c.asset, c.binary)

  Chosen : Config → SupervisorState → Option Choice → Type 0
  Chosen config state none = Unit {0}
  Chosen config state (some c) = IsGenuine config state c

  validate_manifest-channel :
      (config : Config) (m : ReleaseManifest)
      → Holds (λ (_ : Unit {0}). m.channel ≡ config.channel) (validate_manifest W config m)
  unfolding validate_manifest
  validate_manifest-channel config m =
      bail_if-Holds _ (not (m.version == 1) && not (m.version == 2)) unsupported_version _ (λ v.
        bail_if-Holds _ (not (same_text m.channel config.channel)) other_channel _
          (λ same p e. same_text→≡ m.channel config.channel (ground (arith, same))))

  choose_relay-Chosen :
      (config : Config) (state : SupervisorState) (newer : Bool) (url : Text) (key : Text)
      (s : List ℕ × List ℕ × List ℕ) (m : ReleaseManifest)
      → config.release_public_key ≡ some key
      → Signed W key s
      → W.parse_manifest s.0 ≡ some m
      → m.channel ≡ config.channel
      → is_newer W m.release_version state.current_version ≡ ok newer
      → Holds (Chosen config state) (choose_relay W newer url s m)
  unfolding choose_relay Chosen
  choose_relay-Chosen config state false url key s m configured good parsed channel new =
      λ p e. subst (Chosen config state) (ok_injective e) tt
  choose_relay-Chosen config state true url key s m configured good parsed channel new =
      bind-Holds _ (fetch_relay W url m) _ (λ r f p e.
        subst (Chosen config state) (ok_injective e) (record {
          signed = (key, configured, good);
          parsed = parsed;
          channel = channel;
          newer = is_newer-IsNewer W m.release_version state.current_version true new refl;
          relay = fetch_relay-IsRelayOf W url m r f;
        }))

  choose-Chosen :
      (config : Config) (state : SupervisorState)
      → Holds (Chosen config state) (choose W config state)
  unfolding choose
  choose-Chosen config state = bind-Holds _ (or_fail config.manifest_url no_url) _ (λ configured _.
      bind-Holds _ (resolve_manifest_url W configured config.channel) _ (λ url _.
        bind-Holds _ (or_fail config.release_public_key no_key) _ (λ key k.
          bind-Holds _ (fetch_manifest W url key) _ (λ s f.
            bind-Holds _ (or_fail (W.parse_manifest s.0) bad_manifest) _ (λ m parsed.
              bind-Holds _ (validate_manifest W config m) _ (λ u v.
                bind-Holds _ (is_newer W m.release_version state.current_version) _ (λ newer n.
                  choose_relay-Chosen config state newer url key s m
                    (or_fail-some W config.release_public_key no_key key k)
                    (fetch_manifest-Signed W url key s f)
                    (or_fail-some W (W.parse_manifest s.0) bad_manifest m parsed)
                    (validate_manifest-channel config m u v) n)))))))

  -- What a call leaves that says it staged a version.
  pub record IsStaged (config : Config) (s after : Supervisor) (version : Text) : Type 0 where
    pub choice : Choice
    pub genuine : IsGenuine config s.file choice
    pub named : choice.manifest.release_version ≡ version
    pub binary : after.bundle.staged ≡ some choice.binary
    pub noted : after.file.staged_version ≡ some version
    pub untouched : after.bundle.current ≡ s.bundle.current

  stage-IsStaged :
      (fails : Call → Bool) (config : Config) (c : Choice) (s : Supervisor) (version : Text)
      → IsGenuine config s.file c
      → (stage W fails config c s).0 ≡ ok (some version)
      → IsStaged config s (stage W fails config c s).1 version
  unfolding stage
  stage-IsStaged fails config c s version g =
      let P = λ (r : Staged W). r.0 ≡ ok (some version) → IsStaged config s r.1 version in
      if_ind P (fails write_staged) _ _ (λ _ e. absurd (cc e))
        (λ _.
          if_ind P (fails place_staged) _ _ (λ _ e. absurd (cc e))
            (λ _.
              if_ind P (fails make_executable) _ _ (λ _ e. absurd (cc e))
                (λ _.
                  if_ind P (fails save_state) _ _ (λ _ e. absurd (cc e))
                    (λ _ e.
                      let same : c.manifest.release_version ≡ version = cc e in
                      record {
                        choice = c;
                        genuine = g;
                        named = same;
                        binary = refl;
                        noted = rw same refl;
                        untouched = refl;
                      }))))

  from_choice :
      (fails : Call → Bool) (config : Config) (s : Supervisor) (version : Text)
      (choice : Option Choice)
      → choose W config s.file ≡ ok choice
      → (check_and_stage_update W fails config s).0 ≡ ok (some version)
      → IsStaged config s (check_and_stage_update W fails config s).1 version
  unfolding check_and_stage_update Chosen
  from_choice fails config s version none e h = absurd (cc (rw (e, check_and_stage_update) at h))
  from_choice fails config s version (some c) e h =
      rw (e, check_and_stage_update)
        (stage-IsStaged fails config c s version (choose-Chosen config s.file (some c) e)
          (rw (e, check_and_stage_update) at h))

  -- A version is staged only from a manifest that carries a signature good under the configured
  -- release key, is of the channel, and newer than the running version; the binary is the asset that the manifest names for this
  -- machine, of its size and its hash. The running binary is not touched.
  pub check_and_stage_update-IsStaged :
      (fails : Call → Bool) (config : Config) (s : Supervisor) (version : Text)
      → (check_and_stage_update W fails config s).0 ≡ ok (some version)
      → IsStaged config s (check_and_stage_update W fails config s).1 version
  unfolding check_and_stage_update
  check_and_stage_update-IsStaged fails config s version h =
      elim (Outcome-cases (choose W config s.file)) [
        | inl (choice, e) ↦ from_choice fails config s version choice e h
        | inr (inl (x, e)) ↦ absurd (cc (rw (e, check_and_stage_update) at h))
        | inr (inr e) ↦ absurd (cc (rw (e, check_and_stage_update) at h))
      ]
