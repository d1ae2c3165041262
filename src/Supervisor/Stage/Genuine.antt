-- ===== src/Supervisor/Stage/Genuine.antt =====
-- What the single checks of an update give: a good signature, a newer version, and the right relay.
use conest.Base.{
  ℕ, [], ◌∷◌, ◌∙◌, Bool-cases, ◌≡◌, ◌≤◌, ap, subst, true, not, ◌||◌, Option, none, some, List, ltb,
  ◌==◌, length, arith, inl, inr,
}
use conest.Base.Outcome.{ok, ok_injective, Holds, bind-Holds, bail_if-Holds}
use conest.Base.Text.{Text, same_text, same_text→≡}
use conest.Supervisor.{
  UpdateError, bad_signature, not_text, no_asset, bad_size, unsafe_name, other_size, other_digest,
  bad_version,
}
use conest.Supervisor.Stage.{
  World, relay_role, ReleaseAsset, ReleaseManifest, or_fail, find, max_relay_bytes,
  to_ascii_lowercase, sibling_url, signature_name, max_manifest_bytes, max_signature_bytes,
}
use conest.Supervisor.Stage.Check.{
  download_bounded, verify_manifest_signature, fetch_manifest, is_newer, fits, fetch_relay,
}

module _ (W : World) where
  -- A key of a text, a signature and bytes, such that the signature is good for the bytes.
  abbrev pub Signed : Text → List ℕ × List ℕ × List ℕ → Type 0
  Signed key s =
      (W.base64 (W.trim key) ≡ some s.1)
      × (W.verifies s.1 s.2 s.0 ≡ true)
      × (length s.1 ≡ 32)
      × (length s.2 ≡ 64)

  pub or_fail-some :
      {A : Type 0} (o : Option A) (x : UpdateError) (a : A) → or_fail o x ≡ ok a → o ≡ some a
  or_fail-some none x a h = absurd (cc h)
  or_fail-some (some b) x a h = ap some (ok_injective h)

  verify-Signed :
      (bytes : List ℕ) (signature key : Text)
      → Holds
          (λ (p : List ℕ × List ℕ). Signed key (bytes, p.0, p.1))
          (verify_manifest_signature W bytes signature key)
  unfolding verify_manifest_signature
  verify-Signed bytes signature key =
      bind-Holds _ (or_fail (W.base64 (W.trim key)) bad_signature) _ (λ k keyed.
        bind-Holds _ (or_fail (W.base64 signature) bad_signature) _ (λ s _.
          bail_if-Holds _ (not (length k == 32)) bad_signature _ (λ key_size.
            bail_if-Holds _ (not (length s == 64)) bad_signature _ (λ size.
              bail_if-Holds _ (not (W.verifies k s bytes)) bad_signature _ (λ good p e.
                subst (λ q. Signed key (bytes, q.0, q.1)) (ok_injective e)
                  (
                    or_fail-some (W.base64 (W.trim key)) bad_signature k keyed,
                    ground (arith, good),
                    ground (arith, key_size),
                    ground (arith, size),
                  ))))))

  pub fetch_manifest-Signed : (url key : Text) → Holds (Signed key) (fetch_manifest W url key)
  unfolding fetch_manifest
  fetch_manifest-Signed url key =
      bind-Holds _ (download_bounded W url max_manifest_bytes) _ (λ bytes _.
        bind-Holds _ (sibling_url url signature_name) _ (λ there _.
          bind-Holds _ (download_bounded W there max_signature_bytes) _ (λ answer _.
            bind-Holds _ (or_fail (W.utf8 answer) not_text) _ (λ text _.
              bind-Holds _ (verify_manifest_signature W bytes (W.trim text) key) _ (λ signed v p e.
                subst (Signed key) (ok_injective e)
                  (verify-Signed bytes (W.trim text) key signed v))))))

  -- An asset for this machine.
  abbrev pub IsForMachine : ReleaseAsset → Type 0
  IsForMachine a =
      (a.role ≡ relay_role) × (a.platform ≡ W.platform) × (a.architecture ≡ W.architecture)

  fits-IsForMachine : (a : ReleaseAsset) → fits W a ≡ true → IsForMachine a
  fits-IsForMachine a h = (
    same_text→≡ a.role relay_role (ground (arith, h)),
    same_text→≡ a.platform W.platform (ground (arith, h)),
    same_text→≡ a.architecture W.architecture (ground (arith, h)),
  )

  asset_injective : {a b : ReleaseAsset} → some a ≡ some b → a ≡ b
  asset_injective h = cc h

  find-IsForMachine :
      (assets : List ReleaseAsset) (a : ReleaseAsset)
      → find (fits W) assets ≡ some a
      → IsForMachine a
  unfolding find
  find-IsForMachine [] a h = absurd (cc h)
  find-IsForMachine (b ∷ rest) a h = elim (Bool-cases (fits W b)) [
    | inl good ↦ subst IsForMachine (asset_injective (rw good at h)) (fits-IsForMachine b good)
    | inr bad ↦ find-IsForMachine rest a (rw bad at h)
  ]

  -- The relay of a manifest: its first asset for this machine, of the size and the hash it names.
  pub record IsRelayOf (m : ReleaseManifest) (relay : ReleaseAsset × List ℕ) : Type 0 where
    pub listed : find (fits W) m.assets ≡ some relay.0
    pub machine : IsForMachine relay.0
    pub sized : length relay.1 ≡ relay.0.size_bytes
    pub bounded : relay.0.size_bytes ≤ max_relay_bytes
    pub hashed : W.sha256_hex relay.1 ≡ to_ascii_lowercase relay.0.sha256

  pub fetch_relay-IsRelayOf :
      (url : Text) (m : ReleaseManifest) → Holds (IsRelayOf m) (fetch_relay W url m)
  unfolding fetch_relay
  fetch_relay-IsRelayOf url m =
      bind-Holds _ (or_fail (find (fits W) m.assets) no_asset) _ (λ a found.
        bail_if-Holds _ (a.size_bytes == 0 || ltb max_relay_bytes a.size_bytes) bad_size _ (λ size.
          bail_if-Holds _ (not (W.is_file_name a.name)) unsafe_name _ (λ name.
            bind-Holds _ (sibling_url url a.name) _ (λ there _.
              bind-Holds _ (download_bounded W there a.size_bytes) _ (λ bytes _.
                bail_if-Holds _ (not (length bytes == a.size_bytes)) other_size _ (λ same.
                  bail_if-Holds _
                    (not (same_text (W.sha256_hex bytes) (to_ascii_lowercase a.sha256)))
                    other_digest _
                    (λ hash p e. subst (IsRelayOf m) (ok_injective e) (record {
                      listed = or_fail-some (find (fits W) m.assets) no_asset a found;
                      machine =
                          find-IsForMachine m.assets a
                            (or_fail-some (find (fits W) m.assets) no_asset a found);
                      sized = ground (arith, same);
                      bounded = ground (arith, size);
                      hashed =
                          same_text→≡ (W.sha256_hex bytes) (to_ascii_lowercase a.sha256)
                            (ground (arith, hash));
                    }))))))))

  -- The version is one, and newer than the running one, where there is one.
  abbrev pub IsNewer : Text → Option Text → Type 0
  IsNewer candidate none = (new : W.Version) × (W.parse_version candidate ≡ some new)
  IsNewer candidate (some text) =
      (new : W.Version) × (old : W.Version) × (W.parse_version candidate ≡ some new)
      × (W.parse_version text ≡ some old)
      × (W.older old new ≡ true)

  pub is_newer-IsNewer :
      (candidate : Text) (current : Option Text)
      → Holds (λ b. b ≡ true → IsNewer candidate current) (is_newer W candidate current)
  unfolding is_newer
  is_newer-IsNewer candidate none =
      bind-Holds _ (or_fail (W.parse_version candidate) bad_version) _
        (λ new n b e t. (new, or_fail-some (W.parse_version candidate) bad_version new n))
  is_newer-IsNewer candidate (some text) =
      bind-Holds _ (or_fail (W.parse_version candidate) bad_version) _ (λ new n.
        bind-Holds _ (or_fail (W.parse_version text) bad_version) _ (λ old o b e t. (
          new,
          old,
          or_fail-some (W.parse_version candidate) bad_version new n,
          or_fail-some (W.parse_version text) bad_version old o,
          ok_injective e ∙ t,
        )))
