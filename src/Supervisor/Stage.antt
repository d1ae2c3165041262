-- ===== src/Supervisor/Stage.antt =====
-- `check_and_stage_update` and what it calls: which relay is downloaded, and what it has to pass
-- before it is staged. The network, the signature scheme, the hash, the parsers and the version
-- library are parameters.
pub mod Check
pub mod Signed
pub mod Genuine
use conest.Base.{
  ℕ, zero, suc, ◌+◌, ◌*◌, Bool, true, false, not, ◌&&◌, ◌||◌, Option, none, some, List, [], ◌∷◌,
  ◌++◌, leb, ltb, ◌==◌, if◌then◌else◌, length, take, drop,
}
use conest.Base.Outcome.{Outcome, ok, err, ◌>>=◌, ◌>>◌, bail_if}
use conest.Base.Text.{Text, same_text}
use conest.Supervisor.{
  Config, SupervisorState, Supervisor, UpdateError, Call, save_state, write_staged, staged_signed,
  call_failed, no_url, no_key, bad_scheme, no_answer, too_large, not_text, bad_signature,
  bad_manifest, unsupported_version, other_channel, bad_version, supervisor_too_old, no_asset,
  bad_size, unsafe_name, no_path, other_size, other_digest, bad_source, no_release,
}

abbrev pub max_manifest_bytes : ℕ
max_manifest_bytes = 512 * 1024

abbrev pub max_signature_bytes : ℕ
max_signature_bytes = 4096

abbrev pub max_relay_bytes : ℕ
max_relay_bytes = 256 * 1024 * 1024

abbrev pub max_release_listing_bytes : ℕ
max_release_listing_bytes = 2 * 1024 * 1024

abbrev pub github_prefix : Text
github_prefix = b'g' ∷ b'i' ∷ b't' ∷ b'h' ∷ b'u' ∷ b'b' ∷ 58 ∷ []

abbrev pub stable : Text
stable = b's' ∷ b't' ∷ b'a' ∷ b'b' ∷ b'l' ∷ b'e' ∷ []

abbrev pub https_scheme : Text
https_scheme = b'h' ∷ b't' ∷ b't' ∷ b'p' ∷ b's' ∷ 58 ∷ 47 ∷ 47 ∷ []

abbrev pub loopback_scheme : Text
loopback_scheme =
    b'h' ∷ b't' ∷ b't' ∷ b'p' ∷ 58 ∷ 47 ∷ 47 ∷ b'1' ∷ b'2' ∷ b'7' ∷ 46 ∷ b'0' ∷ 46 ∷ b'0' ∷ 46
    ∷ b'1' ∷ 58 ∷ []

abbrev pub github_url : Text
github_url =
    b'h' ∷ b't' ∷ b't' ∷ b'p' ∷ b's' ∷ 58 ∷ 47 ∷ 47 ∷ b'g' ∷ b'i' ∷ b't' ∷ b'h' ∷ b'u' ∷ b'b' ∷ 46
    ∷ b'c' ∷ b'o' ∷ b'm' ∷ 47 ∷ []

abbrev pub latest_path : Text
latest_path =
    47 ∷ b'r' ∷ b'e' ∷ b'l' ∷ b'e' ∷ b'a' ∷ b's' ∷ b'e' ∷ b's' ∷ 47 ∷ b'l' ∷ b'a' ∷ b't' ∷ b'e'
    ∷ b's' ∷ b't' ∷ 47 ∷ b'd' ∷ b'o' ∷ b'w' ∷ b'n' ∷ b'l' ∷ b'o' ∷ b'a' ∷ b'd' ∷ 47 ∷ b'R' ∷ b'E'
    ∷ b'L' ∷ b'E' ∷ b'A' ∷ b'S' ∷ b'E' ∷ 45 ∷ b'M' ∷ b'A' ∷ b'N' ∷ b'I' ∷ b'F' ∷ b'E' ∷ b'S' ∷ b'T'
    ∷ 46 ∷ b'j' ∷ b's' ∷ b'o' ∷ b'n' ∷ []

abbrev pub api_url : Text
api_url =
    b'h' ∷ b't' ∷ b't' ∷ b'p' ∷ b's' ∷ 58 ∷ 47 ∷ 47 ∷ b'a' ∷ b'p' ∷ b'i' ∷ 46 ∷ b'g' ∷ b'i' ∷ b't'
    ∷ b'h' ∷ b'u' ∷ b'b' ∷ 46 ∷ b'c' ∷ b'o' ∷ b'm' ∷ 47 ∷ b'r' ∷ b'e' ∷ b'p' ∷ b'o' ∷ b's' ∷ 47 ∷ []

abbrev pub listing_path : Text
listing_path =
    47 ∷ b'r' ∷ b'e' ∷ b'l' ∷ b'e' ∷ b'a' ∷ b's' ∷ b'e' ∷ b's' ∷ 63 ∷ b'p' ∷ b'e' ∷ b'r' ∷ 95 ∷ b'p'
    ∷ b'a' ∷ b'g' ∷ b'e' ∷ 61 ∷ b'2' ∷ b'0' ∷ []

abbrev pub download_path : Text
download_path =
    47 ∷ b'r' ∷ b'e' ∷ b'l' ∷ b'e' ∷ b'a' ∷ b's' ∷ b'e' ∷ b's' ∷ 47 ∷ b'd' ∷ b'o' ∷ b'w' ∷ b'n'
    ∷ b'l' ∷ b'o' ∷ b'a' ∷ b'd' ∷ 47 ∷ []

abbrev pub manifest_name : Text
manifest_name =
    b'R' ∷ b'E' ∷ b'L' ∷ b'E' ∷ b'A' ∷ b'S' ∷ b'E' ∷ 45 ∷ b'M' ∷ b'A' ∷ b'N' ∷ b'I' ∷ b'F' ∷ b'E'
    ∷ b'S' ∷ b'T' ∷ 46 ∷ b'j' ∷ b's' ∷ b'o' ∷ b'n' ∷ []

abbrev pub signature_name : Text
signature_name =
    b'R' ∷ b'E' ∷ b'L' ∷ b'E' ∷ b'A' ∷ b'S' ∷ b'E' ∷ 45 ∷ b'M' ∷ b'A' ∷ b'N' ∷ b'I' ∷ b'F' ∷ b'E'
    ∷ b'S' ∷ b'T' ∷ 46 ∷ b'e' ∷ b'd' ∷ b'2' ∷ b'5' ∷ b'5' ∷ b'1' ∷ b'9' ∷ 46 ∷ b's' ∷ b'i' ∷ b'g'
    ∷ []

abbrev pub relay_role : Text
relay_role = b'r' ∷ b'e' ∷ b'l' ∷ b'a' ∷ b'y' ∷ []

pub record ReleaseAsset : Type 0 where
  pub name : Text
  pub sha256 : Text
  pub size_bytes : ℕ
  pub role : Text
  pub platform : Text
  pub architecture : Text

pub record ReleaseManifest : Type 0 where
  pub version : ℕ
  pub tag_name : Text
  pub release_version : Text
  pub channel : Text
  pub minimum_supervisor_version : Text
  pub assets : List ReleaseAsset

-- An entry of the listing of releases, with the name and the URL of each asset.
pub record Release : Type 0 where
  pub draft : Bool
  pub prerelease : Bool
  pub assets : List (Text × Text)

-- What the supervisor takes from elsewhere. `http` is the body of an answer that is no error and as
-- long as it announces; a key that is no point of the curve is one that verifies nothing.
pub record World : Type 1 where
  pub http : Text → Option (List ℕ)
  pub utf8 : List ℕ → Option Text
  pub trim : Text → Text
  pub base64 : Text → Option (List ℕ)
  pub verifies : List ℕ → List ℕ → List ℕ → Bool
  pub parse_manifest : List ℕ → Option ReleaseManifest
  pub parse_listing : List ℕ → Option (List Release)
  pub Version : Type 0
  pub parse_version : Text → Option Version
  pub older : Version → Version → Bool
  pub supervisor_version : Version
  pub sha256_hex : List ℕ → Text
  pub is_file_name : Text → Bool
  pub platform : Text
  pub architecture : Text

-- `ok_or`
abbrev pub or_fail {ℓ} : {A : Type ℓ} → Option A → UpdateError → Outcome UpdateError A
or_fail none e = err e
or_fail (some a) e = ok a

unfoldable pub starts_with : Text → Text → Bool
starts_with text [] = true
starts_with [] (p ∷ ps) = false
starts_with (c ∷ cs) (p ∷ ps) = c == p && starts_with cs ps

-- `split('/')`
unfoldable pub split_slash : Text → List Text
split_slash [] = [] ∷ []
split_slash (c ∷ cs) =
    let rest = split_slash cs in
    if c == 47
    then [] ∷ rest
    else (elim rest [ [] ↦ (c ∷ []) ∷ [] | part ∷ parts ↦ (c ∷ part) ∷ parts ])

abbrev pub is_alphanumeric : ℕ → Bool
is_alphanumeric c = leb 48 c && leb c 57 || leb 65 c && leb c 90 || leb 97 c && leb c 122

unfoldable pub all_of {ℓ} : {A : Type ℓ} → (A → Bool) → List A → Bool
all_of p [] = true
all_of p (x ∷ xs) = p x && all_of p xs

abbrev pub valid_part : Text → Bool
valid_part part =
    not (same_text part [])
    && not (same_text part (46 ∷ []))
    && not (same_text part (46 ∷ 46 ∷ []))
    && all_of (λ c. is_alphanumeric c || c == 45 || c == 95 || c == 46) part

abbrev pub valid_repo : Text → Bool
valid_repo repo = length (split_slash repo) == 2 && all_of valid_part (split_slash repo)

-- `rsplit_once('/')`, what is before the last slash.
unfoldable pub before_slash : Text → Option Text
before_slash [] = none
before_slash (c ∷ cs) = elim (before_slash cs) [
  | some base ↦ some (c ∷ base)
  | none ↦ if c == 47 then some [] else none
]

unfoldable pub sibling_url : Text → Text → Outcome UpdateError Text
sibling_url url name = do base ← or_fail (before_slash url) no_path; ok (base ++ 47 ∷ [] ++ name)

abbrev pub lower : ℕ → ℕ
lower c = if leb 65 c && leb c 90 then c + 32 else c

unfoldable pub to_ascii_lowercase : Text → Text
to_ascii_lowercase [] = []
to_ascii_lowercase (c ∷ cs) = lower c ∷ to_ascii_lowercase cs

module _ {ℓ} {A : Type ℓ} (p : A → Bool) where
  unfoldable pub find : List A → Option A
  find [] = none
  find (x ∷ xs) = let rest = find xs in if p x then some x else rest

-- The manifest's URL in a release.
abbrev pub manifest_asset : Release → Option Text
manifest_asset r = elim (find (λ a. same_text a.0 manifest_name) r.assets) [
  | some asset ↦ some asset.1
  | none ↦ none
]

-- The first release of the channel that carries a manifest.
unfoldable pub first_manifest : List Release → Option Text
first_manifest [] = none
first_manifest (r ∷ rs) =
    let rest = first_manifest rs in
    if r.prerelease && not r.draft
    then (elim (manifest_asset r) [ some url ↦ some url | none ↦ rest ])
    else rest
