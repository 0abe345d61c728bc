-- ===== src/EnvPolicy.antt =====
-- The environment of a child process: internal/envpolicy/env.go, internal/workflow/agent_env_policy.go,
-- and the names of secrets in internal/trackerprofiles. What trackerprofiles.Resolve answers for a
-- configuration is a part of it here, `resolved`.
pub mod Denial
pub mod Added
pub mod Sanitized
use aiops_platform.Common.{
  Bool, true, false, not, ◌&&◌, ◌||◌, ◌==◌, Option, none, some, List, [], ◌∷◌, ◌++◌, Text, is_empty,
  text_eq, equal_fold, trim_space, codes, contains, if◌then◌else◌,
}
use aiops_platform.Common.Map.{TextSet, has, insert}

-- os.LookupEnv and its likes.
abbrev pub Lookup : Type 0
Lookup = Text → Option Text

pub record Profile : Type 0 where
  pub profile_secret_names : List Text
  pub profile_secret_values : List Text

pub record Config : Type 0 where
  pub kind : Text
  pub profile : Option Profile
  pub resolved : Option Profile

abbrev pub linear_secret_environment_names : List Text
linear_secret_environment_names = codes "LINEAR_API_KEY" ∷ codes "LINEAR_TOKEN" ∷ []

abbrev pub gitea_secret_environment_names : List Text
gitea_secret_environment_names = codes "GITEA_TOKEN" ∷ codes "GITEA_API_TOKEN" ∷ []

abbrev pub github_secret_environment_names : List Text
github_secret_environment_names = codes "GITHUB_TOKEN" ∷ codes "GH_TOKEN" ∷ codes "GITHUB_PAT" ∷ []

unfoldable pub secret_environment_names : List Text
secret_environment_names =
    linear_secret_environment_names ++ gitea_secret_environment_names
    ++ github_secret_environment_names

unfoldable pub is_supported_tracker_kind : Text → Bool
is_supported_tracker_kind kind =
    contains kind (codes "gitea" ∷ codes "github" ∷ codes "linear" ∷ [])

abbrev pub secret_name_reason : Text
secret_name_reason = codes "tracker provider secret must stay behind orchestrator tools"

abbrev pub secret_value_reason : Text
secret_value_reason = codes "tracker provider secret value must stay behind orchestrator tools"

-- The loops that compare a name with secret names, in any case of the letters.
unfoldable pub folds_to_any : Text → List Text → Bool
folds_to_any name [] = false
folds_to_any name (secret_name ∷ rest) =
    if equal_fold name secret_name then true else folds_to_any name rest

-- An empty text is no reason.
unfoldable pub agent_env_passthrough_deny_reason : Text → Text
agent_env_passthrough_deny_reason name =
    if folds_to_any (trim_space name) secret_environment_names then secret_name_reason else []

abbrev pub profile_names : Option Profile → List Text
profile_names none = []
profile_names (some p) = p.profile_secret_names

abbrev pub profile_values : Option Profile → List Text
profile_values none = []
profile_values (some p) = p.profile_secret_values

-- The profile that is left after the attempt to resolve it.
abbrev pub effective_profile : Bool → Config → Option Profile
effective_profile false cfg = cfg.profile
effective_profile true cfg = elim cfg.resolved [ none ↦ cfg.profile | some p ↦ some p ]

unfoldable pub tracker_secrets_for_config : Config → List Text × List Text
tracker_secrets_for_config cfg =
    let chosen = effective_profile (is_supported_tracker_kind cfg.kind) cfg in
    (profile_names cfg.profile ++ profile_names chosen, profile_values chosen)

unfoldable pub contains_value : List Text → Text → Bool
contains_value values want = contains want values

abbrev pub is_secret_value : List Text → Option Text → Bool
is_secret_value values none = false
is_secret_value values (some value) = not (is_empty value) && contains_value values value

-- The config-aware tests behind the first one, on a trimmed name.
unfoldable pub deny_reason_for_secrets : List Text → List Text → Lookup → Text → Text
deny_reason_for_secrets secret_names secret_values lookup name =
    if folds_to_any name secret_names
    then secret_name_reason
    else if is_secret_value secret_values (lookup name)
    then secret_value_reason
    else []

unfoldable pub agent_env_passthrough_deny_reason_for_config : Config → Lookup → Text → Text
agent_env_passthrough_deny_reason_for_config cfg lookup raw =
    let name = trim_space raw in
    let reason = agent_env_passthrough_deny_reason name in
    let secrets = tracker_secrets_for_config cfg in
    if not (is_empty reason)
    then reason
    else deny_reason_for_secrets secrets.0 secrets.1 lookup name

-- envBuilder, in two parts: what stays as it is (`path` is none for a nil function, or its answer), and
-- what grows.
pub record EnvSources : Type 0 where
  pub cfg : Config
  pub lookup : Lookup
  pub path : Option Text

pub record EnvBuilder : Type 0 where
  pub seen : TextSet
  pub env : List Text

unfoldable pub has_equals_sign : Text → Bool
has_equals_sign [] = false
has_equals_sign (c ∷ name) = if c == b'=' then true else has_equals_sign name

-- The tests of allowedName but the one on `seen`.
unfoldable pub is_permitted : EnvSources → Text → Bool
is_permitted s name =
    not (is_empty name || has_equals_sign name)
    && is_empty (agent_env_passthrough_deny_reason_for_config s.cfg s.lookup name)

unfoldable pub allowed_name : EnvSources → EnvBuilder → Text → Option Text
allowed_name s b raw =
    let name = trim_space raw in
    if not (has name b.seen) && is_permitted s name then some name else none

abbrev pub path_value : Option Text → Option Text → Option Text
path_value none found = found
path_value (some value) found = if is_empty value then found else some value

unfoldable pub value : EnvSources → Text → Option Text
value s name =
    if text_eq name (codes "PATH") then path_value s.path (s.lookup name) else s.lookup name

abbrev pub entry : Text → Text → Text
entry name value = name ++ b'=' ∷ value

abbrev pub grow : EnvBuilder → Text → Option Text → EnvBuilder
grow b name none = b
grow b name (some v) = record { seen = insert name tt b.seen; env = b.env ++ entry name v ∷ [] }

unfoldable pub add : EnvSources → EnvBuilder → Text → EnvBuilder
add s b raw = elim (allowed_name s b raw) [ none ↦ b | some name ↦ grow b name (value s name) ]

unfoldable pub add_names : EnvSources → EnvBuilder → List Text → EnvBuilder
add_names s b [] = b
add_names s b (name ∷ names) = add_names s (add s b name) names

unfoldable pub build_sanitized_env : List Text → List Text → EnvSources → List Text
build_sanitized_env baseline passthrough s =
    (add_names s (add_names s (record { seen = []; env = [] }) baseline) passthrough).env
