-- ===== src/Examples/Files.antt =====
-- The environment of a child process, and a workflow file.
use aiops_platform.Common.{
  ◌≡◌, refl, false, Option, none, some, List, [], ◌∷◌, ◌++◌, Text, codes, trim_space, trim_left,
  trim_right, text_eq, contains, fold_code, lower_code, equal_fold, if◌then◌else◌,
}
use aiops_platform.Common.Map.{lookup, insert}
use aiops_platform.EnvPolicy.{
  EnvSources, secret_environment_names, is_supported_tracker_kind, folds_to_any,
  agent_env_passthrough_deny_reason, tracker_secrets_for_config, contains_value,
  deny_reason_for_secrets, agent_env_passthrough_deny_reason_for_config, has_equals_sign,
  is_permitted, allowed_name, value, add, add_names, build_sanitized_env,
}
use aiops_platform.EnvPolicy.Sanitized.{IsSanitized, build_sanitized_env-IsSanitized}
use aiops_platform.Workflow.FrontMatter.{
  newline, lf_fence, crlf_fence, behind, split_after_newlines, join, trim_line_end, is_fence,
  scan_lines, split_front_matter,
}
use aiops_platform.Workflow.FrontMatter.Printed.{ended, longer, lf, split_front_matter-printed}

-- LINEAR_SECRET is the variable that the configuration names, and COPY holds its value too.
abbrev variable_value : Text → Option Text
variable_value name =
    if text_eq name (codes "HOME")
    then some (codes "/home/agent")
    else if text_eq name (codes "COPY")
    then some (codes "s3cret")
    else if text_eq name (codes "GITHUB_TOKEN")
    then some (codes "t")
    else none

abbrev sources : EnvSources
sources = record {
  cfg = record {
    kind = codes "linear";
    profile = some (record {
      profile_secret_names = codes "LINEAR_SECRET" ∷ [];
      profile_secret_values = codes "s3cret" ∷ [];
    });
    resolved = none;
  };
  lookup = variable_value;
  path = some (codes "/bin");
}

abbrev baseline_names : List Text
baseline_names = codes "PATH" ∷ codes "HOME" ∷ []

abbrev passthrough_names : List Text
passthrough_names =
    codes " HOME" ∷ codes "github_token" ∷ codes "GITHUB_TOKEN" ∷ codes "COPY" ∷ codes "NONE" ∷ []

environment :
    build_sanitized_env baseline_names passthrough_names sources
    ≡ codes "PATH=/bin" ∷ codes "HOME=/home/agent" ∷ []
unfolding build_sanitized_env add_names add allowed_name value is_permitted has_equals_sign
    agent_env_passthrough_deny_reason_for_config deny_reason_for_secrets contains_value
    tracker_secrets_for_config agent_env_passthrough_deny_reason folds_to_any
    is_supported_tracker_kind secret_environment_names equal_fold fold_code lower_code trim_space
    trim_left trim_right text_eq contains lookup insert
environment = refl

build_sanitized_env-IsSanitized_example :
    IsSanitized sources baseline_names passthrough_names
      (build_sanitized_env baseline_names passthrough_names sources)
build_sanitized_env-IsSanitized_example =
    build_sanitized_env-IsSanitized baseline_names passthrough_names sources

abbrev setting : Text
setting = codes "a: ---" ++ newline ∷ []

abbrev prompt : Text
prompt = codes "do it" ++ newline ∷ []

setting_is_plain : is_fence setting ≡ false
unfolding is_fence
setting_is_plain = refl

split_front_matter-printed_example :
    split_front_matter (lf_fence ++ (join (setting ∷ []) ++ (lf_fence ++ prompt)))
    ≡ (join (setting ∷ []), prompt)
split_front_matter-printed_example =
    split_front_matter-printed lf_fence (setting ∷ []) prompt lf
      (
        longer _ _ refl (
            longer _ _ refl
              (longer _ _ refl (longer _ _ refl (longer _ _ refl (longer _ _ refl ended))))),
        tt,
      )
      (setting_is_plain, tt)

-- With an opening fence that ends in CRLF and a closing one that ends in LF, both are trimmed away.
abbrev mixed_file : Text
mixed_file = crlf_fence ++ (lf_fence ++ prompt)

mixed_fences : split_front_matter mixed_file ≡ ([], mixed_file)
unfolding split_front_matter scan_lines split_after_newlines join is_fence trim_line_end behind
    text_eq
mixed_fences = refl
