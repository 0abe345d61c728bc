-- ===== src/EnvPolicy/Denial.antt =====
-- What an empty reason to deny a name says of it.
use aiops_platform.Common.{
  ◌≡◌, refl, Bool, true, false, List, [], Text, is_empty, trim_space, trim_space_idem, arith,
  Bool-cases, inl, inr, if◌then◌else◌,
}
use aiops_platform.EnvPolicy.{
  Config, Lookup, folds_to_any, secret_environment_names, tracker_secrets_for_config,
  is_secret_value, agent_env_passthrough_deny_reason, agent_env_passthrough_deny_reason_for_config,
  deny_reason_for_secrets, secret_name_reason, secret_value_reason,
}

-- The name is no tracker's secret name, and its value no secret value.
pub record IsHarmless (cfg : Config) (lookup : Lookup) (name : Text) : Type 0 where
  pub no_known_name : folds_to_any name secret_environment_names ≡ false
  pub no_configured_name : folds_to_any name (tracker_secrets_for_config cfg).0 ≡ false
  pub no_secret_value : is_secret_value (tracker_secrets_for_config cfg).1 (lookup name) ≡ false

reason-known :
    (name : Text)
    → is_empty (agent_env_passthrough_deny_reason name) ≡ true
    → folds_to_any (trim_space name) secret_environment_names ≡ false
unfolding agent_env_passthrough_deny_reason
reason-known name h = elim (Bool-cases (folds_to_any (trim_space name) secret_environment_names)) [
  | inl e ↦ absurd (ground (arith, h, e))
  | inr e ↦ e
]

reason-secrets :
    (names values : List Text) (lookup : Lookup) (name : Text)
    → is_empty (deny_reason_for_secrets names values lookup name) ≡ true
    → (folds_to_any name names ≡ false) × (is_secret_value values (lookup name) ≡ false)
unfolding deny_reason_for_secrets
reason-secrets names values lookup name h =
    split (folds_to_any name names) (is_secret_value values (lookup name)) h
  where
    split :
        (a b : Bool)
        → is_empty (if a then secret_name_reason else if b then secret_value_reason else []) ≡ true
        → (a ≡ false) × (b ≡ false)
    split false false h = (refl, refl)
    split false true h = cc
    split true b h = cc

pub reason-IsHarmless :
    (cfg : Config) (lookup : Lookup) (raw : Text)
    → is_empty (agent_env_passthrough_deny_reason_for_config cfg lookup raw) ≡ true
    → IsHarmless cfg lookup (trim_space raw)
unfolding agent_env_passthrough_deny_reason_for_config
reason-IsHarmless cfg lookup raw h =
    elim (Bool-cases (is_empty (agent_env_passthrough_deny_reason (trim_space raw)))) [
      | inl e ↦
          let r =
            reason-secrets (tracker_secrets_for_config cfg).0 (tracker_secrets_for_config cfg).1
              lookup (trim_space raw) (rw e at h) in
          record {
            no_known_name = rw (trim_space_idem raw) at (reason-known (trim_space raw) e);
            no_configured_name = r.0;
            no_secret_value = r.1;
          }
      | inr e ↦ absurd (ground (arith, h, e))
    ]
