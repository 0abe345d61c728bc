-- ===== src/EnvPolicy/Sanitized.antt =====
-- What the environment of a child process holds.
use aiops_platform.Common.{
  ◌≡◌, refl, sym, ap, ◌∙◌, true, false, some, List, [], ◌∷◌, ◌++◌, Text, is_empty, trim_space,
  trim_space_idem, contains, contains_snoc, Distinct, Distinct-snoc, arith,
}
use mathlib.Core.Path.{subst}
use aiops_platform.Common.Map.{has, lookup, insert, has-insert}
use aiops_platform.EnvPolicy.{
  EnvSources, EnvBuilder, has_equals_sign, is_permitted, value, entry, add, add_names,
  build_sanitized_env,
}
use aiops_platform.EnvPolicy.Denial.{IsHarmless, reason-IsHarmless}
use aiops_platform.EnvPolicy.Added.{IsAdded, skipped, valueless, grown, add-IsAdded, add_names-all}

abbrev pub names : List (Text × Text) → List Text
names [] = []
names ((name, v) ∷ rest) = name ∷ names rest

abbrev pub shown : List (Text × Text) → List Text
shown [] = []
shown ((name, v) ∷ rest) = entry name v ∷ shown rest

names-append : (l m : List (Text × Text)) → names (l ++ m) ≡ names l ++ names m
names-append [] m = refl
names-append ((name, v) ∷ l) m = ap (◌∷◌ name) (names-append l m)

shown-append : (l m : List (Text × Text)) → shown (l ++ m) ≡ shown l ++ shown m
shown-append [] m = refl
shown-append ((name, v) ∷ l) m = ap (◌∷◌ (entry name v)) (shown-append l m)

module _ (s : EnvSources) where
  -- A variable that may be passed on: a name without `=` that reveals no secret, with its value.
  pub record IsAllowed (name v : Text) : Type 0 where
    pub filled : is_empty name ≡ false
    pub plain : has_equals_sign name ≡ false
    pub harmless : IsHarmless s.cfg s.lookup name
    pub its_value : value s name ≡ some v

  abbrev pub AllAllowed : List (Text × Text) → Type 0
  AllAllowed [] = Unit {0}
  AllAllowed ((name, v) ∷ rest) = IsAllowed name v × AllAllowed rest

  AllAllowed-append : (l m : List (Text × Text)) → AllAllowed l → AllAllowed m → AllAllowed (l ++ m)
  AllAllowed-append [] m a b = b
  AllAllowed-append ((name, v) ∷ l) m a b = (a.0, AllAllowed-append l m a.1 b)

  -- The builder holds these variables, each once.
  record Holds (b : EnvBuilder) : Type 0 where
    pub variables : List (Text × Text)
    pub env_shown : b.env ≡ shown variables
    pub once : Distinct (names variables)
    pub allowed : AllAllowed variables
    pub tracked : (name : Text) → has name b.seen ≡ contains name (names variables)

  permitted-IsAllowed :
      (raw v : Text)
      → is_permitted s (trim_space raw) ≡ true
      → value s (trim_space raw) ≡ some v
      → IsAllowed (trim_space raw) v
  unfolding is_permitted
  permitted-IsAllowed raw v h e = record {
    filled = ground (arith, h);
    plain = ground (arith, h);
    harmless =
        rw (trim_space_idem raw) at
          (reason-IsHarmless s.cfg s.lookup (trim_space raw) (ground (arith, h)));
    its_value = e;
  }

  grown-Holds :
      (b : EnvBuilder) (name v : Text)
      → Holds b
      → has name b.seen ≡ false
      → IsAllowed name v
      → Holds (record { seen = insert name tt b.seen; env = b.env ++ entry name v ∷ [] })
  grown-Holds b name v h fresh a = record {
    variables = h.variables ++ (name, v) ∷ [];
    env_shown = rw (h.env_shown, shown-append h.variables ((name, v) ∷ [])) refl;
    once =
        subst Distinct (sym (names-append h.variables ((name, v) ∷ [])))
          (Distinct-snoc name (names h.variables) (sym (h.tracked name) ∙ fresh) h.once);
    allowed = AllAllowed-append h.variables ((name, v) ∷ []) h.allowed (a, tt);
    tracked = λ n.
        rw
          (
            names-append h.variables ((name, v) ∷ []),
            contains_snoc n name (names h.variables),
            has-insert n name tt b.seen,
          )
          (ground (arith, h.tracked n));
  }

  added-Holds :
      {b : EnvBuilder} {raw : Text} {c : EnvBuilder} → IsAdded s b raw c → Holds b → Holds c
  added-Holds (skipped why) h = h
  added-Holds (valueless e) h = h
  added-Holds {b = b} {raw = raw} (grown v fresh p e) h =
      grown-Holds b (trim_space raw) v h fresh (permitted-IsAllowed raw v p e)

  add_names-Holds : (b : EnvBuilder) (l : List Text) → Holds b → Holds (add_names s b l)
  unfolding add_names
  add_names-Holds b [] h = h
  add_names-Holds b (raw ∷ l) h =
      add_names-Holds (add s b raw) l (added-Holds (add-IsAdded s b raw) h)

abbrev empty_builder : EnvBuilder
empty_builder = record { seen = []; env = [] }

start-Holds : (s : EnvSources) → Holds s empty_builder
unfolding lookup contains
start-Holds s = record {
  variables = [];
  env_shown = refl;
  once = tt;
  allowed = tt;
  tracked = λ name. refl;
}

-- The environment shows variables that are allowed, each once, and every allowed variable that is asked for.
pub record IsSanitized (s : EnvSources) (baseline passthrough env : List Text) : Type 0 where
  pub variables : List (Text × Text)
  pub env_shown : env ≡ shown variables
  pub once : Distinct (names variables)
  pub allowed : AllAllowed s variables
  pub complete :
      (raw v : Text)
      → contains raw (baseline ++ passthrough) ≡ true
      → is_permitted s (trim_space raw) ≡ true
      → value s (trim_space raw) ≡ some v
      → contains (trim_space raw) (names variables) ≡ true

add_names-append :
    (s : EnvSources) (b : EnvBuilder) (l m : List Text)
    → add_names s (add_names s b l) m ≡ add_names s b (l ++ m)
unfolding add_names
add_names-append s b [] m = refl
add_names-append s b (raw ∷ l) m = add_names-append s (add s b raw) l m

-- The environment of a child process shows variables each of which has a name without `=` that is no
-- tracker's secret name, stands once, and has the value of its name, which is no secret value unless
-- the login shell gave it for PATH; and it has every such variable that the baseline or the
-- passthrough asks for.
pub build_sanitized_env-IsSanitized :
    (baseline passthrough : List Text) (s : EnvSources)
    → IsSanitized s baseline passthrough (build_sanitized_env baseline passthrough s)
unfolding build_sanitized_env
build_sanitized_env-IsSanitized baseline passthrough s = record {
  variables = h.variables;
  env_shown =
      ap (λ (b : EnvBuilder). b.env) (add_names-append s empty_builder baseline passthrough)
      ∙ h.env_shown;
  once = h.once;
  allowed = h.allowed;
  complete = λ raw v asked p e.
      sym (h.tracked (trim_space raw))
      ∙ add_names-all s empty_builder (baseline ++ passthrough) raw v asked p e;
}
  where
    h : Holds s (add_names s empty_builder (baseline ++ passthrough))
    h = add_names-Holds s empty_builder (baseline ++ passthrough) (start-Holds s)
