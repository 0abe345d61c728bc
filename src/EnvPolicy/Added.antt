-- ===== src/EnvPolicy/Added.antt =====
-- What becomes of each name that is asked for.
use aiops_platform.Common.{
  ◌≡◌, refl, Bool, true, false, not, ◌&&◌, Option, none, some, List, [], ◌∷◌, Text, text_eq,
  text_eq_iff, trim_space, contains, arith, Bool-cases, ◌⊎◌, inl, inr, if◌then◌else◌,
}
use aiops_platform.Common.Map.{has, has-insert}
use aiops_platform.EnvPolicy.{
  EnvSources, EnvBuilder, is_permitted, allowed_name, value, grow, add, add_names,
}

module _ (s : EnvSources) where
  -- What `add` does with a raw name.
  pub data IsAdded (b : EnvBuilder) (raw : Text) : EnvBuilder → Type 0 where
    skipped :
        (has (trim_space raw) b.seen ≡ true) ⊎ (is_permitted s (trim_space raw) ≡ false)
        → IsAdded b raw b
    valueless : value s (trim_space raw) ≡ none → IsAdded b raw b
    grown :
        (v : Text)
        → has (trim_space raw) b.seen ≡ false
        → is_permitted s (trim_space raw) ≡ true
        → value s (trim_space raw) ≡ some v
        → IsAdded b raw (grow b (trim_space raw) (some v))

  looked_up :
      (b : EnvBuilder) (raw : Text) (found : Option Text)
      → value s (trim_space raw) ≡ found
      → has (trim_space raw) b.seen ≡ false
      → is_permitted s (trim_space raw) ≡ true
      → IsAdded b raw (grow b (trim_space raw) found)
  looked_up b raw none e fresh h = valueless e
  looked_up b raw (some v) e fresh h = grown v fresh h e

  tested :
      (b : EnvBuilder) (raw : Text) (known permitted : Bool)
      → has (trim_space raw) b.seen ≡ known
      → is_permitted s (trim_space raw) ≡ permitted
      → IsAdded b raw (elim (if not known && permitted then some (trim_space raw) else none) [
        | none ↦ b
        | some name ↦ grow b name (value s name)
      ])
  tested b raw true permitted k h = skipped (inl k)
  tested b raw false false k h = skipped (inr h)
  tested b raw false true k h = looked_up b raw (value s (trim_space raw)) refl k h

  pub add-IsAdded : (b : EnvBuilder) (raw : Text) → IsAdded b raw (add s b raw)
  unfolding add allowed_name
  add-IsAdded b raw =
      tested b raw (has (trim_space raw) b.seen) (is_permitted s (trim_space raw)) refl refl

  -- A name that was seen stays so, and a permitted one with a value is seen behind its turn.
  added-seen :
      {b : EnvBuilder} {raw : Text} {c : EnvBuilder} (name : Text)
      → IsAdded b raw c
      → has name b.seen ≡ true
      → has name c.seen ≡ true
  added-seen name (skipped why) h = h
  added-seen name (valueless e) h = h
  added-seen {b = b} {raw = raw} name (grown v fresh p e) h =
      ground (arith, h, has-insert name (trim_space raw) tt b.seen)

  added-own :
      {b : EnvBuilder} {raw : Text} {c : EnvBuilder} (v : Text)
      → IsAdded b raw c
      → is_permitted s (trim_space raw) ≡ true
      → value s (trim_space raw) ≡ some v
      → has (trim_space raw) c.seen ≡ true
  added-own v (skipped (inl h)) p e = h
  added-own v (skipped (inr h)) p e = absurd (ground (arith, h, p))
  added-own v (valueless n) p e = cc
  added-own {b = b} {raw = raw} v (grown w fresh q f) p e = ground (
    arith,
    text_eq_iff (trim_space raw) (trim_space raw),
    has-insert (trim_space raw) (trim_space raw) tt b.seen,
  )

  add_names-seen :
      (b : EnvBuilder) (l : List Text) (name : Text)
      → has name b.seen ≡ true
      → has name (add_names s b l).seen ≡ true
  unfolding add_names
  add_names-seen b [] name h = h
  add_names-seen b (raw ∷ l) name h =
      add_names-seen (add s b raw) l name (added-seen name (add-IsAdded b raw) h)

  pub add_names-all :
      (b : EnvBuilder) (l : List Text) (raw v : Text)
      → contains raw l ≡ true
      → is_permitted s (trim_space raw) ≡ true
      → value s (trim_space raw) ≡ some v
      → has (trim_space raw) (add_names s b l).seen ≡ true
  unfolding add_names contains
  add_names-all b [] raw v c h e = cc
  add_names-all b (x ∷ l) raw v c h e = elim (Bool-cases (text_eq x raw)) [
    | inl same ↦
        rw ((text_eq_iff x raw).0 same)
          (add_names-seen (add s b raw) l (trim_space raw) (added-own v (add-IsAdded b raw) h e))
    | inr other ↦ add_names-all (add s b x) l raw v (rw other at c) h e
  ]
