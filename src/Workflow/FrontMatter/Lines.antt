-- ===== src/Workflow/FrontMatter/Lines.antt =====
-- Lines that are split and joined.
use aiops_platform.Common.{
  ℕ, ◌≢◌, ◌≡◌, refl, sym, ap, ◌∙◌, ◌==◌, List, [], ◌∷◌, ◌++◌, Text, Bool-cases, inl, inr,
}
use aiops_platform.Workflow.FrontMatter.{newline, onto_lines, split_after_newlines, join}

pub append_assoc : (l m n : Text) → (l ++ m) ++ n ≡ l ++ (m ++ n)
append_assoc [] m n = refl
append_assoc (c ∷ l) m n = ap (◌∷◌ c) (append_assoc l m n)

pub append_nil : (l : Text) → l ++ [] ≡ l
append_nil [] = refl
append_nil (c ∷ l) = ap (◌∷◌ c) (append_nil l)

pub join-append : (l m : List Text) → join (l ++ m) ≡ join l ++ join m
unfolding join
join-append [] m = refl
join-append (x ∷ l) m = ap (◌++◌ x) (join-append l m) ∙ sym (append_assoc x (join l) (join m))

join-onto_lines :
    (c : ℕ) (lines : List Text) → lines ≢ [] → join (onto_lines c lines) ≡ c ∷ join lines
unfolding join
join-onto_lines c [] h = absurd (h refl)
join-onto_lines c (line ∷ rest) h = elim (Bool-cases (c == newline)) [
  | inl e ↦ rw e refl
  | inr e ↦ rw e refl
]

onto_lines-some : (c : ℕ) (lines : List Text) → lines ≢ [] → onto_lines c lines ≢ []
onto_lines-some c [] h = h
onto_lines-some c (line ∷ rest) h = elim (Bool-cases (c == newline)) [
  | inl e ↦ rw e (λ k. cc)
  | inr e ↦ rw e (λ k. cc)
]

pub lines-some : (s : Text) → split_after_newlines s ≢ []
unfolding split_after_newlines
lines-some [] = λ k. cc
lines-some (c ∷ s) = onto_lines-some c (split_after_newlines s) (lines-some s)

pub join-split_after_newlines : (s : Text) → join (split_after_newlines s) ≡ s
unfolding join split_after_newlines
join-split_after_newlines [] = refl
join-split_after_newlines (c ∷ s) =
    join-onto_lines c (split_after_newlines s) (lines-some s)
    ∙ ap (◌∷◌ c) (join-split_after_newlines s)
