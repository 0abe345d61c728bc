-- ===== src/Workflow/FrontMatter/Printed.antt =====
-- A workflow file that is put together from settings and a prompt.
use aiops_platform.Common.{
  ℕ, ◌≢◌, ◌≡◌, refl, sym, ap, ◌∙◌, true, false, ◌==◌, none, some, List, [], ◌∷◌, ◌++◌, Text, arith,
  ◌⊎◌, inl, inr,
}
use mathlib.Core.Path.{subst}
use aiops_platform.Workflow.FrontMatter.{
  newline, lf_fence, crlf_fence, behind, parts_or_all, onto_lines, split_after_newlines, join,
  is_fence, scan_lines, split_front_matter,
}
use aiops_platform.Workflow.FrontMatter.Parts.{Plain}
use aiops_platform.Workflow.FrontMatter.Lines.{
  append_assoc, append_nil, lines-some, join-split_after_newlines,
}

-- A text with one newline, at its end.
pub data IsLine : Text → Type 0 where
  ended : IsLine (newline ∷ [])
  longer : (c : ℕ) (line : Text) → c == newline ≡ false → IsLine line → IsLine (c ∷ line)

abbrev pub AllLines : List Text → Type 0
AllLines [] = Unit {0}
AllLines (line ∷ rest) = IsLine line × AllLines rest

split-line :
    {line : Text} (t : Text)
    → IsLine line
    → split_after_newlines (line ++ t) ≡ line ∷ split_after_newlines t
unfolding split_after_newlines
split-line t ended = starts (split_after_newlines t) (lines-some t)
  where
    starts : (lines : List Text) → lines ≢ [] → onto_lines newline lines ≡ (newline ∷ []) ∷ lines
    starts [] h = absurd (h refl)
    starts (line ∷ rest) h = refl
split-line t (longer c line e h) = rw (split-line t h, e) refl

scan_lines-lines :
    (front : Text) (lines after : List Text) (fence : Text)
    → Plain lines
    → is_fence fence ≡ true
    → scan_lines front (lines ++ fence ∷ after) ≡ some (front ++ join lines, join after)
unfolding scan_lines join
scan_lines-lines front [] after fence p f =
    rw f (ap (λ u. some (u, join after)) (sym (append_nil front)))
scan_lines-lines front (line ∷ lines) after fence p f = rw p.0 (
    scan_lines-lines (front ++ line) lines after fence p.1 f
    ∙ ap (λ u. some (u, join after)) (append_assoc front line (join lines)))

split-lines :
    (lines : List Text) (t : Text)
    → AllLines lines
    → split_after_newlines (join lines ++ t) ≡ lines ++ split_after_newlines t
unfolding join
split-lines [] t h = refl
split-lines (line ∷ lines) t h =
    rw (append_assoc line (join lines) t, split-line (join lines ++ t) h.0)
      (ap (◌∷◌ line) (split-lines lines t h.1))

behind-line :
    {p line : Text} (t : Text) → IsLine p → IsLine line → (line ≡ p) ⊎ (behind p (line ++ t) ≡ none)
unfolding behind
behind-line t ended ended = inl refl
behind-line t ended (longer c line e h) = inr (ground (arith, e))
behind-line t (longer p prefix e h) ended = inr (ground (arith, e))
behind-line t (longer p prefix e h) (longer c line f k) = elim (behind-line t h k) [
  | inl same ↦ ground (arith, same)
  | inr differ ↦ inr (ground (arith, differ))
]

pub data IsFence : Text → Type 0 where
  lf : IsFence lf_fence
  crlf : IsFence crlf_fence

lf_is_fence : is_fence lf_fence ≡ true
unfolding is_fence
lf_is_fence = refl

crlf_is_fence : is_fence crlf_fence ≡ true
unfolding is_fence
crlf_is_fence = refl

lf_fence-IsLine : IsLine lf_fence
lf_fence-IsLine = longer _ _ refl (longer _ _ refl (longer _ _ refl ended))

crlf_fence-IsLine : IsLine crlf_fence
crlf_fence-IsLine = longer _ _ refl (longer _ _ refl (longer _ _ refl (longer _ _ refl ended)))

-- No second fence is trimmed away.
crlf-kept :
    (lines : List Text) (body : Text)
    → AllLines lines
    → Plain lines
    → behind lf_fence (join lines ++ (crlf_fence ++ body)) ≡ none
unfolding join behind
crlf-kept [] body h p = refl
crlf-kept (line ∷ lines) body h p =
    rw (append_assoc line (join lines) (crlf_fence ++ body))
      (elim (behind-line (join lines ++ (crlf_fence ++ body)) lf_fence-IsLine h.0) [
        | inl e ↦ absurd (ground (arith, lf_is_fence, subst (λ l. is_fence l ≡ false) e p.0))
        | inr n ↦ n
      ])

lines_found :
    (fence : Text) (lines : List Text) (body s : Text)
    → IsLine fence
    → is_fence fence ≡ true
    → AllLines lines
    → Plain lines
    → parts_or_all s (scan_lines [] (split_after_newlines (join lines ++ (fence ++ body))))
      ≡ (join lines, body)
lines_found fence lines body s l f h p =
    rw
      (
        split-lines lines (fence ++ body) h,
        split-line body l,
        scan_lines-lines [] lines (split_after_newlines body) fence p f,
      )
      (ap (λ u. (join lines, u)) (join-split_after_newlines body))

-- A fence, lines of settings of which none is a fence, a fence with the same end of line, and a prompt:
-- splitting the file that they make gives the settings and the prompt back.
pub split_front_matter-printed :
    (fence : Text) (lines : List Text) (body : Text)
    → IsFence fence
    → AllLines lines
    → Plain lines
    → split_front_matter (fence ++ (join lines ++ (fence ++ body))) ≡ (join lines, body)
unfolding split_front_matter behind
split_front_matter-printed fence lines body lf h p =
    lines_found lf_fence lines body _ lf_fence-IsLine lf_is_fence h p
split_front_matter-printed fence lines body crlf h p =
    rw (crlf-kept lines body h p)
      (lines_found crlf_fence lines body _ crlf_fence-IsLine crlf_is_fence h p)
