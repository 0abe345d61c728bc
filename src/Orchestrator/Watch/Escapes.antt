-- ===== src/Orchestrator/Watch/Escapes.antt =====
-- No run over its budget escapes the operation that cancels such runs.
use aiops_platform.Common.{
  ℕ, ◌≡◌, refl, ap, sym, ◌∙◌, Bool, true, false, List, [], ◌∷◌, arith, Bool-cases, inl, inr, ◌==◌,
  if◌then◌else◌,
}
use mathlib.Core.Path.{subst, ap₂}
use aiops_platform.Common.Map.{Map}
use aiops_platform.Orchestrator.Types.{OrchestratorState, RunningEntry, BudgetGuardrails}
use aiops_platform.Orchestrator.Actor.{cancel_runs}
use aiops_platform.Orchestrator.RuntimeEvents.Budget.{mark_budget_exceeded_if_needed}
use aiops_platform.Orchestrator.RuntimeEvents.Budget.Once.{
  is_over_budget, Marks, mark_budget_exceeded_if_needed-Marks,
}
use aiops_platform.Orchestrator.Watch.{check_budget, exceeded_runs, reconcile_budget_exceeded}

-- The runs of the table that are over their budget, in its order.
unfoldable pub runs_over_budget : ℕ → Map ℕ → OrchestratorState → List ℕ
unfolding is_over_budget
runs_over_budget now [] s = []
runs_over_budget now ((id, run) ∷ rest) s =
    let later = runs_over_budget now rest s in
    if is_over_budget s.budget_guardrails now (s.runs run) then run ∷ later else later

-- The same runs are over their budget in `t`, and all that `s` has marked are marked.
pub record SameBudgets (now : ℕ) (s t : OrchestratorState) : Type 0 where
  pub over :
      (a : ℕ)
      → is_over_budget t.budget_guardrails now (t.runs a)
        ≡ is_over_budget s.budget_guardrails now (s.runs a)
  pub marked : (a : ℕ) → (s.runs a).budget_exceeded ≡ true → (t.runs a).budget_exceeded ≡ true

-- What the check of one run does.
record Checked (now run : ℕ) (s : OrchestratorState) (r : OrchestratorState × Bool) : Type 0 where
  pub hit : r.1 ≡ is_over_budget s.budget_guardrails now (s.runs run)
  pub mark : r.1 ≡ true → (r.0.runs run).budget_exceeded ≡ true
  pub budgets : SameBudgets now s r.0

-- A marked run is over its budget.
marked-over :
    (guard : BudgetGuardrails) (now : ℕ) (run : RunningEntry)
    → run.budget_exceeded ≡ true
    → is_over_budget guard now run ≡ true
unfolding is_over_budget
marked-over guard now run h = ground (arith, h)

marked_run :
    (now run : ℕ) (s : OrchestratorState) (r : OrchestratorState × Bool)
    → Marks now run s r
    → is_over_budget r.0.budget_guardrails now (r.0.runs run)
      ≡ is_over_budget s.budget_guardrails now (s.runs run)
marked_run now run s r m = elim (Bool-cases r.1) [
  | inl h ↦
      let over : is_over_budget s.budget_guardrails now (s.runs run) ≡ true =
        ground (arith, m.hit, h) in
      marked-over r.0.budget_guardrails now (r.0.runs run) (m.mark ∙ over) ∙ sym over
  | inr h ↦ ap (λ t. is_over_budget t.budget_guardrails now (t.runs run)) (m.kept h)
]

Marks-budgets :
    (now run : ℕ) (s : OrchestratorState) (r : OrchestratorState × Bool)
    → Marks now run s r
    → SameBudgets now s r.0
Marks-budgets now run s r m = record {
  over = λ a. elim (Bool-cases (a == run)) [
    | inl h ↦
        subst
          (λ b.
            is_over_budget r.0.budget_guardrails now (r.0.runs b)
            ≡ is_over_budget s.budget_guardrails now (s.runs b))
          (same a h) (marked_run now run s r m)
    | inr h ↦ ap₂ (λ g e. is_over_budget g now e) m.limits (m.others a h)
  ];
  marked = λ a k. elim (Bool-cases (a == run)) [
    | inl h ↦
        subst (λ b. (r.0.runs b).budget_exceeded ≡ true) (same a h)
          (m.mark
            ∙ marked-over s.budget_guardrails now (s.runs run)
                (subst (λ b. (s.runs b).budget_exceeded ≡ true) (sym (same a h)) k))
    | inr h ↦ ap (λ e. e.budget_exceeded) (m.others a h) ∙ k
  ];
}
  where
    same : (a : ℕ) → (a == run) ≡ true → run ≡ a
    same a h = ground (arith, h)

check_budget-Checked :
    (now run : ℕ) (s : OrchestratorState) → Checked now run s (check_budget now run s)
unfolding check_budget
check_budget-Checked now run s =
    let m = mark_budget_exceeded_if_needed-Marks now run s in
    elim (Bool-cases (s.runs run).budget_exceeded) [
      | inl h ↦
          rw (h, check_budget)
            (record {
              hit = sym (marked-over s.budget_guardrails now (s.runs run) h);
              mark = λ x. h;
              budgets = record { over = λ a. refl; marked = λ a k. k };
            })
      | inr h ↦
          rw (h, check_budget)
            (record {
              hit = ground (arith, m.hit, h);
              mark = λ x. ground (arith, m.hit, m.mark, h, x);
              budgets = Marks-budgets now run s (mark_budget_exceeded_if_needed now run s) m;
            })
    ]

abbrev pub AllMarked : List ℕ → OrchestratorState → Type 0
AllMarked [] t = Unit {0}
AllMarked (run ∷ runs) t = ((t.runs run).budget_exceeded ≡ true) × AllMarked runs t

marked_cons :
    (hit : Bool) (run : ℕ) (runs : List ℕ) (t : OrchestratorState)
    → (hit ≡ true → (t.runs run).budget_exceeded ≡ true)
    → AllMarked runs t
    → AllMarked (if hit then run ∷ runs else runs) t
marked_cons true run runs t h all = (h refl, all)
marked_cons false run runs t h all = all

-- The canceled runs are the runs of the table over their budget, each of them is marked, and no mark
-- is taken back.
pub record CancelsOverBudget (now : ℕ) (entries : Map ℕ) (s : OrchestratorState)
    (r : OrchestratorState × List ℕ) : Type 0 where
  pub canceled : r.1 ≡ runs_over_budget now entries s
  pub mark : AllMarked r.1 r.0
  pub budgets : SameBudgets now s r.0

runs_over_budget-same :
    (now : ℕ) (entries : Map ℕ) (s t : OrchestratorState)
    → SameBudgets now s t
    → runs_over_budget now entries t ≡ runs_over_budget now entries s
unfolding runs_over_budget
runs_over_budget-same now [] s t b = refl
runs_over_budget-same now ((id, run) ∷ rest) s t b =
    rw (b.over run, runs_over_budget-same now rest s t b) refl

pub exceeded_runs-Cancels :
    (now : ℕ) (entries : Map ℕ) (s : OrchestratorState)
    → CancelsOverBudget now entries s (exceeded_runs now entries s)
unfolding exceeded_runs runs_over_budget
exceeded_runs-Cancels now [] s = record {
  canceled = refl;
  mark = tt;
  budgets = record { over = λ a. refl; marked = λ a k. k };
}
exceeded_runs-Cancels now ((id, run) ∷ rest) s =
    let c = check_budget-Checked now run s in
    let t = (check_budget now run s).0 in
    let r = exceeded_runs-Cancels now rest t in
    record {
      canceled = rw (c.hit, r.canceled, runs_over_budget-same now rest s t c.budgets) refl;
      mark =
          marked_cons (check_budget now run s).1 run (exceeded_runs now rest t).1
            (exceeded_runs now rest t).0 (λ h. r.budgets.marked run (c.mark h)) r.mark;
      budgets = record {
        over = λ a. r.budgets.over a ∙ c.budgets.over a;
        marked = λ a k. r.budgets.marked a (c.budgets.marked a k);
      };
    }

-- The operation cancels exactly the runs of the table that are over their budget, it marks each of
-- them, and takes no mark back.
pub reconcile_budget_exceeded-Cancels :
    (now : ℕ) (s : OrchestratorState)
    → (canceled : List ℕ) × ((reconcile_budget_exceeded now s).1 ≡ cancel_runs canceled [])
      × CancelsOverBudget now s.running s ((reconcile_budget_exceeded now s).0, canceled)
unfolding reconcile_budget_exceeded
reconcile_budget_exceeded-Cancels now s =
    ((exceeded_runs now s.running s).1, refl, exceeded_runs-Cancels now s.running s)
