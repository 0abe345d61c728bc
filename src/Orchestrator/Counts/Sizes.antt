-- ===== src/Orchestrator/Counts/Sizes.antt =====
-- How RunningCount changes with the slots that are held.
use aiops_platform.Common.{
  suc, ◌≤◌, [], ◌∷◌, true, ◌||◌, ◌≡◌, sym, ◌∙◌, Text, text_eq, text_eq_iff, text_eq_refl, length,
  arith,
}
use aiops_platform.Common.Map.{
  Map, TextSet, lookup, has, insert, delete, has-insert, has-delete, UniqueKeys, length-insert,
  length-delete, insert-UniqueKeys, delete-UniqueKeys,
}
use aiops_platform.Orchestrator.Types.{OrchestratorState}
use aiops_platform.Orchestrator.Counts.{running_issue_ids, running_count}
use aiops_platform.Orchestrator.Counts.Members.{
  holds_slot, has-running_issue_ids, running_issue_ids-UniqueKeys,
}

-- A map whose keys all stand in another is no larger.
pub length-le_of_has {ℓ κ} :
    {V : Type ℓ} {W : Type κ} (a : Map V) (b : Map W)
    → UniqueKeys a
    → UniqueKeys b
    → ((j : Text) → has j a ≡ true → has j b ≡ true)
    → length a ≤ length b
unfolding lookup
length-le_of_has [] b ua ub sub = omega arith
length-le_of_has ((k, v) ∷ a) b ua ub sub = ground (
  arith,
  text_eq_refl k,
  sub k,
  length-delete k b ub,
  length-le_of_has a (delete k b) ua.1 (delete-UniqueKeys k b ub)
      (λ j h. ground (arith, sub j, has-delete j k b, text_eq_iff k j)),
)

pub running_count-le_of_slots :
    (s t : OrchestratorState)
    → ((j : Text) → holds_slot j s ≡ true → holds_slot j t ≡ true)
    → running_count s ≤ running_count t
unfolding running_count
running_count-le_of_slots s t sub =
    length-le_of_has (running_issue_ids s) (running_issue_ids t) (running_issue_ids-UniqueKeys s)
      (running_issue_ids-UniqueKeys t)
      (λ j h. has-running_issue_ids j t ∙ sub j (sym (has-running_issue_ids j s) ∙ h))

-- One new slot at most adds one to the count.
pub running_count-le_of_one_slot :
    (s t : OrchestratorState) (id : Text)
    → ((j : Text) → holds_slot j t ≡ true → (text_eq id j || holds_slot j s) ≡ true)
    → running_count t ≤ suc (running_count s)
unfolding running_count
running_count-le_of_one_slot s t id sub = omega (
  arith,
  length-le_of_has (running_issue_ids t) (insert id tt (running_issue_ids s))
      (running_issue_ids-UniqueKeys t)
      (insert-UniqueKeys id tt (running_issue_ids s) (running_issue_ids-UniqueKeys s))
      (λ j h. ground (
        arith,
        has-insert j id tt (running_issue_ids s),
        has-running_issue_ids j s,
        has-running_issue_ids j t,
        sub j,
      )),
  length-insert_le id tt (running_issue_ids s),
)
  where
    length-insert_le :
        (k : Text) (v : Unit {0}) (m : TextSet) → length (insert k v m) ≤ suc (length m)
    length-insert_le k v m = ground (arith, length-insert k v m)
