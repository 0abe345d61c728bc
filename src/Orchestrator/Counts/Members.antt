-- ===== src/Orchestrator/Counts/Members.antt =====
-- Which ids runningIssueIDs counts: those running or claimed, less those retrying or blocked.
use aiops_platform.Common.{
  List, [], ◌∷◌, Bool, not, ◌&&◌, ◌||◌, ◌≡◌, refl, ap, ◌∙◌, Text, contains, arith,
}
use aiops_platform.Common.Map.{
  Map, TextSet, lookup, has, insert, delete, keys, has-insert, has-delete, UniqueKeys,
  insert-UniqueKeys, delete-UniqueKeys,
}
use aiops_platform.Orchestrator.Types.{OrchestratorState}
use aiops_platform.Orchestrator.Counts.{add_ids, delete_ids, running_issue_ids}

pub contains-keys {ℓ} : {V : Type ℓ} (j : Text) (m : Map V) → contains j (keys m) ≡ has j m
unfolding contains lookup keys
contains-keys j [] = refl
contains-keys j ((k, v) ∷ m) = ground (arith, contains-keys j m)

has-add_ids :
    (j : Text) (ids : List Text) (counted : TextSet)
    → has j (add_ids ids counted) ≡ contains j ids || has j counted
unfolding add_ids contains
has-add_ids j [] counted = refl
has-add_ids j (id ∷ ids) counted =
    ground (arith, has-insert j id tt counted, has-add_ids j ids (insert id tt counted))

has-delete_ids :
    (j : Text) (ids : List Text) (counted : TextSet)
    → has j (delete_ids ids counted) ≡ not (contains j ids) && has j counted
unfolding delete_ids contains
has-delete_ids j [] counted = refl
has-delete_ids j (id ∷ ids) counted =
    ground (arith, has-delete j id counted, has-delete_ids j ids (delete id counted))

has-add_keys {ℓ} :
    {V : Type ℓ} (j : Text) (m : Map V) (counted : TextSet)
    → has j (add_ids (keys m) counted) ≡ has j m || has j counted
has-add_keys j m counted = rw (has-add_ids j (keys m) counted, contains-keys j m)

has-delete_keys {ℓ} :
    {V : Type ℓ} (j : Text) (m : Map V) (counted : TextSet)
    → has j (delete_ids (keys m) counted) ≡ not (has j m) && has j counted
has-delete_keys j m counted = rw (has-delete_ids j (keys m) counted, contains-keys j m)

has-add_keys_empty {ℓ} : {V : Type ℓ} (j : Text) (m : Map V) → has j (add_ids (keys m) []) ≡ has j m
unfolding lookup
has-add_keys_empty j m = ground (arith, has-add_keys j m [])

abbrev pub holds_slot : Text → OrchestratorState → Bool
holds_slot j s =
    not (has j s.blocked) && (not (has j s.retry_attempts) && (has j s.claimed || has j s.running))

-- The counted ids are exactly those that hold a concurrency slot.
pub has-running_issue_ids :
    (j : Text) (s : OrchestratorState) → has j (running_issue_ids s) ≡ holds_slot j s
unfolding running_issue_ids lookup
has-running_issue_ids j s =
    has-delete_keys j s.blocked _
    ∙ ap (◌&&◌ (not (has j s.blocked))) (
        has-delete_keys j s.retry_attempts _
        ∙ ap (◌&&◌ (not (has j s.retry_attempts))) (
            has-add_keys j s.claimed _
            ∙ ap (◌||◌ (has j s.claimed)) (has-add_keys_empty j s.running)))

add_ids-UniqueKeys :
    (ids : List Text) (counted : TextSet) → UniqueKeys counted → UniqueKeys (add_ids ids counted)
unfolding add_ids
add_ids-UniqueKeys [] counted u = u
add_ids-UniqueKeys (id ∷ ids) counted u =
    add_ids-UniqueKeys ids (insert id tt counted) (insert-UniqueKeys id tt counted u)

delete_ids-UniqueKeys :
    (ids : List Text) (counted : TextSet) → UniqueKeys counted → UniqueKeys (delete_ids ids counted)
unfolding delete_ids
delete_ids-UniqueKeys [] counted u = u
delete_ids-UniqueKeys (id ∷ ids) counted u =
    delete_ids-UniqueKeys ids (delete id counted) (delete-UniqueKeys id counted u)

pub running_issue_ids-UniqueKeys : (s : OrchestratorState) → UniqueKeys (running_issue_ids s)
unfolding running_issue_ids
running_issue_ids-UniqueKeys s = delete_ids-UniqueKeys (keys s.blocked) _ (
    delete_ids-UniqueKeys (keys s.retry_attempts) _
      (add_ids-UniqueKeys (keys s.claimed) _ (add_ids-UniqueKeys (keys s.running) [] tt)))
