-- ===== src/Orchestrator/Poller/Inactive/Derived.antt =====
-- An issue with active evidence is not reconciled as inactive by a listing.
use aiops_platform.Common.{
  ◌≡◌, refl, ◌∙◌, Bool, true, false, not, some, List, [], ◌∷◌, Text, is_empty, text_eq, text_eq_iff,
  arith, Bool-cases, inl, inr, if◌then◌else◌, elim_intro,
}
use aiops_platform.Common.Map.{
  Map, TextSet, has, insert, delete, lookup, has-insert, has-delete, UniqueKeys,
}
use aiops_platform.Tracker.{Issue}
use aiops_platform.Orchestrator.Poller.Revalidate.{ReconciliationConfig}
use aiops_platform.Orchestrator.Poller.Inactive.{
  refreshed_issue_is_inactive, id_set, split_refreshed, add_inactive_listed_issues, StateLister,
  append_inactive_from_groups, derive_inactive_issues, reconcile_inactive_state_groups,
}

-- The refresh shows no row of `id` that is inactive.
pub record IsSpared (cfg : ReconciliationConfig) (active : TextSet) (refreshed : Map Issue)
    (id : Text) : Type 0 where
  pub spared :
      (issue : Issue)
      → lookup id refreshed ≡ some issue
      → refreshed_issue_is_inactive cfg active issue ≡ false

has-id_set : (id : Text) (m : Map Issue) → is_empty id ≡ false → has id (id_set m) ≡ has id m
unfolding id_set lookup
has-id_set id [] h = refl
has-id_set id ((k, issue) ∷ m) h =
    ground (arith, h, text_eq_iff k id, has-id_set id m h, has-insert id k tt (id_set m))

record KeepsSplit (id : Text) (before after : TextSet × Map Issue) : Type 0 where
  pub active : has id after.0 ≡ has id before.0
  pub inactive : has id after.1 ≡ has id before.1

split_step :
    (cfg : ReconciliationConfig) (active : TextSet) (k : Text) (issue : Issue) (id : Text)
    (seen : TextSet × Map Issue)
    → (text_eq k id ≡ true → refreshed_issue_is_inactive cfg active issue ≡ false)
    → KeepsSplit id seen (
        if not (refreshed_issue_is_inactive cfg active issue)
        then seen
        else (delete k seen.0, insert k issue seen.1))
split_step cfg active k issue id seen h =
    elim (Bool-cases (refreshed_issue_is_inactive cfg active issue)) [
      | inr e ↦ rw e (record { active = refl; inactive = refl })
      | inl e ↦ rw e (record {
        active = ground (arith, e, has-delete id k seen.0);
        inactive = ground (arith, e, has-insert id k issue seen.1);
      })
    ]

absent-IsSpared :
    (cfg : ReconciliationConfig) (active : TextSet) (m : Map Issue) (id : Text)
    → has id m ≡ false
    → IsSpared cfg active m id
absent-IsSpared cfg active m id h = record { spared = λ issue e. absurd (ground (arith, e, h)) }

rest-IsSpared :
    (cfg : ReconciliationConfig) (active : TextSet) (k : Text) (issue : Issue) (m : Map Issue)
    (id : Text)
    → has k m ≡ false
    → IsSpared cfg active ((k, issue) ∷ m) id
    → IsSpared cfg active m id
unfolding lookup
rest-IsSpared cfg active k issue m id u h = elim (Bool-cases (text_eq k id)) [
  | inl e ↦ absent-IsSpared cfg active m id (rw ((text_eq_iff k id).0 e) at u)
  | inr e ↦ record { spared = λ found f. h.spared found (ground (arith, e, f)) }
]

split_refreshed-KeepsSplit :
    (cfg : ReconciliationConfig) (active : TextSet) (entries : Map Issue) (id : Text)
    (seen : TextSet × Map Issue)
    → UniqueKeys entries
    → IsSpared cfg active entries id
    → KeepsSplit id seen (split_refreshed cfg active entries seen)
unfolding split_refreshed lookup
split_refreshed-KeepsSplit cfg active [] id seen u h = record { active = refl; inactive = refl }
split_refreshed-KeepsSplit cfg active ((k, issue) ∷ rest) id seen u h =
    let next =
      if not (refreshed_issue_is_inactive cfg active issue)
      then seen
      else (delete k seen.0, insert k issue seen.1) in
    let first = split_step cfg active k issue id seen λ e. h.spared issue (ground (arith, e)) in
    let tail =
      split_refreshed-KeepsSplit cfg active rest id next u.1
        (rest-IsSpared cfg active k issue rest id u.0 h) in
    record { active = tail.active ∙ first.active; inactive = tail.inactive ∙ first.inactive }

has-add_inactive :
    (id : Text) (inactive : Map Issue) (active_by_id : TextSet) (issues : List Issue)
    → has id active_by_id ≡ true
    → has id (add_inactive_listed_issues inactive active_by_id issues) ≡ has id inactive
unfolding add_inactive_listed_issues
has-add_inactive id inactive active_by_id [] h = refl
has-add_inactive id inactive active_by_id (issue ∷ rest) h = ground (
  arith,
  h,
  text_eq_iff issue.id id,
  has-insert id issue.id issue inactive,
  has-add_inactive id inactive active_by_id rest h,
  has-add_inactive id (insert issue.id issue inactive) active_by_id rest h,
)

record LacksIn (id : Text) (inactive : Map Issue) (r : Map Issue × Bool) : Type 0 where
  pub same : has id r.0 ≡ has id inactive

append_groups-LacksIn :
    (list : StateLister) (id : Text) (active_by_id : TextSet) (groups : List (List Text))
    (inactive : Map Issue)
    → has id active_by_id ≡ true
    → LacksIn id inactive (append_inactive_from_groups list active_by_id groups inactive)
unfolding append_inactive_from_groups
append_groups-LacksIn list id active_by_id [] inactive h = record { same = refl }
append_groups-LacksIn list id active_by_id (states ∷ groups) inactive h =
    elim_intro (LacksIn id inactive) (list states)
      (record { same = (append_groups-LacksIn list id active_by_id groups inactive h).same })
      (λ issues. record {
        same =
            (append_groups-LacksIn list id active_by_id groups _ h).same
            ∙ has-add_inactive id inactive active_by_id issues h;
      })

-- An issue with active evidence is never derived as inactive from the listings, whatever they show,
-- unless its own row of the refresh is inactive.
pub derive_inactive_issues-spares :
    (cfg : ReconciliationConfig) (list : StateLister) (active_issues refreshed : Map Issue)
    (active : TextSet) (id : Text)
    → is_empty id ≡ false
    → UniqueKeys refreshed
    → has id active_issues ≡ true
    → IsSpared cfg active refreshed id
    → has id (derive_inactive_issues cfg list active_issues refreshed active).0 ≡ false
unfolding derive_inactive_issues lookup
derive_inactive_issues-spares cfg list active_issues refreshed active id nonempty u evidence h =
    let seen : TextSet × Map Issue = (id_set active_issues, []) in
    let split = split_refreshed cfg active refreshed seen in
    let k = split_refreshed-KeepsSplit cfg active refreshed id seen u h in
    (append_groups-LacksIn list id split.0 (reconcile_inactive_state_groups cfg) split.1
      (k.active ∙ has-id_set id active_issues nonempty ∙ evidence)).same
    ∙ k.inactive
