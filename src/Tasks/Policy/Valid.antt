-- ===== src/Tasks/Policy/Valid.antt =====
-- src/taskPolicy.ts: the checks against a description of the valid tasks.
use charterion.Prelude.{
  ℕ, ◌≤◌, ◌≡◌, refl, ◌⊎◌, ◌↔◌, Text, trim, truthy, Option, none, some, true, false, arith, or_else,
  includes, text_eq, ok, ◌>>◌,
}
use charterion.Prelude.Json.{Number}
use charterion.Contracts.{
  AgentTask, TaskKind, TaskCompletionPolicy, work, review, human, reply, structured_result,
  verified_claim, review_pass, human_approval,
}
use charterion.Tasks.Policy.{
  check_policy, check_kind, validate_task_policy, normalize_task, default_max_review_rounds,
}

-- The valid tasks of each kind.
pub record IsWork (t : AgentTask) : Type 0 where
  pub policy :
      (t.completion_policy ≡ reply)
      ⊎ (t.completion_policy ≡ structured_result)
      ⊎ (t.completion_policy ≡ verified_claim)
  pub role : truthy (trim t.target_role) ≡ true
  pub no_target : t.review_target_task_id ≡ none
  pub no_rounds : t.max_review_rounds ≡ none

pub record IsReview (t : AgentTask) : Type 0 where
  pub policy : t.completion_policy ≡ review_pass
  pub role : truthy (trim t.target_role) ≡ true
  pub target : Text
  pub target_set : t.review_target_task_id ≡ some target
  pub target_named : truthy target ≡ true
  pub target_listed : includes t.depends_on target ≡ true
  pub rounds : ℕ
  pub rounds_given : or_else t.max_review_rounds (Number.natural 3) ≡ Number.natural rounds
  pub rounds_from : 1 ≤ rounds
  pub rounds_to : rounds ≤ 10

pub record IsHuman (t : AgentTask) : Type 0 where
  pub policy : t.completion_policy ≡ human_approval
  pub no_role : truthy (trim t.target_role) ≡ false
  pub no_target : t.review_target_task_id ≡ none
  pub no_rounds : t.max_review_rounds ≡ none

abbrev pub HasKindFor : TaskKind → AgentTask → Type 0
HasKindFor work t = IsWork t
HasKindFor review t = IsReview t
HasKindFor human t = IsHuman t

kind_iff :
    (k : TaskKind) (t : AgentTask)
    → ((check_policy k t.completion_policy >> check_kind k t) ≡ ok tt) ↔ HasKindFor k t
unfolding check_policy check_kind
kind_iff work t = (λ h. ground arith, λ v. ground arith)
kind_iff human t = (λ h. ground arith, λ v. ground arith)
kind_iff review t = (
  to_valid t.review_target_task_id (or_else t.max_review_rounds default_max_review_rounds) refl
      refl,
  λ v. ground arith,
)
  where
    to_valid :
        (target : Option Text) (rounds : Number)
        → t.review_target_task_id ≡ target
        → or_else t.max_review_rounds default_max_review_rounds ≡ rounds
        → (check_policy review t.completion_policy >> check_kind review t) ≡ ok tt
        → IsReview t
    to_valid none rounds e k h = ground arith
    to_valid (some id) (Number.fraction n) e k h = ground arith
    to_valid (some id) Number.negative e k h = ground arith
    to_valid (some id) Number.not_finite e k h = ground arith
    to_valid (some id) (Number.natural n) e k h = record {
      policy = ground arith;
      role = ground arith;
      target = id;
      target_set = e;
      target_named = ground arith;
      target_listed = ground arith;
      rounds = n;
      rounds_given = k;
      rounds_from = ground arith;
      rounds_to = ground arith;
    }

-- The checks pass exactly for the valid tasks of the task's kind: work with a policy for work, a
-- role and no review settings; a review with its policy, a role, a target among its dependencies and
-- one to ten rounds; a human task with its policy, no role and no review settings.
pub validate-iff_valid : (t : AgentTask) → (validate_task_policy t ≡ ok tt) ↔ HasKindFor t.kind t
unfolding validate_task_policy
validate-iff_valid t = kind_iff t.kind t

-- Normalising twice is normalising once.
normalize_twice :
    (t : AgentTask) (stored : Option TaskCompletionPolicy)
    → let u = normalize_task t stored in normalize_task u (some u.completion_policy) ≡ u
unfolding normalize_task
normalize_twice t stored = ground arith
