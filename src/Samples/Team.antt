-- ===== src/Samples/Team.antt =====
-- Runs of the role labels and of the supervisor.
use charterion.Prelude.{Text, codes, none, [], ◌∷◌, Bool, true, Distinct, All, text_eq, nat_eq}
use charterion.Contracts.{ManagedTask, TaskDisplayStatus}
use charterion.Supervisor.{plan_ready_dispatches}
use charterion.Supervisor.Allocation.{assigned}
use charterion.Supervisor.Suitable.{IsSuitable, plan_ready-IsSuitable}
use charterion.Samples.{tab, work_task}

abbrev unchanged : Text → Text
unchanged t = t

abbrev always_first : Text → Text → Bool
always_first a b = true

abbrev waiting : ManagedTask
waiting = record {
  task = work_task (codes "a") [] [];
  status = TaskDisplayStatus.ready;
  last_attempt = none;
  attempt_history = [];
  review_result = none;
  review_error = none;
  structured_result = none;
  structured_result_error = none;
  review_round = none;
  review_loop_exhausted = none;
}

plan_ready-IsSuitable_example :
    Distinct (assigned (plan_ready_dispatches unchanged always_first (waiting ∷ []) (tab ∷ [])))
    × All
        (IsSuitable unchanged (waiting ∷ []) (tab ∷ []))
        (plan_ready_dispatches unchanged always_first (waiting ∷ []) (tab ∷ []))
plan_ready-IsSuitable_example =
    plan_ready-IsSuitable unchanged always_first (waiting ∷ []) (tab ∷ [])
