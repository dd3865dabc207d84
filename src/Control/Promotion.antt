-- ===== src/Control/Promotion.antt =====
-- control/src/promotionAuthority.ts: the promotion of a candidate commit to a parent ref, which an
-- authority other than its author approves and applies.
--
-- Git is a parameter: the answer to a command, `none` where its status is not zero, given the commands
-- that ran before it, so that whatever else changes the repository in between may show in the answers.
-- `String.prototype.toLowerCase` is a parameter, and `randomUUID` gives the argument `id`. The texts of
-- the errors are left out. Constraints of the tables that a request can break give `constraint_failed`.
pub mod Evolution
pub mod Decided
pub mod Holds
pub mod Operations
pub mod Reachable
pub mod Rows
pub mod Sound
pub mod Transactions
use charterion.Prelude.{
  ℕ, zero, suc, Text, codes, Option, none, some, List, [], ◌∷◌, ◌++◌, Bool, true, false, not, ◌&&◌,
  ◌||◌, if◌then◌else◌, ltb, leb, ◌==◌, same, same_option, is_some, trim, truthy, starts_with, any,
  find, all, length, reverse, Result, ok, err, ◌>>=◌, ◌>>◌, throw_if,
}
use charterion.Control.Runs.{Command, Git, RunOf, or_throw, branch_ok, run_in}
use charterion.Control.Rows.{find_row, update_rows, has_row}
use charterion.Roles.{contains}

pub data PromotionStatus : Type 0 where
  pending approved rejected promoted : PromotionStatus

pub record SelfHostingPromotion : Type 0 where
  pub id : Text
  pub project_id : Text
  pub idempotency_key : Text
  pub claim_id : Text
  pub candidate_subject : Text
  pub candidate_sha : Text
  pub target_ref : Text
  pub expected_parent_sha : Text
  pub requested_by : Text
  pub status : PromotionStatus
  pub decision_by : Option Text
  pub decision_reason : Option Text
  pub decision_at : Option ℕ
  pub promoted_at : Option ℕ
  pub created_at : ℕ
  pub updated_at : ℕ

pub record RequestInput : Type 0 where
  pub project_id : Text
  pub idempotency_key : Text
  pub claim_id : Text
  pub candidate_sha : Text
  pub target_ref : Text
  pub expected_parent_sha : Text
  pub requested_by : Text

-- `other` is any other text.
pub data PromotionDecision : Type 0 where
  approve reject other : PromotionDecision

pub record ProjectRow : Type 0 where
  pub id : Text
  pub root_path : Text
  pub status : Text

pub record ClaimRow : Type 0 where
  pub id : Text
  pub project_id : Text
  pub subject : Text
  pub status : Text
  pub commit_sha : Option Text

pub record VerificationRow : Type 0 where
  pub id : Text
  pub claim_id : Text
  pub status : Text

pub data EventType : Type 0 where
  requested was_approved was_rejected applied : EventType

-- The payload is left out.
pub record EventRow : Type 0 where
  pub project_id : Text
  pub type : EventType
  pub subject : Text
  pub created_at : ℕ

pub record Store : Type 0 where
  pub projects : List ProjectRow
  pub claims : List ClaimRow
  pub verifications : List VerificationRow
  pub promotions : List SelfHostingPromotion
  pub events : List EventRow

pub data PromotionError : Type 0 where
  required_missing project_missing project_closed claim_missing claim_foreign claim_unverified
        claim_mismatch evidence_missing git_failed invalid_sha invalid_ref parent_mismatch
        promotion_missing replay_mismatch constraint_failed own_promotion invalid_decision
        already_decided lost_race not_approved rejected_preserved replay_authority foreign_authority
        drifted not_converged cannot_finalize :
      PromotionError

abbrev pub same_status : PromotionStatus → PromotionStatus → Bool
same_status pending pending = true
same_status approved approved = true
same_status rejected rejected = true
same_status promoted promoted = true
same_status _ _ = false

-- A run of the authority.
abbrev pub Run : Type 0 → Type 0
Run A = RunOf PromotionError A

unfoldable pub get_promotion :
    List SelfHostingPromotion → Text → Result PromotionError SelfHostingPromotion
get_promotion rows id = or_throw promotion_missing (find_row (λ p. p.id) rows id)

-- The text after a prefix.
unfoldable pub after_prefix : Text → Text → Option Text
after_prefix [] t = some t
after_prefix (p ∷ ps) [] = none
after_prefix (p ∷ ps) (c ∷ t) = if p == c then after_prefix ps t else none

abbrev some_branch_ok : Option Text → Bool
some_branch_ok none = false
some_branch_ok (some branch) = branch_ok branch

abbrev ends_with_slash : Text → Bool
ends_with_slash t = starts_with (codes "/") (reverse t)

unfoldable pub is_target_ref : Text → Bool
is_target_ref t =
    some_branch_ok (after_prefix (codes "refs/heads/") t)
    && not (contains t (codes ".."))
    && not (contains t (codes "@{"))
    && not (ends_with_slash t)

abbrev commit_of : Text → Text
commit_of sha = sha ++ codes "^{commit}"

abbrev is_open_project : Text → Bool
is_open_project status = same status (codes "active") || same status (codes "draining")

-- `projectRoot`: a missing or empty root path is a missing project.
unfoldable pub project_root : Store → Text → Result PromotionError Text
project_root store project_id = elim (find_row (λ p. p.id) store.projects project_id) [
  | none ↦ err project_missing
  | some row ↦
      if not (truthy row.root_path)
      then err project_missing
      else if not (is_open_project row.status)
      then err project_closed
      else ok row.root_path
]

unfoldable pub set_decision :
    PromotionStatus → Text → Text → ℕ → SelfHostingPromotion → SelfHostingPromotion
set_decision status authority reason now p =
    if same_status p.status pending
    then record p {
      status = status;
      decision_by = some authority;
      decision_reason = some reason;
      decision_at = some now;
      updated_at = now;
    }
    else p

unfoldable pub set_promoted : ℕ → SelfHostingPromotion → SelfHostingPromotion
set_promoted now p =
    if same_status p.status approved
    then record p { status = promoted; promoted_at = some now; updated_at = now }
    else p

abbrev add_event : Store → List SelfHostingPromotion → Text → EventType → Text → ℕ → Store
add_event store rows project_id type subject now = record store {
  promotions = rows;
  events =
      store.events
      ++ (record { project_id = project_id; type = type; subject = subject; created_at = now }
          ∷ []);
}

abbrev desired : PromotionDecision → PromotionStatus
desired approve = approved
desired _ = rejected

abbrev is_approve : PromotionDecision → Bool
is_approve approve = true
is_approve _ = false

abbrev is_other : PromotionDecision → Bool
is_other other = true
is_other _ = false

abbrev event_of : PromotionDecision → EventType
event_of approve = was_approved
event_of _ = was_rejected

-- The current row repeats the decision.
abbrev pub repeats : SelfHostingPromotion → PromotionDecision → Text → Text → Bool
repeats current decision authority reason =
    (same_status current.status (desired decision)
      || (same_status current.status promoted && is_approve decision))
    && same_option current.decision_by (some authority)
    && same_option current.decision_reason (some reason)

-- The result of `markPromoted`, when the row reads as promoted after the update.
abbrev pub confirm_promoted :
    Store
    → List SelfHostingPromotion
    → ℕ
    → SelfHostingPromotion
    → Result PromotionError (SelfHostingPromotion × Store)
confirm_promoted store rows now next =
    throw_if (not (same_status next.status promoted)) lost_race
    >> ok (next, add_event store rows next.project_id applied next.id now)

abbrev pub mark_latest :
    Store → ℕ → SelfHostingPromotion → Result PromotionError (SelfHostingPromotion × Store)
mark_latest store now latest =
    if same_status latest.status promoted
    then ok (latest, store)
    else throw_if (not (same_status latest.status approved)) cannot_finalize
      >> (let rows = update_rows (λ p. p.id) (set_promoted now) store.promotions latest.id in
          get_promotion rows latest.id >>= confirm_promoted store rows now)

-- The transaction of `markPromoted`.
unfoldable pub mark_promoted :
    Store → Text → ℕ → Result PromotionError (SelfHostingPromotion × Store)
mark_promoted store id now = get_promotion store.promotions id >>= mark_latest store now

abbrev pub confirm_decision :
    Store
    → List SelfHostingPromotion
    → SelfHostingPromotion
    → PromotionDecision
    → Text
    → ℕ
    → SelfHostingPromotion
    → Result PromotionError (SelfHostingPromotion × Store)
confirm_decision store rows current decision authority now next =
    throw_if
      (not (same_status next.status (desired decision))
        || not (same_option next.decision_by (some authority)))
      lost_race
    >> ok (next, add_event store rows current.project_id (event_of decision) current.id now)

-- The transaction of `decide`.
unfoldable pub commit_decision :
    Store
    → SelfHostingPromotion
    → PromotionDecision
    → (authority reason : Text) → ℕ
    → Result PromotionError (SelfHostingPromotion × Store)
commit_decision store current decision authority reason now =
    let rows =
      update_rows (λ p. p.id) (set_decision (desired decision) authority reason now)
        store.promotions current.id in
    get_promotion rows current.id >>= confirm_decision store rows current decision authority now

-- `git`: the project's root is looked up first.
unfoldable pub run_git : Git → Store → Text → List Text → Run Text
run_git git store project_id args log =
    run_in git_failed git args log (project_root store project_id)
