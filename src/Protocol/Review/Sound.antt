-- ===== src/Protocol/Review/Sound.antt =====
-- src/review.ts: what an accepted review reply says.
use charterion.Prelude.{
  Text, codes, Option, none, some, [], true, not, same, same_iff, trim, truthy, ◌≡◌, refl, subst,
  ap, ◌⊎◌, inl, inr, arith, Bool-cases, ok, >>=-eq-ok, throw_if-ok, ok-injective, err-ne-ok,
}
use charterion.Prelude.Json.{Json, Fields, member, as_text}
use charterion.Contracts.{ReviewResult, ReviewDecision}
use charterion.Protocol.Block.{Block, find_block}
use charterion.Protocol.Block.Once.{HasBlock, find_block-HasBlock}
use charterion.Protocol.Keys.{sorted_keys}
use charterion.Protocol.Review.{
  ReviewError, review_open, review_close, decision_of, review_fields, review_value, review_block,
  parse_review_result, or_throw, named, check_instruction,
}

-- The decision and the instruction that the fields ask for: none with a pass, and one with a fail.
abbrev Decided : Fields → ReviewResult → Type 0
Decided fs r =
    ((member fs (codes "decision") ≡ Json.str (codes "pass"))
      × (r.decision ≡ ReviewDecision.pass)
      × (r.next_instruction ≡ []))
    ⊎ ((member fs (codes "decision") ≡ Json.str (codes "fail"))
        × (r.decision ≡ ReviewDecision.fail)
        × (truthy r.next_instruction ≡ true))

-- What the fields of an accepted block are, and what becomes of them.
pub record IsAccepted (fs : Fields) (r : ReviewResult) : Type 0 where
  pub decided : Decided fs r
  pub reason : Text
  pub reason_given : member fs (codes "reason") ≡ Json.str reason
  pub reason_trimmed : r.reason ≡ trim reason
  pub reason_not_blank : truthy (trim reason) ≡ true
  pub instruction : Text
  pub instruction_given : member fs (codes "nextInstruction") ≡ Json.str instruction
  pub instruction_trimmed : r.next_instruction ≡ trim instruction

decision_from :
    (j : Json) (d : ReviewDecision)
    → decision_of j ≡ some d
    → ((j ≡ Json.str (codes "pass")) × (d ≡ ReviewDecision.pass))
      ⊎ ((j ≡ Json.str (codes "fail")) × (d ≡ ReviewDecision.fail))
unfolding decision_of
decision_from (Json.str t) d h =
    let passes = same_iff t (codes "pass") in
    let fails = same_iff t (codes "fail") in
    elim (Bool-cases (same t (codes "pass"))) [
      | inl p ↦ inl (ap Json.str (passes.0 p), ground arith)
      | inr not_pass ↦ inr (ap Json.str (fails.0 (ground arith)), ground arith)
    ]
decision_from _ d h = cc

text_from :
    {E : Type 0} (j : Json) (e : E) (t : Text) → or_throw (as_text j) e ≡ ok t → j ≡ Json.str t
text_from (Json.str s) e t h = ap Json.str (ok-injective h)
text_from _ e t h = cc

named_from :
    {E : Type 0} (j : Json) (e : E) (t : Text)
    → or_throw (named (as_text j)) e ≡ ok t
    → (s : Text) × (j ≡ Json.str s) × (t ≡ trim s) × (truthy (trim s) ≡ true)
named_from (Json.str s) e t h = elim (Bool-cases (truthy (trim s))) [
  | inl given ↦ (s, refl, ground arith, given)
  | inr blank ↦ absurd (ground arith)
]
named_from _ e t h = cc

or_throw-ok : {E A : Type 0} (o : Option A) (e : E) (a : A) → or_throw o e ≡ ok a → o ≡ some a
or_throw-ok none e a h = absurd (err-ne-ok h)
or_throw-ok (some b) e a h = ap some (ok-injective h)

empty : (t : Text) → check_instruction ReviewDecision.pass t ≡ ok tt → t ≡ []
unfolding check_instruction
empty t h = ground arith

full : (t : Text) → check_instruction ReviewDecision.fail t ≡ ok tt → truthy t ≡ true
unfolding check_instruction
full t h = ground arith

fields-IsAccepted : (fs : Fields) (r : ReviewResult) → review_fields fs ≡ ok r → IsAccepted fs r
unfolding review_fields
fields-IsAccepted fs r h =
    let (keys_fine, h1) =
      throw_if-ok (not (same (sorted_keys fs) (codes "decision,nextInstruction,reason")))
        ReviewError.wrong_keys _ h in
    let (d, decision, h2) =
      >>=-eq-ok (or_throw (decision_of (member fs (codes "decision"))) ReviewError.wrong_decision) _
        h1 in
    let (reason, is_reason, h3) =
      >>=-eq-ok (or_throw (named (as_text (member fs (codes "reason")))) ReviewError.empty_reason) _
        h2 in
    let (next, is_next, h4) =
      >>=-eq-ok
        (or_throw (as_text (member fs (codes "nextInstruction"))) ReviewError.instruction_not_text)
        _ h3 in
    let (u, checked, h5) = >>=-eq-ok (check_instruction d (trim next)) _ h4 in
    let made : record { decision = d; reason = reason; next_instruction = trim next } ≡ r =
      ok-injective h5 in
    let (said, given, is_trimmed, not_blank) =
      named_from (member fs (codes "reason")) ReviewError.empty_reason reason is_reason in
    subst (IsAccepted fs) made (record {
      decided =
          decides reason d (trim next)
            (decision_from (member fs (codes "decision")) d (
              or_throw-ok (decision_of (member fs (codes "decision"))) ReviewError.wrong_decision d
                decision))
            checked;
      reason = said;
      reason_given = given;
      reason_trimmed = is_trimmed;
      reason_not_blank = not_blank;
      instruction = next;
      instruction_given =
          text_from (member fs (codes "nextInstruction")) ReviewError.instruction_not_text next
            is_next;
      instruction_trimmed = refl;
    })
  where
    decides :
        (reason : Text) (d : ReviewDecision) (next : Text)
        → ((member fs (codes "decision") ≡ Json.str (codes "pass")) × (d ≡ ReviewDecision.pass))
          ⊎ ((member fs (codes "decision") ≡ Json.str (codes "fail")) × (d ≡ ReviewDecision.fail))
        → check_instruction d next ≡ ok tt
        → Decided fs (record { decision = d; reason = reason; next_instruction = next })
    decides reason d next (inl (given, is_pass)) checked =
        inl (
          given,
          is_pass,
          empty next (subst (λ x. check_instruction x next ≡ ok tt) is_pass checked),
        )
    decides reason d next (inr (given, is_fail)) checked =
        inr (
          given,
          is_fail,
          full next (subst (λ x. check_instruction x next ≡ ok tt) is_fail checked),
        )

-- A reply is accepted only if its trimmed text has the opening marker once and the closing marker once
-- and ends with the latter; what stands between them parses to an object; its decision is `pass` and its
-- next instruction blank, or `fail` and not blank; and its reason is a text that is not blank. The
-- result is those, trimmed.
pub parse_review-IsAccepted :
    (json_parse : Text → Option Json) (text : Text) (r : ReviewResult)
    → parse_review_result json_parse text ≡ ok r
    → (raw : Text) × (fs : Fields) × HasBlock review_open review_close (trim text) raw
      × (json_parse raw ≡ some (Json.obj fs))
      × IsAccepted fs r
unfolding parse_review_result review_block review_value
parse_review-IsAccepted json_parse text r h =
    go (find_block review_open review_close (trim text)) refl h
  where
    value :
        (raw : Text) (v : Option Json)
        → json_parse raw ≡ v
        → review_value v ≡ ok r
        → (fs : Fields) × (json_parse raw ≡ some (Json.obj fs)) × IsAccepted fs r
    value raw (some (Json.obj fs)) e k = (fs, e, fields-IsAccepted fs r k)
    value raw none e k = cc
    value raw (some _) e k = cc

    go :
        (b : Block)
        → find_block review_open review_close (trim text) ≡ b
        → review_block json_parse b ≡ ok r
        → (raw : Text) × (fs : Fields) × HasBlock review_open review_close (trim text) raw
          × (json_parse raw ≡ some (Json.obj fs))
          × IsAccepted fs r
    go Block.missing e k = cc
    go Block.repeated e k = cc
    go (Block.found raw) e k =
        let (fs, parsed, accepted) = value raw (json_parse raw) refl k in
        (raw, fs, find_block-HasBlock review_open review_close (trim text) raw e, parsed, accepted)
