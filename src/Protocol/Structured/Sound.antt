-- ===== src/Protocol/Structured/Sound.antt =====
-- shared/structuredResult.ts: what an accepted structured result says.
use charterion.Prelude.{
  ℕ, ◌+◌, leb, if◌then◌else◌, all, ◌&&◌, ◌≢◌, ◌⊎◌, inl, inr, Bool, false, map, reverse, ◌++◌,
  includes, text_eq, sym, ap, truthy, All-map, true-ne-false, ◌≤◌, Text, codes, Option, none, some,
  List, [], ◌∷◌, true, not, same, trim, ◌≡◌, arith, All, length, Result, ok, ◌>>=◌, >>=-eq-ok,
  throw_if, throw_if-ok, ◌>>◌, ◌||◌, ltb, refl, suc, subst,
}
use charterion.Prelude.Json.{Json, Fields, member, items}
use charterion.Contracts.{StructuredTaskResult}
use charterion.Protocol.Block.{Block, find_block}
use charterion.Protocol.Keys.{sorted_keys}
use charterion.Protocol.Structured.{
  StructuredError, result_open, result_close, evidence_items, evidence_of, summary_of,
  result_fields, result_value, result_block, parse_structured_task_result, is_substantive,
  is_placeholder, placeholder_words, drop_mark, to_lower_ascii, is_text, max_summary_chars,
  max_evidence_chars, max_evidence_items,
}

-- The code unit with a capital ASCII letter as a small one.
abbrev lower : ℕ → ℕ
lower c = if leb 65 c && leb c 90 then c + 32 else c

-- The text is one of the words of a placeholder, in capitals or not, or one with `.` or `!` after it.
abbrev IsWord : Text → Text → Type 0
IsWord t w = (map lower t ≡ w) ⊎ (map lower t ≡ w ++ codes ".") ⊎ (map lower t ≡ w ++ codes "!")

abbrev words : List Text
words =
    codes "read"
    ∷ codes "ok"
    ∷ codes "okay"
    ∷ codes "ack"
    ∷ codes "acknowledged"
    ∷ codes "done"
    ∷ codes "noted"
    ∷ codes "complete"
    ∷ codes "completed"
    ∷ codes "finished"
    ∷ []

-- A text that states something.
pub record States (t : Text) : Type 0 where
  pub not_empty : t ≢ []
  pub not_long : length t ≤ 2000
  pub no_placeholder : All (λ w. ¬ IsWord t w) words

pub record IsSubstantive (r : StructuredTaskResult) : Type 0 where
  pub summary : States r.summary
  pub evidence : All States r.evidence
  pub some_evidence : 1 ≤ length r.evidence
  pub bounded_evidence : length r.evidence ≤ 16

-- What the test for a placeholder makes of a text in lower case.
abbrev hits : Text → Bool
hits u = includes placeholder_words (reverse (drop_mark (reverse u)))

not_at : (t u : Text) → is_placeholder t ≡ false → hits u ≡ true → map lower t ≢ u
unfolding is_placeholder to_lower_ascii
not_at t u h hit e = true-ne-false (subst (λ v. hits v ≡ true) (sym e) hit) h

not-IsWord :
    (t w : Text)
    → is_placeholder t ≡ false
    → hits w ≡ true
    → hits (w ++ codes ".") ≡ true
    → hits (w ++ codes "!") ≡ true
    → ¬ IsWord t w
not-IsWord t w h a b c (inl e) = not_at t w h a e
not-IsWord t w h a b c (inr (inl e)) = not_at t (w ++ codes ".") h b e
not-IsWord t w h a b c (inr (inr e)) = not_at t (w ++ codes "!") h c e

none-IsWord :
    (t : Text) (ws : List Text)
    → is_placeholder t ≡ false
    → all (λ w. hits w && hits (w ++ codes ".") && hits (w ++ codes "!")) ws ≡ true
    → All (λ w. ¬ IsWord t w) ws
unfolding all
none-IsWord t [] h e = tt
none-IsWord t (w ∷ ws) h e = (
  not-IsWord t w h (ground arith) (ground arith) (ground arith),
  none-IsWord t ws h (ground arith),
)

no-IsWord : (t : Text) → is_placeholder t ≡ false → All (λ w. ¬ IsWord t w) words
unfolding placeholder_words drop_mark includes same all
no-IsWord t h = none-IsWord t words h refl

states : (t : Text) → is_substantive 2000 t ≡ true → States t
unfolding is_substantive
states t h = record {
  not_empty = λ e. absurd (true-ne-false (ground arith) (ap truthy e));
  not_long = ground arith;
  no_placeholder = no-IsWord t (ground arith);
}

items-ok :
    (js : List Json) (es : List Text)
    → evidence_items js ≡ ok es
    → All (λ e. is_substantive max_evidence_chars e ≡ true) es × (length es ≡ length js)
unfolding evidence_items
items-ok [] [] h = (tt, refl)
items-ok [] (e ∷ es) h = cc
items-ok (Json.str t ∷ js) es h =
    let (checked, k) =
      throw_if-ok (not (is_substantive max_evidence_chars (trim t)))
        StructuredError.evidence_placeholder (evidence_items js >>= λ rest. ok (trim t ∷ rest)) h in
    let (rest, e, last) = >>=-eq-ok (evidence_items js) _ k in
    let made : trim t ∷ rest ≡ es = cc in
    let (good, count) = items-ok js rest e in
    subst
      (λ l. All (λ x. is_substantive max_evidence_chars x ≡ true) l × (length l ≡ suc (length js)))
      made ((ground arith, good), omega arith)
items-ok (_ ∷ js) es h = cc

evidence-ok :
    (j : Json) (es : List Text)
    → evidence_of j ≡ ok es
    → All (λ e. is_substantive max_evidence_chars e ≡ true) es
      × (1 ≤ length es)
      × (length es ≤ max_evidence_items)
unfolding evidence_of
evidence-ok (Json.arr js) es h =
    let n = length (items js) in
    let (counted, k) =
      throw_if-ok (ltb n 1 || ltb max_evidence_items n) StructuredError.evidence_count
        (evidence_items (items js)) h in
    let (good, count) = items-ok (items js) es k in (good, ground arith, ground arith)
evidence-ok _ es h = cc

summary-ok : (j : Json) (s : Text) → summary_of j ≡ ok s → is_substantive max_summary_chars s ≡ true
unfolding summary_of
summary-ok (Json.str t) s h = ground arith
summary-ok _ s h = cc

abbrev fields_from : Fields → Text → Result StructuredError StructuredTaskResult
fields_from fs s = do
  evidence ← evidence_of (member fs (codes "evidence"))
  ok (record { summary = s; evidence = evidence })

fields-ok : (fs : Fields) (r : StructuredTaskResult) → result_fields fs ≡ ok r → IsSubstantive r
unfolding result_fields
fields-ok fs r h =
    let rest = summary_of (member fs (codes "summary")) >>= fields_from fs in
    let unlabelled =
      throw_if (not (is_text (codes "completed") (member fs (codes "status"))))
        StructuredError.wrong_status
      >> rest in
    let (_, h₁) =
      throw_if-ok (not (same (sorted_keys fs) (codes "evidence,status,summary")))
        StructuredError.wrong_keys unlabelled h in
    let (_, h₂) =
      throw_if-ok (not (is_text (codes "completed") (member fs (codes "status"))))
        StructuredError.wrong_status rest h₁ in
    let (s, summary, h₃) =
      >>=-eq-ok (summary_of (member fs (codes "summary"))) (fields_from fs) h₂ in
    let (es, evidence, h₄) =
      >>=-eq-ok (evidence_of (member fs (codes "evidence")))
        (λ l. ok (record { summary = s; evidence = l })) h₃ in
    let v : StructuredTaskResult = record { summary = s; evidence = es } in
    let made : v ≡ r = cc in
    let (good, some_items, bounded) = evidence-ok _ es evidence in
    subst IsSubstantive made (record {
      summary = states s (summary-ok _ s summary);
      evidence = All-map es states good;
      some_evidence = some_items;
      bounded_evidence = bounded;
    })

-- A reply is accepted only if it is substantive: a summary and one to sixteen items of evidence,
-- each not empty, at most 2000 code units long, and none of the ten placeholder words, whatever its
-- ASCII letters' case and with or without a full stop or an exclamation mark.
pub parse_structured-IsSubstantive :
    (json_parse : Text → Option Json) (text : Text) (r : StructuredTaskResult)
    → parse_structured_task_result json_parse text ≡ ok r
    → IsSubstantive r
unfolding parse_structured_task_result result_block result_value
parse_structured-IsSubstantive json_parse text r h =
    block (find_block result_open result_close (trim text)) h
  where
    value : (v : Option Json) → result_value v ≡ ok r → IsSubstantive r
    value (some (Json.obj fs)) k = fields-ok fs r k
    value none k = cc
    value (some _) k = cc

    block : (b : Block) → result_block json_parse b ≡ ok r → IsSubstantive r
    block Block.missing k = cc
    block Block.repeated k = cc
    block (Block.found raw) k = value (json_parse raw) k
