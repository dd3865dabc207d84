-- ===== src/Protocol/Structured.antt =====
-- shared/structuredResult.ts: the parser of a structured-result reply. Lengths count UTF-16 code
-- units. The placeholder pattern ignores case for ASCII letters, which are all that it names.
pub mod Sound
use charterion.Prelude.{
  ℕ, ◌+◌, Text, codes, Option, none, some, List, [], ◌∷◌, ◌++◌, Bool, true, false, not, ◌||◌, ◌&&◌,
  reverse, map, if◌then◌else◌, same, trim, truthy, length, leb, ltb, ◌==◌, includes, text_eq,
  Result, ok, err, ◌>>=◌, ◌>>◌, throw_if,
}
use charterion.Prelude.Json.{Json, Items, Fields, keys, member, as_text, items}
use charterion.Contracts.{StructuredTaskResult}
use charterion.Protocol.Block.{Block, find_block}
use charterion.Protocol.Keys.{sorted_keys}

abbrev pub result_open : Text
result_open = codes "<GAM_RESULT>"

abbrev pub result_close : Text
result_close = codes "</GAM_RESULT>"

abbrev pub max_summary_chars : ℕ
max_summary_chars = 2000

abbrev pub max_evidence_items : ℕ
max_evidence_items = 16

abbrev pub max_evidence_chars : ℕ
max_evidence_chars = 2000

pub data StructuredError : Type 0 where
  must_end_with_block not_one_block not_json not_an_object wrong_keys wrong_status summary_not_text
        summary_placeholder evidence_count evidence_not_text evidence_placeholder :
      StructuredError

unfoldable pub to_lower_ascii : ℕ → ℕ
to_lower_ascii c = if leb b'A' c && leb c b'Z' then c + 32 else c

-- `[.!]?$`: one full stop or exclamation mark at the end does not count.
unfoldable pub drop_mark : Text → Text
drop_mark [] = []
drop_mark (c ∷ s) = if c == b'.' || c == b'!' then s else c ∷ s

unfoldable pub placeholder_words : List Text
placeholder_words =
    codes "read"
    ∷ codes "ok"
    ∷ codes "okay"
    ∷ codes "ack"
    ∷ codes "acknowledged"
    ∷ codes "done"
    ∷ codes "noted"
    ∷ codes "complete"
    ∷ codes "completed"
    ∷ codes "finished"
    ∷ []

-- `PLACEHOLDER.test(text)`.
unfoldable pub is_placeholder : Text → Bool
unfolding to_lower_ascii drop_mark placeholder_words
is_placeholder t = includes placeholder_words (reverse (drop_mark (reverse (map to_lower_ascii t))))

-- `!text || text.length > limit || PLACEHOLDER.test(text)` does not hold.
unfoldable pub is_substantive : ℕ → Text → Bool
is_substantive limit t = truthy t && leb (length t) limit && not (is_placeholder t)

unfoldable pub evidence_items : List Json → Result StructuredError (List Text)
evidence_items [] = ok []
evidence_items (Json.str t ∷ js) = do
  throw_if (not (is_substantive max_evidence_chars (trim t))) StructuredError.evidence_placeholder
  rest ← evidence_items js
  ok (trim t ∷ rest)
evidence_items (_ ∷ js) = err StructuredError.evidence_not_text

unfoldable pub evidence_of : Json → Result StructuredError (List Text)
unfolding evidence_items
evidence_of (Json.arr js) = do
  throw_if (ltb (length (items js)) 1 || ltb max_evidence_items (length (items js)))
      StructuredError.evidence_count
  evidence_items (items js)
evidence_of _ = err StructuredError.evidence_count

unfoldable pub summary_of : Json → Result StructuredError Text
summary_of (Json.str t) = do
  throw_if (not (is_substantive max_summary_chars (trim t))) StructuredError.summary_placeholder
  ok (trim t)
summary_of _ = err StructuredError.summary_not_text

abbrev is_text : Text → Json → Bool
is_text expected (Json.str t) = same t expected
is_text expected _ = false

unfoldable pub result_fields : Fields → Result StructuredError StructuredTaskResult
unfolding evidence_of summary_of
result_fields fs = do
  throw_if (not (same (sorted_keys fs) (codes "evidence,status,summary")))
      StructuredError.wrong_keys
  throw_if (not (is_text (codes "completed") (member fs (codes "status"))))
      StructuredError.wrong_status
  summary ← summary_of (member fs (codes "summary"))
  evidence ← evidence_of (member fs (codes "evidence"))
  ok (record { summary = summary; evidence = evidence })

unfoldable pub result_value : Option Json → Result StructuredError StructuredTaskResult
unfolding result_fields
result_value none = err StructuredError.not_json
result_value (some (Json.obj fs)) = result_fields fs
result_value (some _) = err StructuredError.not_an_object

unfoldable pub result_block :
    (Text → Option Json) → Block → Result StructuredError StructuredTaskResult
unfolding result_value
result_block json_parse Block.missing = err StructuredError.must_end_with_block
result_block json_parse Block.repeated = err StructuredError.not_one_block
result_block json_parse (Block.found raw) = result_value (json_parse raw)

unfoldable pub parse_structured_task_result :
    (Text → Option Json) → Text → Result StructuredError StructuredTaskResult
unfolding result_block
parse_structured_task_result json_parse text =
    result_block json_parse (find_block result_open result_close (trim text))

-- The messages of the errors, as the task view shows them.
unfoldable pub structured_message : StructuredError → Text
structured_message StructuredError.must_end_with_block =
    codes "Structured-result reply must end with one <GAM_RESULT> JSON block"
structured_message StructuredError.not_one_block =
    codes "Structured-result reply must contain exactly one result block"
structured_message StructuredError.not_json = codes "Structured-result block is not valid JSON"
structured_message StructuredError.not_an_object =
    codes "Structured-result block must be a JSON object"
structured_message StructuredError.wrong_keys =
    codes "Structured-result block must contain exactly status, summary, and evidence"
structured_message StructuredError.wrong_status = codes "Structured-result status must be completed"
structured_message StructuredError.summary_not_text =
    codes "Structured-result summary must be a string"
structured_message StructuredError.summary_placeholder =
    codes "Structured-result summary must be substantive and non-placeholder"
structured_message StructuredError.evidence_count =
    codes "Structured-result evidence must contain 1-16 strings"
structured_message StructuredError.evidence_not_text =
    codes "Structured-result evidence items must be strings"
structured_message StructuredError.evidence_placeholder =
    codes "Structured-result evidence items must be concrete non-placeholder strings"
