-- ===== src/Plugin/Detail.antt =====
-- UsageDetailIn.UnmarshalJSON of internal/plugin/types.go. A json.RawMessage is the value that it
-- holds, its numbers json.Number.
use cpa_access_manager.Base.{
  Bool, ◌&&◌, not, List, [], ◌∷◌, Option, none, some, if◌then◌else◌, ◌==◌,
}
use cpa_access_manager.Base.Int.{ℤ, pos, negsuc}
use cpa_access_manager.Base.Text.{Text, text_eq, codes, is_empty, trim_space}
use cpa_access_manager.Plugin.Types.{
  Value, Fields, object, string, json_number, Library, UsageDetailIn,
}
use cpa_access_manager.Plugin.Values.{lookup, sprint}
use cpa_access_manager.Plugin.Millis.{quotient}

-- int64(f) of a float64, in units of 10^-12.
truncated : Option ℤ → Option ℤ
truncated none = none
truncated (some v) = some (quotient v 1_000_000_000_000)

or_float : Library → Text → Option ℤ → Option ℤ
unfolding truncated
or_float l s none = truncated (l.parse_float s)
or_float l s (some n) = some n

-- decodeJSONInt
unfoldable pub decode_json_int : Library → Value → Option ℤ
unfolding or_float
decode_json_int l (json_number s) = or_float l s (l.parse_int s)
decode_json_int l (string s) = or_float l s (l.parse_int s)
decode_json_int l _ = none

-- The loop of firstJSONInt: a field that is not there and one that is no number are passed over.
int_or : Library → Option Value → ℤ → ℤ
unfolding decode_json_int
int_or l none rest = rest
int_or l (some v) rest = elim (decode_json_int l v) [ none ↦ rest | some n ↦ n ]

-- firstJSONInt
unfoldable pub first_json_int : Library → Fields → List Text → ℤ
unfolding int_or lookup
first_json_int l m [] = pos 0
first_json_int l m (k ∷ keys) = int_or l (lookup k m) (first_json_int l m keys)

-- nestedJSONInt
unfoldable pub nested_json_int : Library → Option Value → List Text → ℤ
unfolding first_json_int
nested_json_int l (some (object m)) keys = first_json_int l m keys
nested_json_int l _ keys = pos 0

text_unless : Bool → Text → Option Text
text_unless b s = if b then none else some s

effort_of : Library → Option Value → Option Text
unfolding text_unless sprint
effort_of l none = none
effort_of l (some v) =
    let s = trim_space (sprint l v) in
    text_unless (not (not (is_empty s) && not (text_eq s (codes "<nil>")))) s

-- decodeJSONString
unfoldable pub decode_json_string : Library → Value → Option Text
unfolding text_unless effort_of lookup
decode_json_string l (string s) = text_unless (is_empty (trim_space s)) (trim_space s)
decode_json_string l (object m) = effort_of l (lookup (codes "effort") m)
decode_json_string l _ = none

text_or : Library → Option Value → Text → Text
unfolding decode_json_string
text_or l none rest = rest
text_or l (some v) rest = elim (decode_json_string l v) [ none ↦ rest | some s ↦ s ]

-- firstJSONString
unfoldable pub first_json_string : Library → Fields → List Text → Text
unfolding text_or lookup
first_json_string l m [] = []
first_json_string l m (k ∷ keys) = text_or l (lookup k m) (first_json_string l m keys)

-- nestedJSONString
unfoldable pub nested_json_string : Library → Option Value → List Text → Text
unfolding first_json_string
nested_json_string l (some (object m)) keys = first_json_string l m keys
nested_json_string l _ keys = []

-- `if v := …; v != 0 { d = v }`
over : ℤ → ℤ → ℤ
over (pos n) d = if n == 0 then d else pos n
over (negsuc n) d = negsuc n

abbrev nested : Library → Fields → Text → Text → ℤ
nested l m k name = nested_json_int l (lookup k m) (name ∷ [])

-- UnmarshalJSON, of the fields of the object
unfoldable pub unmarshal_detail : Library → Fields → UsageDetailIn
unfolding first_json_int nested_json_int first_json_string nested_json_string over lookup
unmarshal_detail l m =
    let effort =
      nested_json_string l (lookup (codes "reasoning") m)
        (codes "effort" ∷ codes "reasoning_effort" ∷ []) in
    let named =
      first_json_string l m
        (codes "ReasoningEffort" ∷ codes "reasoning_effort" ∷ codes "reasoningEffort" ∷ []) in
    record {
      input_tokens = first_json_int l m (
          codes "InputTokens"
          ∷ codes "input_tokens"
          ∷ codes "inputTokens"
          ∷ codes "PromptTokens"
          ∷ codes "prompt_tokens"
          ∷ codes "promptTokens"
          ∷ []);
      output_tokens = first_json_int l m (
          codes "OutputTokens"
          ∷ codes "output_tokens"
          ∷ codes "outputTokens"
          ∷ codes "CompletionTokens"
          ∷ codes "completion_tokens"
          ∷ codes "completionTokens"
          ∷ []);
      reasoning_tokens =
          over (nested l m (codes "completion_tokens_details") (codes "reasoning_tokens")) (
            over (nested l m (codes "output_tokens_details") (codes "reasoning_tokens")) (
              first_json_int l m (
                codes "ReasoningTokens"
                ∷ codes "reasoning_tokens"
                ∷ codes "reasoningTokens"
                ∷ [])));
      reasoning_effort = if is_empty effort then named else effort;
      cached_tokens = over (nested l m (codes "prompt_tokens_details") (codes "cached_tokens")) (
          over (nested l m (codes "input_tokens_details") (codes "cached_tokens")) (
            first_json_int l m
              (codes "CachedTokens" ∷ codes "cached_tokens" ∷ codes "cachedTokens" ∷ [])));
      cache_read_tokens = first_json_int l m (
          codes "CacheReadTokens"
          ∷ codes "cache_read_tokens"
          ∷ codes "cacheReadTokens"
          ∷ codes "CacheReadInputTokens"
          ∷ codes "cache_read_input_tokens"
          ∷ codes "cacheReadInputTokens"
          ∷ []);
      cache_creation_tokens = first_json_int l m (
          codes "CacheCreationTokens"
          ∷ codes "cache_creation_tokens"
          ∷ codes "cacheCreationTokens"
          ∷ codes "CacheCreationInputTokens"
          ∷ codes "cache_creation_input_tokens"
          ∷ codes "cacheCreationInputTokens"
          ∷ []);
      total_tokens =
          first_json_int l m
            (codes "TotalTokens" ∷ codes "total_tokens" ∷ codes "totalTokens" ∷ []);
    }
