-- ===== src/Plugin/PriceSync.antt =====
-- The price rules of a public price list: internal/plugin/price_sync.go. The list is the map of its
-- entries in the order in which `range` visits them; a rate per token counts units of 10^-12 USD, so that
-- the rate per million tokens is the same number of units of 10^-6 USD.
pub mod Rules
use cpa_access_manager.Base.{
  ℕ, Bool, true, false, ◌&&◌, ◌||◌, not, List, [], ◌∷◌, ◌++◌, Option, none, some, any,
  if◌then◌else◌, ◌==◌,
}
use cpa_access_manager.Base.Int.{ℤ, pos, ltb_ℤ}
use cpa_access_manager.Base.Text.{Text, codes, is_empty, trim_space, to_lower, has_prefix, text_eq}
use cpa_access_manager.Access.Types.{PriceRule}
use cpa_access_manager.Access.Time.{zero_time}
use cpa_access_manager.Access.Normalize.{has}
use cpa_access_manager.Plugin.Values.{first_non_empty}

-- liteLLMPriceSpec
pub record PriceSpec : Type 0 where
  pub provider : Text
  pub input_cost_per_token : ℤ
  pub output_cost_per_token : ℤ
  pub cache_read_input_cost_token : ℤ

-- strings.Cut at a slash: the parts before and after it.
unfoldable pub cut : Text → Option (Text × Text)
cut [] = none
cut (c ∷ s) =
    let rest = cut s in
    if c == b'/'
    then some ([], s)
    else elim rest [ none ↦ none | some parts ↦ some (c ∷ parts.0, parts.1) ]

before_of : Option (Text × Text) → Text
before_of none = []
before_of (some parts) = parts.0

unfoldable pub after_of : Option (Text × Text) → Text
after_of none = []
after_of (some parts) = parts.1

-- providerFromModelName
unfoldable pub provider_from_model_name : Text → Text
unfolding cut before_of
provider_from_model_name model = before_of (cut (trim_space model))

abbrev pub openai : Text
openai = codes "openai"

abbrev pub anthropic : Text
anthropic = codes "anthropic"

abbrev pub gemini : Text
gemini = codes "gemini"

abbrev pub vertex : Text
vertex = codes "vertex"

unfoldable pub one_of : Text → List Text → Bool
unfolding any
one_of v names = any (λ n. text_eq v n) names

-- officialPriceProviderAliases
unfoldable pub official_price_provider_aliases : Text → Text → List Text
unfolding one_of cut after_of
official_price_provider_aliases model provider =
    let v = to_lower (trim_space provider) in
    if one_of v (codes "openai" ∷ codes "text-completion-openai" ∷ [])
    then openai ∷ []
    else if one_of v (codes "anthropic" ∷ [])
    then anthropic ∷ []
    else if one_of v (codes "gemini" ∷ codes "google" ∷ codes "google_ai_studio" ∷ [])
    then gemini ∷ []
    else if one_of v (codes "vertex_ai-language-models" ∷ [])
    then vertex ∷ []
    else if one_of v (codes "vertex_ai" ∷ codes "vertex-ai" ∷ [])
    then (if has_prefix (after_of (cut (to_lower (trim_space model)))) gemini
        then vertex ∷ []
        else [])
    else []

-- The loop of uniqueStrings.
unfoldable pub unique_strings_from : List Text → List Text → List Text
unfolding has
unique_strings_from seen [] = []
unique_strings_from seen (v ∷ values) =
    let t = trim_space v in
    let next = unique_strings_from (t ∷ seen) values in
    let skip = unique_strings_from seen values in
    if is_empty t then skip else if has seen t then skip else t ∷ next

-- uniqueStrings
unfoldable pub unique_strings : List Text → List Text
unfolding unique_strings_from
unique_strings values = unique_strings_from [] values

unfoldable pub short_name : Text → Option (Text × Text) → List Text
short_name m none = []
short_name m (some parts) =
    let after = trim_space parts.1 in
    if not (is_empty after) && not (text_eq after m) then after ∷ [] else []

-- priceModelAliases
unfoldable pub price_model_aliases : Text → List Text
unfolding unique_strings short_name cut
price_model_aliases model =
    let m = trim_space model in if is_empty m then [] else unique_strings (m ∷ short_name m (cut m))

-- The key of `seen`: the provider, a zero byte and the model.
unfoldable pub seen_key : Text → Text → Text
seen_key provider model = provider ++ (0 ∷ model)

abbrev pub rule_of : PriceSpec → Text → Text → PriceRule
rule_of spec provider model = record {
  provider = provider;
  model = model;
  input_usd_per_million = spec.input_cost_per_token;
  output_usd_per_million = spec.output_cost_per_token;
  cache_read_usd_per_million = spec.cache_read_input_cost_token;
  updated_at = zero_time;
}

-- The rules so far and the keys seen.
abbrev pub Gathered : Type 0
Gathered = List PriceRule × List Text

-- The innermost loop; the rules are gathered last first.
unfoldable pub gather_models : PriceSpec → Text → List Text → Gathered → Gathered
unfolding seen_key has
gather_models spec provider [] g = g
gather_models spec provider (model ∷ models) g =
    let key = seen_key provider model in
    gather_models spec provider models
      (if has g.1 key then g else (rule_of spec provider model ∷ g.0, key ∷ g.1))

unfoldable pub gather_providers : PriceSpec → List Text → List Text → Gathered → Gathered
unfolding gather_models
gather_providers spec [] models g = g
gather_providers spec (provider ∷ providers) models g =
    gather_providers spec providers models (gather_models spec provider models g)

abbrev pub is_free : PriceSpec → Bool
is_free spec =
    not (ltb_ℤ (pos 0) spec.input_cost_per_token)
    && (not (ltb_ℤ (pos 0) spec.output_cost_per_token)
        && not (ltb_ℤ (pos 0) spec.cache_read_input_cost_token))

abbrev pub is_skipped : Text → PriceSpec → Bool
is_skipped model spec = is_empty model || (text_eq model (codes "sample_spec") || is_free spec)

-- The outer loop of liteLLMPriceRules.
unfoldable pub gather_specs : List (Text × PriceSpec) → Gathered → Gathered
unfolding gather_providers official_price_provider_aliases first_non_empty provider_from_model_name
    price_model_aliases
gather_specs [] g = g
gather_specs ((raw, spec) ∷ specs) g =
    let model = trim_space raw in
    let providers =
      official_price_provider_aliases model
        (first_non_empty (spec.provider ∷ provider_from_model_name model ∷ [])) in
    gather_specs specs (
      if is_skipped model spec
      then g
      else gather_providers spec providers (price_model_aliases model) g)

last_first : List PriceRule → List PriceRule → List PriceRule
last_first [] out = out
last_first (r ∷ rules) out = last_first rules (r ∷ out)

-- liteLLMPriceRules
unfoldable pub lite_llm_price_rules : List (Text × PriceSpec) → List PriceRule
unfolding gather_specs last_first
lite_llm_price_rules specs = last_first (gather_specs specs ([], [])).0 []
