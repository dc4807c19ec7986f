-- ===== src/Plugin/PriceSync/Rules.antt =====
-- The rules that liteLLMPriceRules of internal/plugin/price_sync.go makes of any price list.
use cpa_access_manager.Base.{
  ◌≡◌, refl, ap, ◌∙◌, Bool, true, false, ◌||◌, not, List, [], ◌∷◌, All, any, arith, if◌then◌else◌,
}
use cpa_access_manager.Base.Int.{ltb_ℤ, pos}
use cpa_access_manager.Base.Text.{
  Text, text_eq, codes, is_empty, trim_space, trim_space_idem, text_discrete, to_lower, has_prefix,
}
use cpa_access_manager.Base.Distinct.{All-if, Distinct}
use cpa_access_manager.Access.Types.{PriceRule}
use cpa_access_manager.Access.Normalize.{has}
use cpa_access_manager.Plugin.PriceSync.{
  one_of, cut, short_name, after_of, PriceSpec, openai, anthropic, gemini, vertex,
  official_price_provider_aliases, unique_strings_from, unique_strings, price_model_aliases,
  seen_key, rule_of, Gathered, gather_models, gather_providers, is_free, is_skipped, gather_specs,
  last_first, lite_llm_price_rules,
}

abbrev pub is_official : Text → Bool
is_official v = text_eq v openai || (text_eq v anthropic || (text_eq v gemini || text_eq v vertex))

-- A provider that the plugin knows, a trimmed model, and a rate that is not zero.
pub record IsOfficial (r : PriceRule) : Type 0 where
  pub provider : is_official r.provider ≡ true
  pub model_given : is_empty r.model ≡ false
  pub model_trimmed : trim_space r.model ≡ r.model
  pub priced :
      ltb_ℤ (pos 0) r.input_usd_per_million
        || (ltb_ℤ (pos 0) r.output_usd_per_million || ltb_ℤ (pos 0) r.cache_read_usd_per_million)
      ≡ true

record IsModel (m : Text) : Type 0 where
  given : is_empty m ≡ false
  trimmed : trim_space m ≡ m

unique_strings_from-IsModel :
    (seen values : List Text) → All IsModel (unique_strings_from seen values)
unfolding unique_strings_from
unique_strings_from-IsModel seen [] = tt
unique_strings_from-IsModel seen (v ∷ values) = ground (
  arith,
  trim_space_idem v,
  unique_strings_from-IsModel (trim_space v ∷ seen) values,
  unique_strings_from-IsModel seen values,
)

price_model_aliases-IsModel : (model : Text) → All IsModel (price_model_aliases model)
unfolding price_model_aliases unique_strings
price_model_aliases-IsModel model =
    let m = trim_space model in
    All-if IsModel (is_empty m) _ _ tt (unique_strings_from-IsModel [] (m ∷ short_name m (cut m)))

one_official : (v : Text) → is_official v ≡ true → All (λ x. is_official x ≡ true) (v ∷ [])
one_official v h = (h, tt)

aliases_official :
    (model provider : Text)
    → All (λ v. is_official v ≡ true) (official_price_provider_aliases model provider)
unfolding official_price_provider_aliases text_discrete
aliases_official model provider =
    let v = to_lower (trim_space provider) in
    All-if _ (one_of v (codes "openai" ∷ codes "text-completion-openai" ∷ [])) _ _
      (one_official openai refl)
      (All-if _ (one_of v (codes "anthropic" ∷ [])) _ _ (one_official anthropic refl) (
        All-if _ (one_of v (codes "gemini" ∷ codes "google" ∷ codes "google_ai_studio" ∷ [])) _ _
          (one_official gemini refl)
          (All-if _ (one_of v (codes "vertex_ai-language-models" ∷ [])) _ _
            (one_official vertex refl)
            (All-if _ (one_of v (codes "vertex_ai" ∷ codes "vertex-ai" ∷ [])) _ _
              (All-if _ (has_prefix (after_of (cut (to_lower (trim_space model)))) gemini) _ _
                (one_official vertex refl) tt)
              tt))))

key_of : PriceRule → Text
key_of r = seen_key r.provider r.model

record IsGathered (g : Gathered) : Type 0 where
  official : All IsOfficial g.0
  distinct : Distinct key_of g.0
  noted : (k : Text) → any (λ r. text_eq (key_of r) k) g.0 ≡ has g.1 k

gathered_if :
    (b : Bool) (g : Gathered) (r : PriceRule)
    → has g.1 (key_of r) ≡ b
    → IsGathered g
    → IsOfficial r
    → IsGathered (if b then g else (r ∷ g.0, key_of r ∷ g.1))
unfolding has any
gathered_if true g r e h k = h
gathered_if false g r e h k = record {
  official = (k, h.official);
  distinct = (h.noted (key_of r) ∙ e, h.distinct);
  noted = λ x. ap (λ b. text_eq (key_of r) x || b) (h.noted x);
}

gather_models-IsGathered :
    (spec : PriceSpec) (provider : Text) (models : List Text) (g : Gathered)
    → is_official provider ≡ true
    → not (is_free spec) ≡ true
    → All IsModel models
    → IsGathered g
    → IsGathered (gather_models spec provider models g)
unfolding gather_models key_of
gather_models-IsGathered spec provider [] g known priced ms h = h
gather_models-IsGathered spec provider (m ∷ models) g known priced ms h =
    gather_models-IsGathered spec provider models _ known priced ms.1 (
      gathered_if (has g.1 (seen_key provider m)) g (rule_of spec provider m) refl h (record {
        provider = known;
        model_given = ms.0.given;
        model_trimmed = ms.0.trimmed;
        priced = ground (arith, priced);
      }))

gather_providers-IsGathered :
    (spec : PriceSpec) (providers models : List Text) (g : Gathered)
    → All (λ v. is_official v ≡ true) providers
    → not (is_free spec) ≡ true
    → All IsModel models
    → IsGathered g
    → IsGathered (gather_providers spec providers models g)
unfolding gather_providers
gather_providers-IsGathered spec [] models g known priced ms h = h
gather_providers-IsGathered spec (v ∷ providers) models g known priced ms h =
    gather_providers-IsGathered spec providers models _ known.1 priced ms
      (gather_models-IsGathered spec v models g known.0 priced ms h)

skipped_or :
    (b : Bool) (g g' : Gathered)
    → IsGathered g
    → (b ≡ false → IsGathered g')
    → IsGathered (if b then g else g')
skipped_or true g g' h k = h
skipped_or false g g' h k = k refl

gather_specs-IsGathered :
    (specs : List (Text × PriceSpec)) (g : Gathered)
    → IsGathered g
    → IsGathered (gather_specs specs g)
unfolding gather_specs
gather_specs-IsGathered [] g h = h
gather_specs-IsGathered ((raw, spec) ∷ specs) g h = gather_specs-IsGathered specs _ (
    skipped_or (is_skipped (trim_space raw) spec) g _ h (λ kept.
      gather_providers-IsGathered spec _ _ g (aliases_official (trim_space raw) _)
        (ground (arith, kept)) (price_model_aliases-IsModel (trim_space raw)) h))

last_first-All :
    (P : PriceRule → Type 0) (rules out : List PriceRule)
    → All P rules
    → All P out
    → All P (last_first rules out)
unfolding last_first
last_first-All P [] out h k = k
last_first-All P (r ∷ rules) out h k = last_first-All P rules (r ∷ out) h.1 (h.0, k)

-- No rule of the one list has the key of a rule of the other.
abbrev Apart : List PriceRule → List PriceRule → Type 0
Apart rules out = All (λ r. any (λ x. text_eq (key_of x) (key_of r)) out ≡ false) rules

sym_false : (a b : Text) → text_eq a b ≡ false → text_eq b a ≡ false
sym_false a b h = ground arith

Apart-cons :
    (r : PriceRule) (rules out : List PriceRule)
    → any (λ x. text_eq (key_of x) (key_of r)) rules ≡ false
    → Apart rules out
    → Apart rules (r ∷ out)
unfolding any
Apart-cons r [] out n h = tt
Apart-cons r (x ∷ rules) out n h = (
  ground (arith, sym_false (key_of x) (key_of r), h.0, n),
  Apart-cons r rules out (ground (arith, n)) h.1,
)

Apart-nil : (rules : List PriceRule) → Apart rules []
unfolding any
Apart-nil [] = tt
Apart-nil (r ∷ rules) = (refl, Apart-nil rules)

last_first-Distinct :
    (rules out : List PriceRule)
    → Distinct key_of rules
    → Distinct key_of out
    → Apart rules out
    → Distinct key_of (last_first rules out)
unfolding last_first
last_first-Distinct [] out h k a = k
last_first-Distinct (r ∷ rules) out h k a =
    last_first-Distinct rules (r ∷ out) h.1 (a.0, k) (Apart-cons r rules out h.0 a.1)

-- Whatever the price list holds and in whatever order it is read, each rule has one of the four
-- official providers, a trimmed model that is not empty and a positive rate, and no two rules have the
-- same provider and model.
pub lite_llm_price_rules-IsOfficial :
    (specs : List (Text × PriceSpec))
    → All IsOfficial (lite_llm_price_rules specs)
      × Distinct (λ r. seen_key r.provider r.model) (lite_llm_price_rules specs)
unfolding lite_llm_price_rules key_of has any
lite_llm_price_rules-IsOfficial specs =
    let h =
      gather_specs-IsGathered specs ([], [])
        (record { official = tt; distinct = tt; noted = λ k. refl }) in
    (
      last_first-All IsOfficial (gather_specs specs ([], [])).0 [] h.official tt,
      last_first-Distinct (gather_specs specs ([], [])).0 [] h.distinct tt
          (Apart-nil (gather_specs specs ([], [])).0),
    )
