-- ===== src/Tests/Values.antt =====
-- Stamps, normalizations and costs of internal/access/store.go at concrete values.
use cpa_access_manager.Base.{ℕ, ◌≡◌, refl, ◌<◌, true, arith}
use cpa_access_manager.Base.Int.{pos, ◌+ℤ◌}
use cpa_access_manager.Base.Text.{codes, text_ltb}
use cpa_access_manager.Access.Types.{Time, PriceRule}
use cpa_access_manager.Access.Time.{stamp, after}
use cpa_access_manager.Access.Time.Order.{text_ltb-stamp_reversed}
use cpa_access_manager.Access.Normalize.{normalize_provider}
use cpa_access_manager.Access.Prices.{normalized_cache_read_tokens}
use cpa_access_manager.Base.Int.{ℤ, pos, ◌+ℤ◌, ◌*ℤ◌, ◌≤ℤ◌}
use cpa_access_manager.Access.Prices.{max64, calculate_usd}
use cpa_access_manager.Access.Prices.Cost.{IsInt64, HasInt64, calculate_usd_once}
use cpa_access_manager.Base.Text.{trim_space}
use cpa_access_manager.Base.{refl, ◌≡◌}
use cpa_access_manager.Access.Prices.{find_price_rule}
use cpa_access_manager.Access.Prices.Lookup.{price_of, found_or_missing, find_price_rule_exact}
use cpa_access_manager.Tests.Fixtures.{state, tables, detail, noon}
use cpa_access_manager.Base.{All, List, [], ◌∷◌, ◌++◌, some, ◌≤◌, length}
use cpa_access_manager.Base.Distinct.{Distinct}
use cpa_access_manager.Base.Text.{Text}
use cpa_access_manager.Plugin.Millis.{nanos_to_millis}
use cpa_access_manager.Plugin.Millis.Bounds.{
  IsRounded, nanos_to_millis-bounds, nanos_to_millis-wraps,
}
use cpa_access_manager.Plugin.Update.{shell_quote}
use cpa_access_manager.Plugin.Update.Quote.{plain, read_word, shell_quote-read_word}
use cpa_access_manager.Plugin.PriceSync.{PriceSpec, lite_llm_price_rules, seen_key}
use cpa_access_manager.Plugin.PriceSync.Rules.{IsOfficial, lite_llm_price_rules-IsOfficial}
use cpa_access_manager.Plugin.Inventory.{mask_secret}
use cpa_access_manager.Plugin.Inventory.Mask.{mask_secret-hides}

abbrev whole : Time
whole = record { seconds = 63_900_014_400; nanos = 0 }

text_ltb-stamp_reversed_example :
    (after noon whole ≡ true) × (text_ltb (stamp noon) (stamp whole) ≡ true)
text_ltb-stamp_reversed_example = text_ltb-stamp_reversed whole noon refl refl (omega arith)

abbrev rule : PriceRule
rule = record {
  provider = codes "openai";
  model = codes "m";
  input_usd_per_million = pos 3;
  output_usd_per_million = pos 4;
  cache_read_usd_per_million = pos 1;
  updated_at = noon;
}

int64 : (n : ℕ) → n < 9_223_372_036_854_775_808 → IsInt64 (pos n)
int64 n h = record { low = omega arith; high = h }

detail-HasInt64 : HasInt64 detail
detail-HasInt64 = record {
  input = int64 10 (omega arith);
  cached = int64 4 (omega arith);
  cache_read = int64 0 (omega arith);
  cache_creation = int64 1 (omega arith);
}

calculate_usd_once_example :
    (fresh : ℤ) × (pos 0 ≤ℤ fresh)
    × (pos 0 ≤ℤ normalized_cache_read_tokens detail)
    × (fresh +ℤ normalized_cache_read_tokens detail
        ≡ max64 (pos 10) (normalized_cache_read_tokens detail))
    × (calculate_usd rule detail
        ≡ fresh *ℤ pos 3
          +ℤ max64 (pos 5) (pos 0) *ℤ pos 4
          +ℤ normalized_cache_read_tokens detail *ℤ pos 1)
calculate_usd_once_example = calculate_usd_once rule detail detail-HasInt64 (omega arith)

-- A provider without a price of its own takes that of its official name.
find_price_rule_exact_example : find_price_rule (codes "Codex") (codes " m") state ≡ (
  found_or_missing
      (price_of (normalize_provider (codes "Codex")) (trim_space (codes " m")) tables.price_rules),
  state,
)
find_price_rule_exact_example = find_price_rule_exact (codes "Codex") (codes " m") state refl

-- A time of 1.5 milliseconds, and the largest int64.
nanos_to_millis-bounds_example :
    (m : ℕ) × (nanos_to_millis (pos 1_500_000) ≡ pos m) × IsRounded 1_500_000 m
nanos_to_millis-bounds_example = nanos_to_millis-bounds 1_500_000 (omega arith) (omega arith)

nanos_to_millis-wraps_example : nanos_to_millis (pos 9_223_372_036_854_775_807) ≡ pos 1
nanos_to_millis-wraps_example =
    nanos_to_millis-wraps 9_223_372_036_854_775_807 (omega arith) (omega arith)

shell_quote-read_word_example :
    read_word plain (shell_quote (codes "it's $HOME") ++ codes " next")
    ≡ some (codes "it's $HOME", codes " next")
unfolding read_word
shell_quote-read_word_example = shell_quote-read_word (codes "it's $HOME") (codes " next") refl

abbrev spec : PriceSpec
spec = record {
  provider = codes "anthropic";
  input_cost_per_token = pos 3;
  output_cost_per_token = pos 15;
  cache_read_input_cost_token = pos 0;
}

abbrev specs : List (Text × PriceSpec)
specs =
    (codes "anthropic/m", spec)
    ∷ (codes "m", record spec { output_cost_per_token = pos 9 })
    ∷ (codes "other", record spec { provider = codes "bedrock" })
    ∷ []

lite_llm_price_rules-IsOfficial_example :
    All IsOfficial (lite_llm_price_rules specs)
    × Distinct (λ r. seen_key r.provider r.model) (lite_llm_price_rules specs)
lite_llm_price_rules-IsOfficial_example = lite_llm_price_rules-IsOfficial specs

mask_secret-hides_example :
    (mask_secret (codes "sk-a-secret-key") ≡ mask_secret (codes "sk-another-one-key"))
    × (length (mask_secret (codes "sk-a-secret-key")) ≤ 14)
unfolding trim_space
mask_secret-hides_example =
    mask_secret-hides (codes "sk-a-secret-key") (codes "sk-another-one-key") (omega arith)
      (omega arith) refl refl
