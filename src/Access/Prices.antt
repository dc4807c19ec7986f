-- ===== src/Access/Prices.antt =====
-- Price rules and costs of internal/access/store.go. Token counts are int64: their differences wrap
-- around as `sub64` writes out. An amount is tokens times rate, in units of 10^-12 USD, which the
-- division by 1,000,000 of CalculateUSD stands for.
pub mod Atomic
pub mod Written
pub mod Cost
pub mod Lookup
use cpa_access_manager.Base.{
  ℕ, ◌+◌, ◌-◌, ◌%◌, ◌^◌, Bool, true, false, ◌&&◌, ◌||◌, not, List, [], ◌∷◌, Option, none, some,
  find, any, update_where, if◌then◌else◌, ltb,
}
use cpa_access_manager.Base.Int.{ℤ, pos, negsuc, ltb_ℤ, ◌+ℤ◌, ◌-ℤ◌, ◌*ℤ◌}
use cpa_access_manager.Base.Text.{Text, text_eq, text_ltb, codes, is_empty, trim_space}
use cpa_access_manager.Base.Sort.{sort_by}
use cpa_access_manager.Access.Types.{Time, PriceRule, UsageDetail, Error}
use cpa_access_manager.Access.Time.{stamp, parse_time}
use cpa_access_manager.Access.Normalize.{normalize_provider}
use cpa_access_manager.Access.Db.{
  Result, ok, err, Db, ◌>>=◌, ◌>>◌, pure, fail, lift, attempt, query, query_row, exec, transaction,
}
use cpa_access_manager.Access.Db.Schema.{Tables, PriceRow}

abbrev word : ℕ
word = 2 ^ 64

-- The int64 of 64 bits, and the bits of an integer.
unfoldable pub of_bits : ℕ → ℤ
of_bits n = if ltb n (2 ^ 63) then pos n else negsuc (word - 1 - n)

unfoldable pub to_bits : ℤ → ℕ
to_bits (pos n) = n % word
to_bits (negsuc n) = word - 1 - n % word

-- The difference of two int64.
unfoldable pub sub64 : ℤ → ℤ → ℤ
unfolding ◌-ℤ◌ of_bits to_bits
sub64 a b = of_bits (to_bits (a -ℤ b))

-- max64
unfoldable pub max64 : ℤ → ℤ → ℤ
max64 v floor = if ltb_ℤ v floor then floor else v

-- normalizedCacheReadTokens
unfoldable pub normalized_cache_read_tokens : UsageDetail → ℤ
unfolding sub64 max64
normalized_cache_read_tokens d =
    let cached = max64 d.cached_tokens (pos 0) in
    let creation = max64 d.cache_creation_tokens (pos 0) in
    if ltb_ℤ (pos 0) d.cache_read_tokens
    then d.cache_read_tokens
    else if not (ltb_ℤ (pos 0) cached)
    then pos 0
    else if ltb_ℤ (pos 0) creation
    then (if ltb_ℤ creation cached then sub64 cached creation else pos 0)
    else cached

-- CalculateUSD
unfoldable pub calculate_usd : PriceRule → UsageDetail → ℤ
unfolding normalized_cache_read_tokens sub64 max64 ◌+ℤ◌ ◌*ℤ◌
calculate_usd rule d =
    let cache_read = normalized_cache_read_tokens d in
    let input = max64 (sub64 d.input_tokens cache_read) (pos 0) in
    let output = max64 d.output_tokens (pos 0) in
    input *ℤ rule.input_usd_per_million
    +ℤ output *ℤ rule.output_usd_per_million
    +ℤ cache_read *ℤ rule.cache_read_usd_per_million

unfoldable pub scan_price : PriceRow → PriceRule
scan_price row = record {
  provider = row.provider;
  model = row.model;
  input_usd_per_million = row.input_usd_per_million;
  output_usd_per_million = row.output_usd_per_million;
  cache_read_usd_per_million = row.cache_read_usd_per_million;
  updated_at = parse_time row.updated_at;
}

abbrev pub same_price : Text → Text → PriceRow → Bool
same_price provider model row = text_eq row.provider provider && text_eq row.model model

-- The INSERT … ON CONFLICT(provider, model) DO UPDATE of upsertPriceRulesTx.
unfoldable pub upsert_price : PriceRow → Tables → Tables
unfolding any update_where
upsert_price row t =
    if any (same_price row.provider row.model) t.price_rules
    then record t {
      price_rules = update_where (same_price row.provider row.model) (λ old. row) t.price_rules;
    }
    else record t { price_rules = row ∷ t.price_rules }

unfoldable pub price_row : Text → PriceRule → PriceRow
price_row now rule = record {
  provider = normalize_provider rule.provider;
  model = trim_space rule.model;
  input_usd_per_million = rule.input_usd_per_million;
  output_usd_per_million = rule.output_usd_per_million;
  cache_read_usd_per_million = rule.cache_read_usd_per_million;
  updated_at = now;
}

-- upsertPriceRulesTx
unfoldable pub upsert_price_rules_tx : List PriceRule → Text → Db (Unit {0})
unfolding upsert_price price_row
upsert_price_rules_tx [] now = pure tt
upsert_price_rules_tx (rule ∷ rules) now =
    let row = price_row now rule in
    let rest = upsert_price_rules_tx rules now in
    if is_empty row.provider || is_empty row.model then rest else (do exec (upsert_price row); rest)

-- UpsertPriceRules
unfoldable pub upsert_price_rules : List PriceRule → Time → Db (Unit {0})
unfolding upsert_price_rules_tx
upsert_price_rules rules present = transaction (upsert_price_rules_tx rules (stamp present))

unfoldable pub clear_prices : Tables → Tables
clear_prices t = record t { price_rules = [] }

-- ReplacePriceRules
unfoldable pub replace_price_rules : List PriceRule → Time → Db (Unit {0})
unfolding upsert_price_rules_tx clear_prices
replace_price_rules rules present =
    transaction (do exec clear_prices; upsert_price_rules_tx rules (stamp present))

-- ORDER BY provider, model
unfoldable pub price_le : PriceRow → PriceRow → Bool
price_le a b =
    if text_ltb a.provider b.provider
    then true
    else if text_ltb b.provider a.provider
    then false
    else not (text_ltb b.model a.model)

scan_prices : List PriceRow → List PriceRule
unfolding scan_price
scan_prices [] = []
scan_prices (row ∷ rows) = scan_price row ∷ scan_prices rows

-- ListPriceRules
unfoldable pub list_price_rules : Db (List PriceRule)
unfolding scan_prices price_le sort_by
list_price_rules = query (λ t. scan_prices (sort_by price_le t.price_rules))

unfoldable pub find_price : Text → Text → Tables → Option PriceRow
unfolding find
find_price provider model t = find (same_price provider model) t.price_rules

-- priceRule
unfoldable pub stored_price_rule : Text → Text → Db PriceRule
unfolding scan_price find_price
stored_price_rule provider model = do
  row ← query_row Error.missing_price_rule (find_price provider model)
  pure (scan_price row)

-- officialPriceProvider
unfoldable pub official_price_provider : Text → Text
unfolding normalize_provider
official_price_provider provider =
    let p = normalize_provider provider in
    if text_eq p (codes "codex")
    then codes "openai"
    else if text_eq p (codes "claude")
    then codes "anthropic"
    else if text_eq p (codes "vertex_ai")
    then codes "vertex"
    else p

unfoldable pub is_missing_price : Error → Bool
is_missing_price Error.missing_price_rule = true
is_missing_price _ = false

unfoldable pub official_rule : Text → Text → Db PriceRule
unfolding official_price_provider stored_price_rule
official_rule provider model =
    if text_eq (official_price_provider provider) provider
    then fail Error.missing_price_rule
    else stored_price_rule (official_price_provider provider) model

unfoldable pub or_official : Text → Text → Result PriceRule → Db PriceRule
unfolding official_rule is_missing_price
or_official provider model (ok rule) = pure rule
or_official provider model (err e) =
    if is_missing_price e then official_rule provider model else fail e

-- PriceRule
unfoldable pub find_price_rule : Text → Text → Db PriceRule
unfolding stored_price_rule or_official
find_price_rule provider model = do
  rule ← attempt (stored_price_rule (normalize_provider provider) (trim_space model))
  or_official (normalize_provider provider) (trim_space model) rule
