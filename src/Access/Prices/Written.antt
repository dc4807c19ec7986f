-- ===== src/Access/Prices/Written.antt =====
-- What the statements of upsertPriceRulesTx of internal/access/store.go make of the price table.
use cpa_access_manager.Base.{
  ◌≡◌, refl, ap, ◌∙◌, ◌&&◌, ◌||◌, not, Bool, List, [], ◌∷◌, Option, none, some, any, update_where,
  arith, if◌then◌else◌,
}
use cpa_access_manager.Base.Int.{ℤ}
use cpa_access_manager.Base.Text.{Text, text_eq, is_empty, trim_space}
use cpa_access_manager.Access.Types.{PriceRule}
use cpa_access_manager.Access.Normalize.{normalize_provider}
use cpa_access_manager.Access.Prices.{same_price, price_row, upsert_price}
use cpa_access_manager.Access.Db.Schema.{Tables, PriceRow}

-- The price that the first row of a provider and a model has, and its stamp.
pub record Price : Type 0 where
  pub input : ℤ
  pub output : ℤ
  pub cache_read : ℤ
  pub updated_at : Text

abbrev pub price_in : PriceRow → Price
price_in r = record {
  input = r.input_usd_per_million;
  output = r.output_usd_per_million;
  cache_read = r.cache_read_usd_per_million;
  updated_at = r.updated_at;
}

unfoldable pub price_at : Text → Text → List PriceRow → Option Price
price_at provider model [] = none
price_at provider model (r ∷ rows) =
    let rest = price_at provider model rows in
    if text_eq r.provider provider && text_eq r.model model then some (price_in r) else rest

-- The rule names the provider, normalized, and the model, trimmed, and neither is blank.
abbrev pub names : Text → Text → PriceRule → Bool
names provider model rule =
    not (is_empty provider)
    && (not (is_empty model)
        && (text_eq (normalize_provider rule.provider) provider
            && text_eq (trim_space rule.model) model))

abbrev pub price_given : Text → PriceRule → Price
price_given now rule = record {
  input = rule.input_usd_per_million;
  output = rule.output_usd_per_million;
  cache_read = rule.cache_read_usd_per_million;
  updated_at = now;
}

-- The price of the last rule of the list that names the provider and the model, or else `before`.
unfoldable pub last_given : Text → Text → Text → List PriceRule → Option Price → Option Price
last_given provider model now [] before = before
last_given provider model now (rule ∷ rules) before =
    last_given provider model now rules
      (if names provider model rule then some (price_given now rule) else before)

-- The table after the rules: each provider and model has the price of the last rule that names them, or
-- the price that they had; no other table changed.
pub record IsPriced (rules : List PriceRule) (now : Text) (t t' : Tables) : Type 0 where
  pub prices :
      (provider model : Text)
      → price_at provider model t'.price_rules
        ≡ last_given provider model now rules (price_at provider model t.price_rules)
  pub others : t' ≡ record t { price_rules = t'.price_rules }

update-price_at :
    (provider model : Text) (row : PriceRow) (rows : List PriceRow)
    → price_at provider model (update_where (same_price row.provider row.model) (λ old. row) rows)
      ≡ (if (text_eq row.provider provider && text_eq row.model model)
            && any (same_price row.provider row.model) rows
          then some (price_in row)
          else price_at provider model rows)
unfolding price_at update_where any
update-price_at provider model row [] = ground arith
update-price_at provider model row (r ∷ rows) =
    ground (arith, update-price_at provider model row rows)

upsert_price-price_at :
    (provider model : Text) (row : PriceRow) (t : Tables)
    → price_at provider model (upsert_price row t).price_rules ≡ (
        if text_eq row.provider provider && text_eq row.model model
        then some (price_in row)
        else price_at provider model t.price_rules)
unfolding upsert_price price_at
upsert_price-price_at provider model row t =
    ground (arith, update-price_at provider model row t.price_rules)

-- The tables with one rule after the other written, those without provider or model left out.
unfoldable pub with_rule : PriceRow → Tables → Tables
with_rule row t = if is_empty row.provider || is_empty row.model then t else upsert_price row t

unfoldable pub with_rules : List PriceRule → Text → Tables → Tables
unfolding with_rule
with_rules [] now t = t
with_rules (rule ∷ rules) now t = with_rules rules now (with_rule (price_row now rule) t)

with_rule-price_at :
    (provider model now : Text) (rule : PriceRule) (t : Tables)
    → price_at provider model (with_rule (price_row now rule) t).price_rules ≡ (
        if names provider model rule
        then some (price_given now rule)
        else price_at provider model t.price_rules)
unfolding with_rule price_row
with_rule-price_at provider model now rule t =
    ground (arith, upsert_price-price_at provider model (price_row now rule) t)

with_rule-others :
    (row : PriceRow) (t : Tables)
    → with_rule row t ≡ record t { price_rules = (with_rule row t).price_rules }
unfolding with_rule upsert_price
with_rule-others row t = ground arith

with_rules-others :
    (rules : List PriceRule) (now : Text) (t : Tables)
    → with_rules rules now t ≡ record t { price_rules = (with_rules rules now t).price_rules }
unfolding with_rules
with_rules-others [] now t = refl
with_rules-others (rule ∷ rules) now t =
    let u = with_rule (price_row now rule) t in
    with_rules-others rules now u
    ∙ ap (λ (x : Tables). record x { price_rules = (with_rules rules now u).price_rules })
        (with_rule-others (price_row now rule) t)

with_rules-price_at :
    (provider model now : Text) (rules : List PriceRule) (t : Tables)
    → price_at provider model (with_rules rules now t).price_rules
      ≡ last_given provider model now rules (price_at provider model t.price_rules)
unfolding with_rules last_given
with_rules-price_at provider model now [] t = refl
with_rules-price_at provider model now (rule ∷ rules) t =
    with_rules-price_at provider model now rules (with_rule (price_row now rule) t)
    ∙ ap (last_given provider model now rules) (with_rule-price_at provider model now rule t)

pub with_rules-IsPriced :
    (rules : List PriceRule) (now : Text) (t : Tables)
    → IsPriced rules now t (with_rules rules now t)
with_rules-IsPriced rules now t = record {
  prices = λ provider model. with_rules-price_at provider model now rules t;
  others = with_rules-others rules now t;
}
