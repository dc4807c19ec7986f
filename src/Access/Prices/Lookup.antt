-- ===== src/Access/Prices/Lookup.antt =====
-- The look-up of PriceRule in internal/access/store.go.
use cpa_access_manager.Base.{◌≡◌, refl, [], Option, none, some, arith, if◌then◌else◌}
use cpa_access_manager.Base.Text.{Text, text_eq, trim_space}
use cpa_access_manager.Access.Types.{PriceRule, Error}
use cpa_access_manager.Access.Normalize.{normalize_provider}
use cpa_access_manager.Access.Prices.{
  find_price_rule, stored_price_rule, or_official, official_rule, is_missing_price, find_price,
  scan_price, official_price_provider,
}
use cpa_access_manager.Base.{◌⊎◌, List, ◌∷◌, find, true, false, ◌&&◌, ap, ◌∙◌}
use cpa_access_manager.Base.Text.{codes}
use cpa_access_manager.Access.Time.{parse_time}
use cpa_access_manager.Access.Normalize.Laws.{normalize_provider_idem}
use cpa_access_manager.Access.Prices.{same_price}
use cpa_access_manager.Access.Db.{
  Result, ok, err, State, ◌>>=◌, pure, fail, attempt, query_row, row_or, statement,
}
use cpa_access_manager.Access.Db.Schema.{PriceRow}

-- The first rule of the rows for a provider and a model.
unfoldable pub rule_at : Text → Text → List PriceRow → Option PriceRule
rule_at provider model [] = none
rule_at provider model (r ∷ rows) =
    let rest = rule_at provider model rows in
    if text_eq r.provider provider && text_eq r.model model
    then some (record {
      provider = provider;
      model = model;
      input_usd_per_million = r.input_usd_per_million;
      output_usd_per_million = r.output_usd_per_million;
      cache_read_usd_per_million = r.cache_read_usd_per_million;
      updated_at = parse_time r.updated_at;
    })
    else rest

-- The providers that price lists know under another name.
abbrev pub official_names : List (Text × Text)
official_names =
    (codes "codex", codes "openai")
    ∷ (codes "claude", codes "anthropic")
    ∷ (codes "vertex_ai", codes "vertex")
    ∷ []

abbrev pub official_of : Text → List (Text × Text) → Option Text
official_of provider [] = none
official_of provider ((name, official) ∷ names) =
    if text_eq provider name then some official else official_of provider names

-- The rule of the provider, else that of its other name.
unfoldable pub price_of : Text → Text → List PriceRow → Option PriceRule
unfolding rule_at
price_of provider model rows = elim (rule_at provider model rows) [
  | some rule ↦ some rule
  | none ↦ elim (official_of provider official_names) [
    | none ↦ none
    | some official ↦ rule_at official model rows
  ]
]

unfoldable pub found_or_missing : Option PriceRule → Result PriceRule
found_or_missing none = err Error.missing_price_rule
found_or_missing (some rule) = ok rule

scanned : Option PriceRow → Option PriceRule
scanned none = none
scanned (some row) = some (scan_price row)

find_price-rule_at :
    (provider model : Text) (rows : List PriceRow)
    → scanned (find (same_price provider model) rows) ≡ rule_at provider model rows
unfolding find rule_at scanned scan_price
find_price-rule_at provider model [] = refl
find_price-rule_at provider model (r ∷ rows) =
    ground (arith, find_price-rule_at provider model rows)

stored_by_row :
    (provider model : Text) (s : State)
    → s.faults ≡ []
    → stored_price_rule provider model s
      ≡ (found_or_missing (scanned (find_price provider model s.store.db)), s)
unfolding stored_price_rule ◌>>=◌ pure query_row row_or statement found_or_missing scanned
stored_by_row provider model s h = ground arith

stored_price_rule_reliable :
    (provider model : Text) (s : State)
    → s.faults ≡ []
    → stored_price_rule provider model s
      ≡ (found_or_missing (rule_at provider model s.store.db.price_rules), s)
unfolding find_price
stored_price_rule_reliable provider model s h =
    stored_by_row provider model s h
    ∙ ap (λ o. (found_or_missing o, s)) (find_price-rule_at provider model s.store.db.price_rules)

-- The names of officialPriceProvider are those of the table, and a name of the table is another one.
official_name :
    (n : Text)
    → normalize_provider n ≡ n
    → ((text_eq (official_price_provider n) n ≡ true) × (official_of n official_names ≡ none))
      ⊎ ((text_eq (official_price_provider n) n ≡ false)
          × (official_of n official_names ≡ some (official_price_provider n)))
unfolding official_price_provider
official_name n h = ground (arith, h)

-- Without failing statements PriceRule returns the rule stored under the normalized provider and the
-- trimmed model; where there is none, the rule stored under the official name of that provider, which is
-- openai for codex, anthropic for claude and vertex for vertex_ai; else it says that the rule is missing.
-- It changes nothing.
pub find_price_rule_exact :
    (provider model : Text) (s : State)
    → s.faults ≡ []
    → find_price_rule provider model s ≡ (
      found_or_missing
          (price_of (normalize_provider provider) (trim_space model) s.store.db.price_rules),
      s,
    )
unfolding find_price_rule or_official official_rule is_missing_price ◌>>=◌ attempt pure fail
    price_of found_or_missing
find_price_rule_exact provider model s h =
    let n = normalize_provider provider in
    ground (
      arith,
      stored_price_rule_reliable n (trim_space model) s h,
      stored_price_rule_reliable (official_price_provider n) (trim_space model) s h,
      official_name n (normalize_provider_idem provider),
    )
