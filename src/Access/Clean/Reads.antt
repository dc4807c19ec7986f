-- ===== src/Access/Clean/Reads.antt =====
-- The operations of internal/access/store.go and routing.go that read, and so change no table.
use cpa_access_manager.Base.{Bool, true, false, not, ◌&&◌, List, [], ◌∷◌, Option, none, some}
use cpa_access_manager.Base.Int.{ℤ}
use cpa_access_manager.Base.Text.{Text, is_empty, trim_space}
use cpa_access_manager.Access.Types.{Time, Key, UsageSums, Scope, PriceRule, Error}
use cpa_access_manager.Access.Normalize.{Platform, has}
use cpa_access_manager.Access.Limits.{limits_enabled}
use cpa_access_manager.Access.Quota.{
  usage_sums, with_five_hour, with_weekly, with_total, Sums, check_quota, quota_of, error_or_unit,
  quota_verdict,
}
use cpa_access_manager.Access.Keys.{
  by_id_unless, key_by_id_or_presented_token, complete_key, get_key, key_by_presented_token,
  refuse_duplicate, choose_token,
}
use cpa_access_manager.Access.Keys.Token.{NewToken}
use cpa_access_manager.Access.Groups.{get_group}
use cpa_access_manager.Access.Prices.{
  stored_price_rule, or_official, official_rule, find_price_rule,
}
use cpa_access_manager.Access.Auth.{
  is_ok, some_priced, priced_for, validate_bindings_and_pricing, refuse_disabled,
}
use cpa_access_manager.Access.Scope.Depth.{key_bindings-ReadsOnly}
use cpa_access_manager.Access.Scope.Reads.{resolve_scope-ReadsOnly}
use cpa_access_manager.Access.Routing.Provider.{is_nil, provider_passes, allowed_providers}
use cpa_access_manager.Access.Db.{Result, ok, err}
use cpa_access_manager.Access.Db.Reads.{
  ReadsOnly, ReadsOnly-bind, ReadsOnly-if, ReadsOnly-pure, ReadsOnly-attempt, reads_rules,
}
use cpa_access_manager.Access.Db.Schema.{KeyRow}

with_total-ReadsOnly : (out : UsageSums) (r : Result ℤ) → ReadsOnly (with_total out r)
unfolding with_total
with_total-ReadsOnly out (err e) = search reads_rules
with_total-ReadsOnly out (ok v) = search reads_rules

with_weekly-ReadsOnly :
    (id : Text) (out : UsageSums) (r : Result ℤ) → ReadsOnly (with_weekly id out r)
unfolding with_weekly
with_weekly-ReadsOnly id out (err e) = search reads_rules
with_weekly-ReadsOnly id out (ok v) = search (reads_rules, with_total-ReadsOnly)

with_five_hour-ReadsOnly : (id start : Text) (r : Result ℤ) → ReadsOnly (with_five_hour id start r)
unfolding with_five_hour
with_five_hour-ReadsOnly id start (err e) = search reads_rules
with_five_hour-ReadsOnly id start (ok v) = search (reads_rules, with_weekly-ReadsOnly)

usage_sums-ReadsOnly : (id : Text) (now present : Time) → ReadsOnly (usage_sums id now present)
unfolding usage_sums
usage_sums-ReadsOnly id now present = search (reads_rules, with_five_hour-ReadsOnly)

error_or_unit-ReadsOnly : (o : Option Error) → ReadsOnly (error_or_unit o)
unfolding error_or_unit
error_or_unit-ReadsOnly none = search reads_rules
error_or_unit-ReadsOnly (some e) = search reads_rules

quota_of-ReadsOnly : (key : Key) (sums : Sums) → ReadsOnly (quota_of key sums)
unfolding quota_of
quota_of-ReadsOnly key (sums, none) = error_or_unit-ReadsOnly (quota_verdict key sums)
quota_of-ReadsOnly key (sums, some e) = search reads_rules

pub check_quota-ReadsOnly :
    (key : Key) (now present : Time) → ReadsOnly (check_quota key now present)
unfolding check_quota
check_quota-ReadsOnly key now present =
    search (reads_rules, usage_sums-ReadsOnly, quota_of-ReadsOnly)

pub complete_key-ReadsOnly : (row : KeyRow) (present : Time) → ReadsOnly (complete_key row present)
unfolding complete_key
complete_key-ReadsOnly row present =
    search (reads_rules, key_bindings-ReadsOnly, usage_sums-ReadsOnly)

pub get_key-ReadsOnly : (id : Text) (present : Time) → ReadsOnly (get_key id present)
unfolding get_key
get_key-ReadsOnly id present = search (reads_rules, complete_key-ReadsOnly)

pub key_by_presented_token-ReadsOnly :
    (p : Platform) (token : Text) (present : Time)
    → ReadsOnly (key_by_presented_token p token present)
unfolding key_by_presented_token
key_by_presented_token-ReadsOnly p token present = search (reads_rules, complete_key-ReadsOnly)

refuse_duplicate-ReadsOnly : (n : NewToken) (b : Bool) → ReadsOnly (refuse_duplicate n b)
unfolding refuse_duplicate
refuse_duplicate-ReadsOnly n b = search reads_rules

pub choose_token-ReadsOnly :
    (p : Platform) (requested : Text) (read : Option Text)
    → ReadsOnly (choose_token p requested read)
unfolding choose_token
choose_token-ReadsOnly p requested read = search (reads_rules, refuse_duplicate-ReadsOnly)

pub get_group-ReadsOnly : (id : Text) → ReadsOnly (get_group id)
unfolding get_group
get_group-ReadsOnly id = search reads_rules

stored_price_rule-ReadsOnly : (provider model : Text) → ReadsOnly (stored_price_rule provider model)
unfolding stored_price_rule
stored_price_rule-ReadsOnly provider model = search reads_rules

official_rule-ReadsOnly : (provider model : Text) → ReadsOnly (official_rule provider model)
unfolding official_rule
official_rule-ReadsOnly provider model = search (reads_rules, stored_price_rule-ReadsOnly)

or_official-ReadsOnly :
    (provider model : Text) (r : Result PriceRule) → ReadsOnly (or_official provider model r)
unfolding or_official
or_official-ReadsOnly provider model (ok rule) = search reads_rules
or_official-ReadsOnly provider model (err e) = search (reads_rules, official_rule-ReadsOnly)

pub find_price_rule-ReadsOnly : (provider model : Text) → ReadsOnly (find_price_rule provider model)
unfolding find_price_rule
find_price_rule-ReadsOnly provider model =
    search (reads_rules, stored_price_rule-ReadsOnly, or_official-ReadsOnly)

pub some_priced-ReadsOnly :
    (providers : List Text) (model : Text) → ReadsOnly (some_priced providers model)
unfolding some_priced
some_priced-ReadsOnly [] model = search reads_rules
some_priced-ReadsOnly (provider ∷ providers) model =
    ReadsOnly-bind _ _ (ReadsOnly-attempt _ (find_price_rule-ReadsOnly provider model)) (λ rule.
      ReadsOnly-if (is_ok rule) _ _ (ReadsOnly-pure tt) (some_priced-ReadsOnly providers model))

priced_for-ReadsOnly :
    (key : Key) (model : Text) (scope : Scope) (b : Bool) → ReadsOnly (priced_for key model scope b)
unfolding priced_for
priced_for-ReadsOnly key model scope b = search (reads_rules, some_priced-ReadsOnly)

pub validate_bindings_and_pricing-ReadsOnly :
    (key : Key) (model : Text) → ReadsOnly (validate_bindings_and_pricing key model)
unfolding validate_bindings_and_pricing
validate_bindings_and_pricing-ReadsOnly key model =
    search (reads_rules, resolve_scope-ReadsOnly, priced_for-ReadsOnly)

pub refuse_disabled-ReadsOnly : (key : Key) → ReadsOnly (refuse_disabled key)
unfolding refuse_disabled
refuse_disabled-ReadsOnly key = search reads_rules

pub provider_passes-ReadsOnly :
    (key : Key) (model : Text) (b : Bool) (available : List Text) (provider : Text)
    → ReadsOnly (provider_passes key model b available provider)
unfolding provider_passes
provider_passes-ReadsOnly key model b available provider =
    ReadsOnly-if (is_empty provider) _ _ (ReadsOnly-pure false) (
      ReadsOnly-if (not (is_nil available) && not (has available provider)) _ _
        (ReadsOnly-pure false)
        (ReadsOnly-if (limits_enabled key.limits && (not b && not (is_empty (trim_space model)))) _
          _
          (ReadsOnly-bind _ _ (ReadsOnly-attempt _ (find_price_rule-ReadsOnly provider model))
            (λ rule. ReadsOnly-pure (is_ok rule)))
          (ReadsOnly-pure true)))

pub allowed_providers-ReadsOnly :
    (key : Key) (model : Text) (b : Bool) (available providers : List Text)
    → ReadsOnly (allowed_providers key model b available providers)
unfolding allowed_providers
allowed_providers-ReadsOnly key model b available [] = search reads_rules
allowed_providers-ReadsOnly key model b available (provider ∷ providers) =
    ReadsOnly-bind _ _ (provider_passes-ReadsOnly key model b available provider) (λ passes.
      ReadsOnly-bind _ _ (allowed_providers-ReadsOnly key model b available providers)
        (λ rest. ReadsOnly-pure _))

by_id_unless-ReadsOnly :
    (value : Text) (present : Time) (r : Result Key) → ReadsOnly (by_id_unless value present r)
unfolding by_id_unless
by_id_unless-ReadsOnly value present (ok key) = ReadsOnly-pure key
by_id_unless-ReadsOnly value present (err e) = search (reads_rules, get_key-ReadsOnly)

pub key_by_id_or_presented_token-ReadsOnly :
    (p : Platform) (value : Text) (present : Time)
    → ReadsOnly (key_by_id_or_presented_token p value present)
unfolding key_by_id_or_presented_token
key_by_id_or_presented_token-ReadsOnly p value present =
    search (reads_rules, key_by_presented_token-ReadsOnly, by_id_unless-ReadsOnly)
