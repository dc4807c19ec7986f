-- ===== src/Access/Auth.antt =====
-- Authenticate and ValidateBindingsAndPricing of internal/access/store.go.
pub mod Safety
use cpa_access_manager.Base.{
  Bool, true, false, ◌||◌, not, List, [], ◌∷◌, Option, none, some, update_where, if◌then◌else◌,
}
use cpa_access_manager.Base.Text.{Text, text_eq, is_empty, trim_space}
use cpa_access_manager.Access.Types.{Time, Key, Scope, PriceRule, Error}
use cpa_access_manager.Access.Time.{format_time}
use cpa_access_manager.Access.Normalize.{Platform}
use cpa_access_manager.Access.Limits.{limits_enabled}
use cpa_access_manager.Access.Quota.{check_quota}
use cpa_access_manager.Access.Keys.{key_by_presented_token, update_key_row}
use cpa_access_manager.Access.Scope.{resolve_scope}
use cpa_access_manager.Access.Prices.{find_price_rule}
use cpa_access_manager.Access.Db.{
  Result, ok, err, Store, Db, ◌>>=◌, ◌>>◌, pure, fail, gets, or_zero, attempt, exec,
}

unfoldable pub is_ok : {A : Type 0} → Result A → Bool
is_ok (ok a) = true
is_ok (err e) = false

-- The loop of ValidateBindingsAndPricing: one provider with a price is enough.
unfoldable pub some_priced : List Text → Text → Db (Unit {0})
unfolding is_ok find_price_rule
some_priced [] model = fail Error.missing_price_rule
some_priced (provider ∷ providers) model =
    let rest = some_priced providers model in
    do rule ← attempt (find_price_rule provider model); if is_ok rule then pure tt else rest

unfoldable pub priced_for : Key → Text → Scope → Bool → Db (Unit {0})
unfolding some_priced limits_enabled
priced_for key model scope allow_unpriced =
    if not scope.has_bindings
    then pure tt
    else if is_empty model || (not (limits_enabled key.limits) || allow_unpriced)
    then pure tt
    else some_priced scope.providers model

-- ValidateBindingsAndPricing
unfoldable pub validate_bindings_and_pricing : Key → Text → Db (Unit {0})
unfolding priced_for resolve_scope
validate_bindings_and_pricing key requested_model = do
  scope ← resolve_scope key.id
  allow_unpriced ← gets (λ s. s.allow_unpriced)
  priced_for key (trim_space requested_model) scope allow_unpriced

unfoldable pub refuse_disabled : Key → Db (Unit {0})
refuse_disabled key = if key.enabled then pure tt else fail Error.key_disabled

-- Authenticate; `present` is time.Now(). The UPDATE of the last use may fail unnoticed.
unfoldable pub authenticate : Platform → Text → Text → Time → Time → Db Key
unfolding key_by_presented_token refuse_disabled check_quota validate_bindings_and_pricing
    update_key_row
authenticate p token requested_model now present = do
  key ← key_by_presented_token p token present
  refuse_disabled key
  check_quota key now present
  validate_bindings_and_pricing key requested_model
  let at = format_time present now
  or_zero tt
      (exec (update_key_row key.id (λ k. record k { last_used_at = some at; updated_at = at })))
  pure key
