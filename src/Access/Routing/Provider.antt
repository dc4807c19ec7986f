-- ===== src/Access/Routing/Provider.antt =====
-- ChooseProviderRouted of internal/access/routing.go.
pub mod Allowed
pub mod Choice
use cpa_access_manager.Base.{
  Bool, true, false, ◌&&◌, not, List, [], ◌∷◌, ◌++◌, Option, none, some, if◌then◌else◌,
}
use cpa_access_manager.Base.Text.{Text, codes, is_empty, trim_space, text_leb}
use cpa_access_manager.Base.Sort.{sort_by}
use cpa_access_manager.Access.Types.{Time, Key, Scope, Error}
use cpa_access_manager.Access.Time.{after}
use cpa_access_manager.Access.Normalize.{has, string_set}
use cpa_access_manager.Access.Limits.{limits_enabled}
use cpa_access_manager.Access.Keys.{get_key}
use cpa_access_manager.Access.Scope.{resolve_scope}
use cpa_access_manager.Access.Prices.{find_price_rule}
use cpa_access_manager.Access.Auth.{is_ok}
use cpa_access_manager.Access.Routing.Cursor.{next_routing_value, routing_now, contains_string}
use cpa_access_manager.Access.Routing.Session.{
  RoutingSession, load_routing_session, save_routing_session, delete_expired_routing_sessions,
}
use cpa_access_manager.Access.Db.{Db, ◌>>=◌, ◌>>◌, pure, fail, gets, attempt, transaction}

abbrev pub is_nil : List Text → Bool
is_nil [] = true
is_nil (v ∷ values) = false

-- The tests of the loop over the providers of the scope: available, and with a price where the key
-- has a limit.
unfoldable pub provider_passes : Key → Text → Bool → List Text → Text → Db Bool
unfolding is_ok find_price_rule limits_enabled
provider_passes key model allow_unpriced available provider =
    if is_empty provider
    then pure false
    else if not (is_nil available) && not (has available provider)
    then pure false
    else if limits_enabled key.limits && (not allow_unpriced && not (is_empty (trim_space model)))
    then (do rule ← attempt (find_price_rule provider model); pure (is_ok rule))
    else pure true

-- The loop; the order of a Go map is any order of the list.
unfoldable pub allowed_providers : Key → Text → Bool → List Text → List Text → Db (List Text)
unfolding provider_passes
allowed_providers key model allow_unpriced available [] = pure []
allowed_providers key model allow_unpriced available (provider ∷ providers) = do
  passes ← provider_passes key model allow_unpriced available provider
  rest ← allowed_providers key model allow_unpriced available providers
  pure (if passes then provider ∷ rest else rest)

abbrev separator : Text
separator = 0 ∷ []

abbrev pub provider_cursor : Text → Text → Text
provider_cursor key_id model = codes "provider" ++ (separator ++ (key_id ++ (separator ++ model)))

-- The session's provider, if the session has not run out and the provider is still allowed.
unfoldable pub sticky_provider : List Text → Time → Option RoutingSession → Option RoutingSession
unfolding contains_string after
sticky_provider allowed now none = none
sticky_provider allowed now (some mapped) =
    if after mapped.expires_at now && contains_string allowed mapped.provider
    then some mapped
    else none

unfoldable pub route_provider :
    Text → Text → Text → List Text → Time → Option RoutingSession → Db Text
unfolding save_routing_session delete_expired_routing_sessions next_routing_value
route_provider key_id session_hash cursor allowed now (some mapped) = do
  save_routing_session key_id session_hash mapped.provider mapped.auth_id now
  pure mapped.provider
route_provider key_id session_hash cursor allowed now none = do
  selected ← next_routing_value cursor allowed
  save_routing_session key_id session_hash selected [] now
  delete_expired_routing_sessions now
  pure selected

-- The part of ChooseProviderRouted that holds `routingMu`.
unfoldable pub route_allowed : Text → Text → Text → List Text → Time → Db Text
unfolding route_provider sticky_provider load_routing_session next_routing_value
route_allowed key_id model session_hash allowed now =
    if is_empty session_hash
    then next_routing_value (provider_cursor key_id model) allowed
    else transaction (do
      mapped ← load_routing_session key_id session_hash
      route_provider key_id session_hash (provider_cursor key_id model) allowed now
          (sticky_provider allowed now mapped))

unfoldable pub choose_allowed : Text → Text → Text → Time → List Text → Db Text
unfolding route_allowed
choose_allowed key_id requested_model session_hash now allowed =
    if is_nil allowed
    then fail Error.no_allowed_target
    else route_allowed key_id (trim_space requested_model) (trim_space session_hash) allowed now

unfoldable pub choose_in_scope : Key → Scope → Text → Text → List Text → Text → Time → Db Text
unfolding choose_allowed allowed_providers sort_by
choose_in_scope key scope key_id requested_model available session_hash now =
    if not scope.has_bindings then fail Error.no_bindings else do
      allow_unpriced ← gets (λ s. s.allow_unpriced)
      allowed ←
          allowed_providers key requested_model allow_unpriced (string_set available)
            scope.providers
      choose_allowed key_id requested_model session_hash now (sort_by text_leb allowed)

-- ChooseProviderRouted
unfoldable pub choose_provider_routed : Text → Text → List Text → Text → Time → Time → Db Text
unfolding choose_in_scope get_key resolve_scope
choose_provider_routed key_id requested_model available session_hash now present = do
  key ← get_key key_id present
  scope ← resolve_scope key_id
  choose_in_scope key scope key_id requested_model available session_hash (routing_now now present)
