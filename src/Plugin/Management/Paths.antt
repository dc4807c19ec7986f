-- ===== src/Plugin/Management/Paths.antt =====
-- The paths of the management API: normalizedPluginPath and hasResourceSuffix of
-- internal/plugin/management.go, and the constants of internal/plugin/types.go.
use cpa_access_manager.Base.{
  Bool, ◌||◌, List, [], ◌∷◌, ◌++◌, any, drop, length, reverse, if◌then◌else◌,
}
use cpa_access_manager.Base.Text.{Text, codes, trim_space, has_prefix}

abbrev pub plugin_route : Text → Text
plugin_route name = codes "/plugins/cpa-toolkit/" ++ name

abbrev pub route_keys : Text
route_keys = plugin_route (codes "keys")

abbrev pub route_rotate_key : Text
route_rotate_key = plugin_route (codes "keys/rotate")

abbrev pub route_groups : Text
route_groups = plugin_route (codes "groups")

abbrev pub route_inventory : Text
route_inventory = plugin_route (codes "inventory")

abbrev pub route_prices : Text
route_prices = plugin_route (codes "prices")

abbrev pub route_prices_sync : Text
route_prices_sync = plugin_route (codes "prices/sync")

abbrev pub route_usage : Text
route_usage = plugin_route (codes "usage")

abbrev pub route_status : Text
route_status = plugin_route (codes "status")

abbrev pub route_cpa_update : Text
route_cpa_update = plugin_route (codes "cpa/update")

-- strings.HasSuffix
unfoldable pub has_suffix : Text → Text → Bool
has_suffix s suffix = has_prefix (reverse s) (reverse suffix)

-- strings.Contains
unfoldable pub contains : Text → Text → Bool
contains [] part = has_prefix [] part
contains (c ∷ s) part = has_prefix (c ∷ s) part || contains s part

abbrev pub all_routes : List Text
all_routes =
    route_rotate_key ∷ route_keys ∷ route_groups ∷ route_inventory ∷ route_prices_sync
    ∷ route_prices ∷ route_usage ∷ route_cpa_update ∷ route_status ∷ []

unfoldable pub first_route : Text → List Text → Text → Text
unfolding has_suffix contains
first_route path [] rest = rest
first_route path (route ∷ routes) rest =
    let next = first_route path routes rest in
    if has_suffix path route || contains path route then route else next

-- normalizedPluginPath
unfoldable pub normalized_plugin_path : Text → Text
unfolding first_route
normalized_plugin_path path =
    let p = trim_space path in
    let base = codes "/v0/management" in
    first_route p all_routes (if has_prefix p base then drop (length base) p else p)

-- hasResourceSuffix
unfoldable pub has_resource_suffix : Text → List Text → Bool
unfolding has_suffix any
has_resource_suffix path suffixes =
    any
      (λ s.
        has_suffix path (codes "/v0/resource/plugins/cpa-toolkit" ++ s)
        || (has_suffix path (codes "/resource/plugins/cpa-toolkit" ++ s) || has_suffix path s))
      suffixes

-- isAPIKeyResource, isSettingsResource, isUsageResource and isSharedUIResource
unfoldable pub is_api_key_resource : Text → Bool
unfolding has_resource_suffix
is_api_key_resource path =
    has_resource_suffix (trim_space path)
      (codes "/01-apikey.html" ∷ codes "/apikey.html" ∷ codes "/index.html" ∷ [])

unfoldable pub is_settings_resource : Text → Bool
unfolding has_resource_suffix
is_settings_resource path =
    has_resource_suffix (trim_space path) (codes "/03-settings.html" ∷ codes "/settings.html" ∷ [])

unfoldable pub is_usage_resource : Text → Bool
unfolding has_resource_suffix
is_usage_resource path =
    has_resource_suffix (trim_space path)
      (codes "/02-usage-statistics.html" ∷ codes "/usage-statistics.html" ∷ [])

unfoldable pub is_shared_ui_resource : Text → Bool
unfolding has_resource_suffix
is_shared_ui_resource path = has_resource_suffix (trim_space path) (codes "/shared-ui.css" ∷ [])
