-- ===== src/Plugin/Management.antt =====
-- handleManagement of internal/plugin/management.go. The status page's version probe of the host is
-- not part of the response.
pub mod Types
pub mod Paths
pub mod Responses
pub mod Keys
pub mod Groups
pub mod Catalog
pub mod Usage
pub mod Update
pub mod Reads
pub mod Writes
use cpa_access_manager.Base.{
  Bool, true, false, ◌≡◌, List, [], ◌∷◌, Option, none, some, if◌then◌else◌,
}
use cpa_access_manager.Base.Text.{Text, codes, text_eq}
use cpa_access_manager.Access.Normalize.{Platform}
use cpa_access_manager.Access.Db.{Result, ok, err, State, Db, pure}
use cpa_access_manager.Plugin.Types.{App, Config, Library, ManagementRequest}
use cpa_access_manager.Plugin.Handlers.{Reply, reply, broken, with_state}
use Types.{
  Payload, status, message, ManagementResponse, Outside, json_management, refused, web_page,
}
use Paths.{
  route_keys, route_rotate_key, route_groups, route_inventory, route_prices, route_prices_sync,
  route_usage, route_status, route_cpa_update, normalized_plugin_path, is_api_key_resource,
  is_settings_resource, is_usage_resource, is_shared_ui_resource,
}
use Responses.{Inputs}
use Keys.{handle_keys, handle_rotate_key}
use Groups.{handle_groups}
use Catalog.{handle_inventory, handle_prices, handle_price_sync}
use Usage.{handle_usage_api}
use Update.{handle_cpa_update}
use cpa_access_manager.Plugin.Update.{Machine}

-- The switch of handleManagement.
unfoldable pub dispatch :
    Platform
    → Library
    → Outside
    → Inputs
    → Config
    → Machine
    → ManagementRequest
    → Text
    → Db ManagementResponse
unfolding handle_keys handle_rotate_key handle_groups handle_inventory handle_prices
    handle_price_sync handle_usage_api handle_cpa_update
dispatch p l o i cfg w req path =
    if text_eq path route_status
    then pure (json_management 200 (status cfg.enabled cfg.db_path))
    else if text_eq path route_keys
    then handle_keys p o i req
    else if text_eq path route_rotate_key
    then handle_rotate_key p o i req
    else if text_eq path route_groups
    then handle_groups o i req
    else if text_eq path route_inventory
    then handle_inventory p l o i req
    else if text_eq path route_prices
    then handle_prices o i req
    else if text_eq path route_prices_sync
    then handle_price_sync o i req
    else if text_eq path route_usage
    then handle_usage_api p o i req
    else if text_eq path route_cpa_update
    then pure (handle_cpa_update w o cfg req)
    else pure (refused 404 (codes "route not found"))

-- The response of a computation on the store that does not fail.
unfoldable pub settled : App → Result ManagementResponse × State → Reply ManagementResponse × App
settled a (ok r, s) = (reply r, with_state a s)
settled a (err e, s) = (broken, with_state a s)

unfoldable pub on_store :
    Platform
    → Library
    → Outside
    → Inputs
    → App
    → Machine
    → ManagementRequest
    → Option State
    → Reply ManagementResponse × App
unfolding dispatch settled normalized_plugin_path
on_store p l o i a w req none = (reply (refused 503 (codes "store is not configured")), a)
on_store p l o i a w req (some s) =
    settled a (dispatch p l o i a.cfg w req (normalized_plugin_path req.path) s)

abbrev html : Text
html = codes "text/html; charset=utf-8"

unfoldable pub management_request :
    Platform
    → Library
    → Outside
    → Inputs
    → App
    → Machine
    → Option ManagementRequest
    → Reply ManagementResponse × App
unfolding on_store is_api_key_resource is_settings_resource is_usage_resource is_shared_ui_resource
management_request p l o i a w none = (broken, a)
management_request p l o i a w (some req) =
    if is_api_key_resource req.path
    then (reply (web_page html (codes "APIKeyHTML")), a)
    else if is_shared_ui_resource req.path
    then (reply (web_page (codes "text/css; charset=utf-8") (codes "SharedUICSS")), a)
    else if is_settings_resource req.path
    then (reply (web_page html (codes "SettingsHTML")), a)
    else if is_usage_resource req.path
    then (reply (web_page html (codes "UsageStatisticsHTML")), a)
    else on_store p l o i a w req a.store

-- handleManagement
unfoldable pub handle_management :
    Platform → Library → Outside → Inputs → App → Machine → Text → Reply ManagementResponse × App
unfolding management_request
handle_management p l o i a w raw = management_request p l o i a w (o.decode_management raw)
