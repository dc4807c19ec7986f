-- ===== src/Plugin/Management/Catalog.antt =====
-- handleInventory, handlePrices and handlePriceSync of internal/plugin/management.go, and
-- syncPriceRules and validatePriceSyncURL of internal/plugin/price_sync.go.
use cpa_access_manager.Base.{
  ℕ, Bool, true, false, ◌&&◌, ◌||◌, not, List, [], ◌∷◌, Option, none, some, length, leb, ltb,
  if◌then◌else◌,
}
use cpa_access_manager.Base.Text.{Text, codes, is_empty, trim_space, to_lower, text_eq}
use cpa_access_manager.Access.Types.{Time, InventoryItem, HostAuthFileEntry, PriceRule}
use cpa_access_manager.Access.Normalize.{Platform, Url}
use cpa_access_manager.Access.Inventory.{list_inventory, upsert_inventory_item}
use cpa_access_manager.Access.AuthFiles.{upsert_auth_files, sync_auth_files}
use cpa_access_manager.Access.Prices.{list_price_rules, upsert_price_rules, replace_price_rules}
use cpa_access_manager.Access.Db.{Result, ok, err, Db, ◌>>=◌, ◌>>◌, pure, attempt}
use cpa_access_manager.Plugin.Types.{Headers, Library, ManagementRequest}
use cpa_access_manager.Plugin.Values.{bearer_token}
use cpa_access_manager.Plugin.Inventory.{host_provider_inventory}
use cpa_access_manager.Plugin.PriceSync.{lite_llm_price_rules}
use cpa_access_manager.Plugin.Management.Types.{
  items, prices, synced, failure, ManagementResponse, InventoryRequest, Outside, json_management,
  bad_request, refused, not_allowed,
}
use cpa_access_manager.Plugin.Management.Responses.{
  Inputs, is_method, answer, decode_json, with_body, to_upper,
}

-- The calls of the store in a handler, in order; the first error ends them.
unfoldable pub upsert_items : Time → List InventoryItem → Db (Unit {0})
unfolding upsert_inventory_item
upsert_items present [] = pure tt
upsert_items present (item ∷ rest) = upsert_inventory_item present item >> upsert_items present rest

unfoldable pub or_refuse : Result (Unit {0}) → Db ManagementResponse → Db ManagementResponse
or_refuse (ok u) k = k
or_refuse (err e) k = pure (json_management 400 (failure e))

unfoldable pub then_answer : Db (Unit {0}) → Db ManagementResponse → Db ManagementResponse
unfolding or_refuse
then_answer m k = do r ← attempt m; or_refuse r k

pub no_files : List HostAuthFileEntry → Bool
no_files [] = true
no_files (e ∷ entries) = false

no_items : List InventoryItem → Bool
no_items [] = true
no_items (i ∷ rest) = false

unfoldable pub refresh_files :
    Platform → Library → Outside → Inputs → Headers → List HostAuthFileEntry → Db ManagementResponse
unfolding sync_auth_files upsert_items then_answer host_provider_inventory bearer_token
    list_inventory answer
refresh_files p l o i h files = then_answer (sync_auth_files p i.present files) (
    if is_empty (bearer_token l h)
    then pure bad_request
    else then_answer
        (upsert_items i.present (host_provider_inventory p i.present o.fetch_keys o.fetch_compat))
        (answer items list_inventory))

-- The refresh of POST, and the list that it ends with.
unfoldable pub refresh_inventory :
    Platform
    → Library
    → Outside
    → Inputs
    → Headers
    → Option (List HostAuthFileEntry)
    → Db ManagementResponse
unfolding refresh_files
refresh_inventory p l o i h none = pure bad_request
refresh_inventory p l o i h (some files) = refresh_files p l o i h files

unfoldable pub post_inventory :
    Platform
    → Library
    → Outside
    → Inputs
    → ManagementRequest
    → InventoryRequest
    → Db ManagementResponse
unfolding upsert_items then_answer upsert_auth_files refresh_inventory list_inventory answer
    no_files no_items
post_inventory p l o i req body =
    let refresh = body.refresh || (no_items body.items && no_files body.auth_files) in
    then_answer (upsert_items i.present body.items) (
      then_answer
        (if no_files body.auth_files then pure tt else upsert_auth_files i.present body.auth_files)
        (if refresh
          then refresh_inventory p l o i req.headers o.host_auth_files
          else answer items list_inventory))

abbrev no_inventory : InventoryRequest
no_inventory = record { refresh = false; items = []; auth_files = [] }

-- handleInventory
unfoldable pub handle_inventory :
    Platform → Library → Outside → Inputs → ManagementRequest → Db ManagementResponse
unfolding post_inventory list_inventory answer with_body decode_json to_upper
handle_inventory p l o i req =
    if is_method (codes "GET") req.method
    then answer items list_inventory
    else if is_method (codes "POST") req.method
    then with_body
        (if is_empty req.body then some no_inventory else decode_json o.decode_inventory req.body)
        (post_inventory p l o i req)
    else pure not_allowed

-- decodePriceRules: `decode_prices` reads the field `rules`.
price_list : Outside → Text → Option (List PriceRule) → Option (List PriceRule)
price_list o raw (some (r ∷ rules)) = some (r ∷ rules)
price_list o raw _ = o.decode_price_list raw

unfoldable pub decode_price_rules : Outside → Text → Option (List PriceRule)
unfolding price_list
decode_price_rules o raw = price_list o raw (o.decode_prices raw)

unfoldable pub put_prices : Inputs → List PriceRule → Db ManagementResponse
unfolding upsert_price_rules list_price_rules then_answer answer
put_prices i rules =
    then_answer (upsert_price_rules rules i.present) (answer prices list_price_rules)

-- handlePrices
unfoldable pub handle_prices : Outside → Inputs → ManagementRequest → Db ManagementResponse
unfolding list_price_rules answer put_prices with_body decode_price_rules to_upper
handle_prices o i req =
    if is_method (codes "GET") req.method
    then answer prices list_price_rules
    else if is_method (codes "PUT") req.method
    then with_body (decode_price_rules o req.body) (put_prices i)
    else pure not_allowed

is_local : Text → Bool
is_local host =
    text_eq host (codes "127.0.0.1")
    || (text_eq host (codes "localhost") || text_eq host (codes "::1"))

-- validatePriceSyncURL, of a URL that parses
unfoldable pub is_price_sync_url : Outside → Url → Bool
unfolding is_local
is_price_sync_url o u =
    not (is_empty (trim_space u.host))
    && (text_eq u.scheme (codes "https")
        || (text_eq u.scheme (codes "http") && is_local (to_lower (o.hostname u))))

unfoldable pub valid_source : Outside → Option Url → Bool
unfolding is_price_sync_url
valid_source o none = false
valid_source o (some u) = is_price_sync_url o u

rules_of : Outside → Option (ℕ × Text) → Option (List PriceRule)
unfolding lite_llm_price_rules
rules_of o none = none
rules_of o (some answered) =
    if leb 200 answered.0 && ltb answered.0 300
    then elim (o.decode_specs answered.1) [
      | none ↦ none
      | some specs ↦ some (lite_llm_price_rules specs)
    ]
    else none

-- syncPriceRules, of a source that is not blank; 16 MiB of the answer are read.
unfoldable pub sync_price_rules : Outside → Text → Option (List PriceRule)
unfolding valid_source rules_of
sync_price_rules o source =
    if valid_source o (o.parse_url source) then rules_of o (o.download source) else none

abbrev default_price_sync_url : Text
default_price_sync_url =
    codes
      "https://raw.githubusercontent.com/BerriAI/litellm/main/model_prices_and_context_window.json"

unfoldable pub source_of : Text → Text
source_of asked = if is_empty (trim_space asked) then default_price_sync_url else trim_space asked

unfoldable pub replace_synced : Inputs → Text → Option (List PriceRule) → Db ManagementResponse
unfolding replace_price_rules then_answer
replace_synced i source none = pure bad_request
replace_synced i source (some []) =
    pure (refused 400 (codes "price source contains no supported official model prices"))
replace_synced i source (some (r ∷ rules)) =
    then_answer (replace_price_rules (r ∷ rules) i.present)
      (pure (json_management 200 (synced source (length (r ∷ rules)))))

unfoldable pub sync_from : Outside → Inputs → Text → Db ManagementResponse
unfolding sync_price_rules source_of replace_synced
sync_from o i asked = replace_synced i (source_of asked) (sync_price_rules o (source_of asked))

-- handlePriceSync
unfoldable pub handle_price_sync : Outside → Inputs → ManagementRequest → Db ManagementResponse
unfolding sync_from with_body to_upper
handle_price_sync o i req =
    if is_method (codes "POST") req.method
    then with_body
        (if is_empty (trim_space req.body) then some [] else o.decode_source_url req.body)
        (sync_from o i)
    else pure not_allowed
