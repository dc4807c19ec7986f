-- ===== src/Plugin/Management/Keys.antt =====
-- handleKeys and handleRotateKey of internal/plugin/management.go.
use cpa_access_manager.Base.{Bool, true, [], ◌∷◌, Option, none, some, if◌then◌else◌}
use cpa_access_manager.Base.Text.{Text, codes, is_empty}
use cpa_access_manager.Access.Types.{Limits, KeyPatch}
use cpa_access_manager.Access.Normalize.{Platform}
use cpa_access_manager.Access.Keys.{
  list_keys, create_key_with_plain, update_key, delete_key, rotate_key,
}
use cpa_access_manager.Access.Db.{Db, pure}
use cpa_access_manager.Plugin.Types.{ManagementRequest}
use cpa_access_manager.Plugin.Values.{first_non_empty}
use cpa_access_manager.Plugin.Management.Types.{
  keys, key, key_and_plain, deleted, ManagementResponse, KeyRequest, Outside, not_allowed, no_id,
}
use cpa_access_manager.Plugin.Management.Responses.{
  Inputs, is_method, query_get, answer, answer_coded, decode_json, with_body, has_any_json_field,
  to_upper,
}

-- bodyLimits
unfoldable pub body_limits : KeyRequest → Limits
body_limits body = elim body.limits [
  | some l ↦ l
  | none ↦ record {
    five_hour_usd = body.five_hour_limit_usd;
    weekly_usd = body.weekly_limit_usd;
    total_usd = body.total_limit_usd;
  }
]

is_enabled : Option Bool → Bool
is_enabled none = true
is_enabled (some b) = b

-- POST
unfoldable pub post_key : Platform → Inputs → KeyRequest → Db ManagementResponse
unfolding create_key_with_plain body_limits is_enabled answer_coded
post_key p i body =
    answer_coded 201 (λ r. key_and_plain r.0 r.1)
      (create_key_with_plain p body.name (is_enabled body.enabled) (body_limits body) body.bindings
        body.api_key i.token_read i.id_read i.present)

-- The patch of a PATCH: only the fields that the body has, and a name that is not empty.
unfoldable pub key_patch : Outside → Text → KeyRequest → KeyPatch
unfolding has_any_json_field body_limits
key_patch o raw body = record {
  name = if is_empty body.name then none else some body.name;
  enabled = body.enabled;
  limits =
      if has_any_json_field o raw (
        codes "limits"
        ∷ codes "five_hour_limit_usd"
        ∷ codes "weekly_limit_usd"
        ∷ codes "total_limit_usd"
        ∷ [])
      then some (body_limits body)
      else none;
  bindings = if has_any_json_field o raw (codes "bindings" ∷ []) then some body.bindings else none;
}

-- PATCH
unfoldable pub patch_key : Outside → Inputs → ManagementRequest → KeyRequest → Db ManagementResponse
unfolding update_key key_patch answer first_non_empty query_get
patch_key o i req body =
    let id = first_non_empty (query_get (codes "id") req.query ∷ body.id ∷ []) in
    if is_empty id
    then pure no_id
    else answer key (update_key id (key_patch o req.body body) i.present)

-- DELETE
unfoldable pub delete_key_request : Outside → ManagementRequest → Db ManagementResponse
unfolding delete_key answer query_get
delete_key_request o req =
    let asked = query_get (codes "id") req.query in
    let id =
      if is_empty asked
      then (if is_empty req.body then asked else o.key_id_left req.body)
      else asked in
    if is_empty id then pure no_id else answer (λ u. deleted id) (delete_key id)

-- handleKeys
unfoldable pub handle_keys : Platform → Outside → Inputs → ManagementRequest → Db ManagementResponse
unfolding list_keys answer post_key patch_key delete_key_request with_body decode_json to_upper
handle_keys p o i req =
    if is_method (codes "GET") req.method
    then answer keys (list_keys i.present)
    else if is_method (codes "POST") req.method
    then with_body (decode_json o.decode_key req.body) (post_key p i)
    else if is_method (codes "PATCH") req.method
    then with_body (decode_json o.decode_key req.body) (patch_key o i req)
    else if is_method (codes "DELETE") req.method
    then delete_key_request o req
    else pure not_allowed

-- handleRotateKey
unfoldable pub handle_rotate_key :
    Platform → Outside → Inputs → ManagementRequest → Db ManagementResponse
unfolding rotate_key answer_coded first_non_empty query_get to_upper
handle_rotate_key p o i req =
    let id = first_non_empty (query_get (codes "id") req.query ∷ o.key_id_left req.body ∷ []) in
    if is_method (codes "POST") req.method
    then (if is_empty id
        then pure no_id
        else answer_coded 200 (λ r. key_and_plain r.0 r.1) (rotate_key p id i.token_read i.present))
    else pure not_allowed
