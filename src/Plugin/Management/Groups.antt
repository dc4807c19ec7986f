-- ===== src/Plugin/Management/Groups.antt =====
-- handleGroups of internal/plugin/management.go.
use cpa_access_manager.Base.{[], ◌∷◌, none, some, if◌then◌else◌}
use cpa_access_manager.Base.Text.{Text, codes, is_empty}
use cpa_access_manager.Access.Types.{GroupPatch}
use cpa_access_manager.Access.Groups.{list_groups, create_group, update_group, delete_group}
use cpa_access_manager.Access.Db.{Db, pure}
use cpa_access_manager.Plugin.Types.{ManagementRequest}
use cpa_access_manager.Plugin.Values.{first_non_empty}
use cpa_access_manager.Plugin.Management.Types.{
  groups, group, deleted, ManagementResponse, GroupRequest, Outside, not_allowed, no_id,
}
use cpa_access_manager.Plugin.Management.Responses.{
  Inputs, is_method, query_get, answer, decode_json, with_body, has_any_json_field, to_upper,
}

unfoldable pub post_group : Inputs → GroupRequest → Db ManagementResponse
unfolding create_group answer
post_group i body =
    answer group (create_group body.id body.name body.description body.members i.id_read i.present)

-- The patch of a PATCH: only the fields that the body has.
unfoldable pub group_patch : Outside → Text → GroupRequest → GroupPatch
unfolding has_any_json_field
group_patch o raw body = record {
  name = if has_any_json_field o raw (codes "name" ∷ []) then some body.name else none;
  description =
      if has_any_json_field o raw (codes "description" ∷ []) then some body.description else none;
  members = if has_any_json_field o raw (codes "members" ∷ []) then some body.members else none;
}

unfoldable pub patch_group :
    Outside → Inputs → ManagementRequest → GroupRequest → Db ManagementResponse
unfolding update_group group_patch answer first_non_empty query_get
patch_group o i req body =
    let id = first_non_empty (query_get (codes "id") req.query ∷ body.id ∷ []) in
    if is_empty id
    then pure no_id
    else answer group (update_group id (group_patch o req.body body) i.present)

unfoldable pub delete_group_request : Outside → ManagementRequest → Db ManagementResponse
unfolding delete_group answer query_get
delete_group_request o req =
    let asked = query_get (codes "id") req.query in
    let id =
      if is_empty asked
      then (if is_empty req.body then asked else o.group_id_left req.body)
      else asked in
    if is_empty id then pure no_id else answer (λ u. deleted id) (delete_group id)

-- handleGroups
unfoldable pub handle_groups : Outside → Inputs → ManagementRequest → Db ManagementResponse
unfolding list_groups answer post_group patch_group delete_group_request with_body decode_json
    to_upper
handle_groups o i req =
    if is_method (codes "GET") req.method
    then answer groups list_groups
    else if is_method (codes "POST") req.method
    then with_body (decode_json o.decode_group req.body) (post_group i)
    else if is_method (codes "PATCH") req.method
    then with_body (decode_json o.decode_group req.body) (patch_group o i req)
    else if is_method (codes "DELETE") req.method
    then delete_group_request o req
    else pure not_allowed
