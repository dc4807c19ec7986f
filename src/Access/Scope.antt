-- ===== src/Access/Scope.antt =====
-- ResolveScope, applyTarget and AllowsCandidate of internal/access/store.go: which resources the
-- bindings of a key reach. `fuel` bounds the depth of the recursion of applyTarget through groups;
-- `stack_overflow` is the error of the model for a recursion that goes deeper.
pub mod Depth
pub mod Reads
use cpa_access_manager.Base.{
  ℕ, zero, suc, Bool, true, false, ◌&&◌, ◌||◌, not, List, [], ◌∷◌, Option, none, some, find,
  if◌then◌else◌,
}
use cpa_access_manager.Base.Text.{Text, text_eq, codes, is_empty, trim_space}
use cpa_access_manager.Access.Types.{
  Binding, GroupMember, Scope, Candidate, Error, binding_group, binding_auth_id,
  binding_provider_instance, inventory_auth_file, inventory_provider_instance,
}
use cpa_access_manager.Access.Normalize.{
  Platform, normalize_target_type, normalize_provider, provider_instance_id, first_attr, has,
}
use cpa_access_manager.Access.Bindings.{key_bindings}
use cpa_access_manager.Access.Groups.{group_members}
use cpa_access_manager.Access.Db.{Result, ok, err, Db, ◌>>=◌, pure, fail, attempt, query_row}
use cpa_access_manager.Access.Db.Schema.{Tables, InventoryRow}

-- The write `set[v] = struct{}{}`.
unfoldable pub add : Text → List Text → List Text
unfolding has
add v set = if has set v then set else v ∷ set

-- addProvider
unfoldable pub add_provider : Scope → Text → Scope
unfolding add
add_provider scope provider =
    let p = normalize_provider provider in
    if is_empty p then scope else record scope { providers = add p scope.providers }

unfoldable pub find_inventory : Text → Text → Tables → Option InventoryRow
unfolding find
find_inventory type id t = find (λ i. text_eq i.type type && text_eq i.id id) t.inventory_items

found_item : Result InventoryRow → Option InventoryRow
found_item (ok i) = some i
found_item (err e) = none

-- inventoryByType: any error, a missing row too, is "not ok".
unfoldable pub inventory_by_type : Text → Text → Db (Option InventoryRow)
unfolding found_item find_inventory
inventory_by_type type id = do
  r ←
      attempt
        (query_row Error.no_rows (find_inventory (normalize_target_type type) (trim_space id)))
  pure (found_item r)

add_auth_file : Scope → Option InventoryRow → Scope
unfolding add_provider
add_auth_file scope none = scope
add_auth_file scope (some i) = add_provider scope i.provider

add_instance : Scope → Option InventoryRow → Scope
unfolding add_provider add
add_instance scope none = scope
add_instance scope (some i) =
    add_provider
      (if is_empty i.auth_id
        then scope
        else record scope { auth_ids = add i.auth_id scope.auth_ids })
      i.provider

-- The two cases of applyTarget that do not recur, and the target types that it ignores.
unfoldable pub apply_leaf : Scope → Text → Text → Db Scope
unfolding add_auth_file add_instance inventory_by_type
apply_leaf scope type id =
    if text_eq type binding_auth_id || text_eq type inventory_auth_file
    then (do
      item ← inventory_by_type inventory_auth_file id
      pure (add_auth_file (record scope { auth_ids = add id scope.auth_ids }) item))
    else if text_eq type binding_provider_instance
    then (do
      item ← inventory_by_type inventory_provider_instance id
      pure (
          add_instance (record scope { provider_instance_ids = add id scope.provider_instance_ids })
            item))
    else pure scope

-- The loop over the members of a group; `apply` is the recursive call.
unfoldable pub apply_members :
    (Scope → Text → Text → Db Scope) → Scope → List GroupMember → Db Scope
apply_members apply scope [] = pure scope
apply_members apply scope (m ∷ members) = do
  scope' ← apply scope m.member_type m.member_id
  apply_members apply scope' members

-- applyTarget
unfoldable pub apply_target : ℕ → Scope → Text → Text → Db Scope
unfolding apply_leaf apply_members group_members
apply_target zero scope type id = fail Error.stack_overflow
apply_target (suc fuel) scope type id =
    let type' = normalize_target_type type in
    let id' = trim_space id in
    let through : Db Scope = (do
      members ← group_members id'
      apply_members (apply_target fuel) scope members) in
    if is_empty id'
    then pure scope
    else if text_eq type' binding_group
    then through
    else apply_leaf scope type' id'

-- The loop of ResolveScope.
unfoldable pub apply_bindings : ℕ → Scope → List Binding → Db Scope
unfolding apply_target
apply_bindings fuel scope [] = pure scope
apply_bindings fuel scope (b ∷ bindings) = do
  scope' ← apply_target fuel (record scope { has_bindings = true }) b.target_type b.target_id
  apply_bindings fuel scope' bindings

abbrev pub empty_scope : Scope
empty_scope = record {
  has_bindings = false;
  auth_ids = [];
  provider_instance_ids = [];
  providers = [];
}

-- ResolveScope
unfoldable pub resolve_scope_fuel : ℕ → Text → Db Scope
unfolding apply_bindings key_bindings
resolve_scope_fuel fuel key_id = do
  bindings ← key_bindings key_id
  apply_bindings fuel empty_scope bindings

-- Depth 2 is enough: no group is a member of a group.
unfoldable pub resolve_scope : Text → Db Scope
unfolding resolve_scope_fuel
resolve_scope key_id = resolve_scope_fuel 2 key_id

-- Scope.AllowsCandidate
unfoldable pub allows_candidate : Platform → Scope → Candidate → Bool
unfolding first_attr
allows_candidate p scope c =
    let auth_id = trim_space c.id in
    let auth_index = first_attr c.attributes (codes "auth_index" ∷ codes "index" ∷ []) in
    let base_url =
      first_attr c.attributes (codes "base_url" ∷ codes "url" ∷ codes "endpoint" ∷ []) in
    let instance_id =
      provider_instance_id p (normalize_provider c.provider) auth_id auth_index base_url in
    (not (is_empty auth_id) && has scope.auth_ids auth_id)
    || has scope.provider_instance_ids instance_id
