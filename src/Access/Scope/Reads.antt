-- ===== src/Access/Scope/Reads.antt =====
-- ResolveScope (internal/access/store.go) changes no table.
use cpa_access_manager.Base.{ℕ, List, [], ◌∷◌}
use cpa_access_manager.Base.Text.{Text}
use cpa_access_manager.Access.Types.{Binding, Scope}
use cpa_access_manager.Access.Scope.{apply_bindings, resolve_scope, resolve_scope_fuel, empty_scope}
use cpa_access_manager.Access.Scope.Depth.{apply_target-ReadsOnly, key_bindings-ReadsOnly}
use cpa_access_manager.Access.Db.Reads.{ReadsOnly, ReadsOnly-bind, reads_rules}

apply_bindings-ReadsOnly :
    (fuel : ℕ) (scope : Scope) (bs : List Binding) → ReadsOnly (apply_bindings fuel scope bs)
unfolding apply_bindings
apply_bindings-ReadsOnly fuel scope [] = search reads_rules
apply_bindings-ReadsOnly fuel scope (b ∷ bs) =
    ReadsOnly-bind _ _ (apply_target-ReadsOnly fuel _ b.target_type b.target_id)
      (λ s. apply_bindings-ReadsOnly fuel s bs)

pub resolve_scope-ReadsOnly : (key_id : Text) → ReadsOnly (resolve_scope key_id)
unfolding resolve_scope resolve_scope_fuel
resolve_scope-ReadsOnly key_id =
    ReadsOnly-bind _ _ (key_bindings-ReadsOnly key_id) (apply_bindings-ReadsOnly 2 empty_scope)
