-- ===== src/Access/Bindings.antt =====
-- key_bindings: KeyBindings and replaceBindings of internal/access/store.go.
use cpa_access_manager.Base.{
  Bool, true, false, ◌&&◌, ◌||◌, not, List, [], ◌∷◌, filter, any, if◌then◌else◌,
}
use cpa_access_manager.Base.Text.{Text, text_eq, text_ltb, is_empty, trim_space}
use cpa_access_manager.Base.Sort.{sort_by}
use cpa_access_manager.Access.Types.{Binding, Error}
use cpa_access_manager.Access.Normalize.{normalize_target_type}
use cpa_access_manager.Access.Db.{Result, ok, err, Db, ◌>>◌, pure, query, exec, statement}
use cpa_access_manager.Access.Db.Schema.{Tables}

-- ORDER BY target_type, target_id
unfoldable pub binding_le : Binding → Binding → Bool
binding_le a b =
    if text_ltb a.target_type b.target_type
    then true
    else if text_ltb b.target_type a.target_type
    then false
    else not (text_ltb b.target_id a.target_id)

-- KeyBindings
unfoldable pub key_bindings : Text → Db (List Binding)
unfolding binding_le sort_by filter
key_bindings key_id =
    query (λ t. sort_by binding_le (filter (λ b. text_eq b.key_id key_id) t.key_bindings))

unfoldable pub same_binding : Binding → Binding → Bool
same_binding a b =
    text_eq a.key_id b.key_id
    && (text_eq a.target_type b.target_type && text_eq a.target_id b.target_id)

unfoldable pub key_exists : Text → Tables → Bool
unfolding any
key_exists key_id t = any (λ k. text_eq k.id key_id) t.keys

-- INSERT OR IGNORE: a row that is there is left alone, a key that is not there is refused.
unfoldable pub insert_binding : Binding → Tables → Result (Unit {0}) × Tables
unfolding same_binding key_exists
insert_binding b t =
    if any (same_binding b) t.key_bindings
    then (ok tt, t)
    else if key_exists b.key_id t
    then (ok tt, record t { key_bindings = b ∷ t.key_bindings })
    else (err Error.constraint_failed, t)

unfoldable pub delete_bindings : Text → Tables → Tables
unfolding filter
delete_bindings key_id t = record t {
  key_bindings = filter (λ b. not (text_eq b.key_id key_id)) t.key_bindings;
}

-- The loop of replaceBindings.
unfoldable pub insert_bindings : Text → List Binding → Db (Unit {0})
unfolding insert_binding
insert_bindings key_id [] = pure tt
insert_bindings key_id (b ∷ bindings) =
    let target_type = normalize_target_type b.target_type in
    let target_id = trim_space b.target_id in
    let row : Binding = record {
      key_id = key_id;
      target_type = target_type;
      target_id = target_id;
    } in
    let rest = insert_bindings key_id bindings in
    if is_empty target_type || is_empty target_id
    then rest
    else (do statement (insert_binding row); rest)

-- replaceBindings
unfoldable pub replace_bindings : Text → List Binding → Db (Unit {0})
unfolding delete_bindings insert_bindings
replace_bindings key_id bindings = do exec (delete_bindings key_id); insert_bindings key_id bindings
