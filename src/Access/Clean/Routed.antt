-- ===== src/Access/Clean/Routed.antt =====
-- The two routing calls, the inventory that they write, and Authenticate keep what their
-- statements keep
-- (internal/access/store.go, routing.go).
use cpa_access_manager.Base.{refl, ◌||◌, not, List, [], ◌∷◌, Option, none, some, filter}
use cpa_access_manager.Base.Sort.{sort_by}
use cpa_access_manager.Base.Int.{ℤ}
use cpa_access_manager.Base.Text.{Text, is_empty, trim_space}
use cpa_access_manager.Access.Types.{Time, Scope, Error, Candidate, InventoryItem}
use cpa_access_manager.Access.Normalize.{Platform, normalize_provider}
use cpa_access_manager.Access.Auth.{authenticate}
use cpa_access_manager.Access.Inventory.{
  upsert_inventory_item, inventory_row, upsert_inventory_row, upsert_found,
  upsert_provider_candidates,
}
use cpa_access_manager.Access.Routing.Cursor.{next_routing_value}
use cpa_access_manager.Access.Routing.Session.{
  RoutingSession, load_routing_session, save_routing_session, session_row, upsert_session,
  drop_expired, delete_expired_routing_sessions,
}
use cpa_access_manager.Access.Routing.Provider.{
  is_nil, choose_provider_routed, choose_in_scope, choose_allowed, route_allowed, route_provider,
}
use cpa_access_manager.Access.Routing.Candidate.{
  Request, is_match, candidate_le, next_candidate, route_candidate, route_top, pick_sorted,
  pick_in_scope, pick_candidate_routed,
}
use cpa_access_manager.Access.Scope.{inventory_by_type}
use cpa_access_manager.Access.Scope.Depth.{inventory_by_type-ReadsOnly}
use cpa_access_manager.Access.Scope.Reads.{resolve_scope-ReadsOnly}
use cpa_access_manager.Access.Clean.Reads.{
  check_quota-ReadsOnly, key_by_presented_token-ReadsOnly, validate_bindings_and_pricing-ReadsOnly,
  refuse_disabled-ReadsOnly, allowed_providers-ReadsOnly,
}
use cpa_access_manager.Access.Clean.Operations.{update_key_row-Keeps, get_key-Keeps}
use cpa_access_manager.Access.Db.Keeps.{
  Keeps, OnTables, keeps_rules, Keeps-pure, Keeps-if, Keeps-bind, Keeps-statement, Keeps-exec,
  Keeps-fail, Keeps-transaction, Keeps-or_zero, Keeps-query, Keeps-gets,
}
use cpa_access_manager.Access.Db.Reads.{Keeps-of_ReadsOnly}
use cpa_access_manager.Access.Db.Schema.{InventoryRow}
use cpa_access_manager.Access.Clean.Invariant.{Invariant}
use cpa_access_manager.Access.Db.Schema.{Tables}

module _ {Q : Tables → Type 0} (inv : Invariant Q) where
  pub authenticate-Keeps :
      (p : Platform) (token model : Text) (now present : Time)
      → Keeps (OnTables Q) (authenticate p token model now present)
  unfolding authenticate
  authenticate-Keeps p token model now present =
      Keeps-bind _ _ (Keeps-of_ReadsOnly _ (key_by_presented_token-ReadsOnly p token present))
        (λ key. Keeps-bind _ _ (Keeps-of_ReadsOnly _ (refuse_disabled-ReadsOnly key)) (λ u.
          Keeps-bind _ _ (Keeps-of_ReadsOnly _ (check_quota-ReadsOnly key now present)) (λ v.
            Keeps-bind _ _
              (Keeps-of_ReadsOnly _ (validate_bindings_and_pricing-ReadsOnly key model))
              (λ w.
                Keeps-bind _ _
                  (Keeps-or_zero tt _ (
                    (update_key_row-Keeps inv) key.id _ (record {
                      same_id = λ k. refl;
                      same_hash = λ k. refl;
                      stored = λ k h. record {
                        five_hour = h.five_hour;
                        weekly = h.weekly;
                        total = h.total;
                      };
                    })))
                  (λ x. Keeps-pure key)))))

  pub upsert_inventory_item-Keeps :
      (present : Time) (item : InventoryItem)
      → Keeps (OnTables Q) (upsert_inventory_item present item)
  unfolding upsert_inventory_item
  upsert_inventory_item-Keeps present item =
      Keeps-if
        (is_empty (inventory_row present item).type || is_empty (inventory_row present item).id) _ _
        (Keeps-pure tt)
        (Keeps-exec (upsert_inventory_row (inventory_row present item))
          (λ t h. inv.upsert_inventory_row t h (inventory_row present item)))

  pub inventory_by_type-Keeps : (type id : Text) → Keeps (OnTables Q) (inventory_by_type type id)
  inventory_by_type-Keeps type id = Keeps-of_ReadsOnly _ (inventory_by_type-ReadsOnly type id)

  upsert_found-Keeps :
      (p : Platform) (present : Time) (c : Candidate) (provider auth_id : Text)
      (row : Option InventoryRow)
      → Keeps (OnTables Q) (upsert_found p present c provider auth_id row)
  unfolding upsert_found
  upsert_found-Keeps p present c provider auth_id (some row) = upsert_inventory_item-Keeps present _
  upsert_found-Keeps p present c provider auth_id none =
      Keeps-bind _ _ (inventory_by_type-Keeps _ _) (λ old. upsert_inventory_item-Keeps present _)

  upsert_provider_candidates-Keeps :
      (p : Platform) (present : Time) (cs : List Candidate)
      → Keeps (OnTables Q) (upsert_provider_candidates p present cs)
  unfolding upsert_provider_candidates
  upsert_provider_candidates-Keeps p present [] = Keeps-pure tt
  upsert_provider_candidates-Keeps p present (c ∷ cs) =
      Keeps-if (is_empty (normalize_provider c.provider) || is_empty (trim_space c.id)) _ _
        (upsert_provider_candidates-Keeps p present cs)
        (Keeps-bind _ _ (Keeps-query _) (λ row.
          Keeps-bind _ _ (upsert_found-Keeps p present c _ _ row)
            (λ u. upsert_provider_candidates-Keeps p present cs)))

  pub next_routing_value-Keeps :
      (key : Text) (values : List Text) → Keeps (OnTables Q) (next_routing_value key values)
  unfolding next_routing_value
  next_routing_value-Keeps key values = record { kept = λ s h. record { holds = h.holds } }

  save_routing_session-Keeps :
      (key_id hash provider auth_id : Text) (now : Time)
      → Keeps (OnTables Q) (save_routing_session key_id hash provider auth_id now)
  unfolding save_routing_session
  save_routing_session-Keeps key_id hash provider auth_id now =
      Keeps-statement (upsert_session (session_row key_id hash provider auth_id now))
        (λ t h. inv.upsert_session t h (session_row key_id hash provider auth_id now))

  delete_expired-Keeps : (now : Time) → Keeps (OnTables Q) (delete_expired_routing_sessions now)
  unfolding delete_expired_routing_sessions
  delete_expired-Keeps now = Keeps-exec (drop_expired _) (λ t h. inv.drop_expired t h _)

  load_routing_session-Keeps :
      (key_id hash : Text) → Keeps (OnTables Q) (load_routing_session key_id hash)
  unfolding load_routing_session
  load_routing_session-Keeps key_id hash = Keeps-query _

  route_provider-Keeps :
      (key_id hash cursor : Text) (allowed : List Text) (now : Time) (o : Option RoutingSession)
      → Keeps (OnTables Q) (route_provider key_id hash cursor allowed now o)
  unfolding route_provider
  route_provider-Keeps key_id hash cursor allowed now (some mapped) =
      search (keeps_rules, save_routing_session-Keeps)
  route_provider-Keeps key_id hash cursor allowed now none =
      search
        (keeps_rules, next_routing_value-Keeps, save_routing_session-Keeps, delete_expired-Keeps)
        depth 9

  route_allowed-Keeps :
      (key_id model hash : Text) (allowed : List Text) (now : Time)
      → Keeps (OnTables Q) (route_allowed key_id model hash allowed now)
  unfolding route_allowed
  route_allowed-Keeps key_id model hash allowed now =
      Keeps-if (is_empty hash) _ _ (next_routing_value-Keeps _ allowed) (
        Keeps-transaction _ (
          Keeps-bind _ _ (load_routing_session-Keeps key_id hash)
            (λ o. route_provider-Keeps key_id hash _ allowed now _)))

  choose_allowed-Keeps :
      (key_id model hash : Text) (now : Time) (allowed : List Text)
      → Keeps (OnTables Q) (choose_allowed key_id model hash now allowed)
  unfolding choose_allowed
  choose_allowed-Keeps key_id model hash now allowed =
      Keeps-if (is_nil allowed) _ _ (Keeps-fail _) (route_allowed-Keeps key_id _ _ _ _)

  pub choose_provider_routed-Keeps :
      (key_id model : Text) (available : List Text) (hash : Text) (now present : Time)
      → Keeps (OnTables Q) (choose_provider_routed key_id model available hash now present)
  unfolding choose_provider_routed choose_in_scope
  choose_provider_routed-Keeps key_id model available hash now present =
      Keeps-bind _ _ ((get_key-Keeps inv) key_id present) (λ key.
        Keeps-bind _ _ (Keeps-of_ReadsOnly _ (resolve_scope-ReadsOnly key_id)) (λ scope.
          Keeps-if (not scope.has_bindings) _ _ (Keeps-fail _) (
            Keeps-bind _ _ (Keeps-gets _) (λ b.
              Keeps-bind _ _
                (Keeps-of_ReadsOnly _ (allowed_providers-ReadsOnly key model b _ scope.providers))
                (λ allowed. choose_allowed-Keeps key_id model hash _ _)))))

  next_candidate-Keeps :
      (key_id model provider : Text) (priority : ℤ) (cs : List Candidate)
      → Keeps (OnTables Q) (next_candidate key_id model provider priority cs)
  unfolding next_candidate
  next_candidate-Keeps key_id model provider priority cs =
      search (keeps_rules, next_routing_value-Keeps)

  route_candidate-Keeps :
      (r : Request) (priority : ℤ) (top : List Candidate) (o : Option Candidate)
      → Keeps (OnTables Q) (route_candidate r priority top o)
  unfolding route_candidate
  route_candidate-Keeps r priority top (some c) = search (keeps_rules, save_routing_session-Keeps)
  route_candidate-Keeps r priority top none =
      search (keeps_rules, next_candidate-Keeps, save_routing_session-Keeps, delete_expired-Keeps)
        depth 9

  route_top-Keeps :
      (r : Request) (priority : ℤ) (top : List Candidate)
      → Keeps (OnTables Q) (route_top r priority top)
  unfolding route_top
  route_top-Keeps r priority top =
      Keeps-if (is_empty r.session_hash) _ _ (next_candidate-Keeps _ _ _ _ _) (
        Keeps-transaction _ (
          Keeps-bind _ _ (load_routing_session-Keeps r.key_id r.session_hash)
            (λ o. route_candidate-Keeps r priority top _)))

  pick_sorted-Keeps : (r : Request) (cs : List Candidate) → Keeps (OnTables Q) (pick_sorted r cs)
  unfolding pick_sorted
  pick_sorted-Keeps r [] = Keeps-fail Error.no_allowed_target
  pick_sorted-Keeps r (c ∷ cs) = route_top-Keeps r c.priority _

  pick_in_scope-Keeps :
      (p : Platform) (scope : Scope) (r : Request) (cs : List Candidate) (present : Time)
      → Keeps (OnTables Q) (pick_in_scope p scope r cs present)
  unfolding pick_in_scope
  pick_in_scope-Keeps p scope r cs present = Keeps-if (not scope.has_bindings) _ _ (Keeps-fail _) (
      Keeps-bind _ _ (Keeps-or_zero tt _ (upsert_provider_candidates-Keeps p present cs))
        (λ u. pick_sorted-Keeps r (sort_by candidate_le (filter (is_match p scope r.provider) cs))))

  pub pick_candidate_routed-Keeps :
      (p : Platform) (key_id model provider hash : Text) (cs : List Candidate) (now present : Time)
      → Keeps (OnTables Q) (pick_candidate_routed p key_id model provider hash cs now present)
  unfolding pick_candidate_routed
  pick_candidate_routed-Keeps p key_id model provider hash cs now present =
      Keeps-bind _ _ (Keeps-of_ReadsOnly _ (resolve_scope-ReadsOnly key_id))
        (λ scope. pick_in_scope-Keeps p scope _ cs present)
