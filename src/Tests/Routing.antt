-- ===== src/Tests/Routing.antt =====
-- The routing of internal/access/routing.go on a small store.
use cpa_access_manager.Base.{ℕ, ◌≡◌, refl, ◌<◌, true, List, [], ◌∷◌, In, arith}
use cpa_access_manager.Base.Int.{pos}
use cpa_access_manager.Base.Text.{
  Text, codes, text_ltb, trim_space, text_discrete, replace_all, to_lower,
}
use cpa_access_manager.Access.Types.{Key, Candidate, Scope}
use cpa_access_manager.Access.Time.{stamp}
use cpa_access_manager.Access.Normalize.{
  has, hash_token, provider_instance_id, normalize_provider, normalize_target_type,
}
use cpa_access_manager.Access.Quota.{usage_sums, sum_all}
use cpa_access_manager.Access.Keys.{scan_key}
use cpa_access_manager.Access.Limits.{limit_reached, float_ptr}
use cpa_access_manager.Access.Scope.{resolve_scope, allows_candidate}
use cpa_access_manager.Access.Inventory.{upsert_provider_candidates}
use cpa_access_manager.Access.Routing.Cursor.{next_routing_value, contains_string}
use cpa_access_manager.Access.Routing.Fairness.{
  after_calls, next_routing_value_fair, contains_string-In,
}
use cpa_access_manager.Access.Routing.Candidate.{pick_candidate_routed}
use cpa_access_manager.Access.Routing.Candidate.Choice.{IsPick, pick_candidate_routed_safe}
use cpa_access_manager.Access.Db.{
  Result, ok, State, ◌>>=◌, query_row, or_zero, query, attempt, pure, gets, exec,
}
use cpa_access_manager.Access.Types.{inventory_auth_file}
use cpa_access_manager.Access.Keys.{get_key}
use cpa_access_manager.Access.Routing.Provider.{choose_provider_routed}
use cpa_access_manager.Access.Routing.Provider.Choice.{
  IsScope, IsChoice, choose_provider_routed_safe,
}
use cpa_access_manager.Access.Quota.{usage_sums}
use cpa_access_manager.Access.Normalize.{string_set}
use cpa_access_manager.Tests.Fixtures.{noon, plat, state, tables}

abbrev candidate : Candidate
candidate = record {
  id = codes "a1";
  provider = codes "openai";
  priority = pos 2;
  status = [];
  attributes = [];
}

abbrev rival : Candidate
rival = record {
  id = codes "a2";
  provider = codes "openai";
  priority = pos 9;
  status = [];
  attributes = [];
}

abbrev pick : Result Candidate × State
pick =
    pick_candidate_routed plat (codes "k1") (codes "m") [] [] (rival ∷ candidate ∷ []) noon noon
      state

pick_candidate_routed_safe_example :
    (scope : Scope) × ((resolve_scope (codes "k1") state).0 ≡ ok scope)
    × IsPick plat scope [] (rival ∷ candidate ∷ []) candidate
unfolding pick_candidate_routed ◌>>=◌ trim_space query_row text_discrete hash_token or_zero query
    attempt pure scan_key limit_reached float_ptr sum_all normalize_target_type replace_all to_lower
    gets normalize_provider has exec upsert_provider_candidates provider_instance_id
    allows_candidate
pick_candidate_routed_safe_example =
    pick_candidate_routed_safe plat (codes "k1") (codes "m") [] [] (rival ∷ candidate ∷ []) noon
      noon state pick.1 candidate refl

abbrev values : List Text
values = codes "a" ∷ codes "b" ∷ []

next_routing_value_fair_example :
    (k : ℕ) × (k < 2)
    × ((next_routing_value (codes "c") values (after_calls k (codes "c") values state)).0
        ≡ ok (codes "b"))
next_routing_value_fair_example =
    next_routing_value_fair (codes "c") values state 1 (omega arith) (omega arith)

contains_string-In_example :
    (In (codes "b") values → contains_string values (codes "b") ≡ true)
    × (contains_string values (codes "b") ≡ true → In (codes "b") values)
unfolding text_ltb
contains_string-In_example = contains_string-In values (codes "b") ((refl, tt), (tt, tt))

-- The provider is bound through the auth file of the inventory.
abbrev pub bound_state : State
bound_state = record state {
  store = record state.store {
    db = record tables {
      inventory_items =
          record {
            id = codes "a1";
            type = inventory_auth_file;
            provider = codes "openai";
            auth_id = codes "a1";
            auth_index = [];
            name = [];
            label = [];
            email = [];
            base_url = [];
            snapshot_json = [];
            updated_at = stamp noon;
          }
          ∷ [];
    };
  };
}

abbrev offered : List Text
offered = codes "gemini" ∷ codes "openai" ∷ []

choose_provider_routed_safe_example :
    (key : Key) × (scope : Scope) × ((get_key (codes "k1") noon bound_state).0 ≡ ok key)
    × (IsScope (codes "k1") bound_state.store scope
        × IsChoice scope key (codes "m") offered bound_state.store (codes "openai"))
unfolding choose_provider_routed ◌>>=◌ trim_space query_row text_discrete or_zero query attempt pure
    scan_key float_ptr sum_all normalize_target_type replace_all to_lower gets exec
    normalize_provider has usage_sums string_set
choose_provider_routed_safe_example =
    choose_provider_routed_safe (codes "k1") (codes "m") offered [] noon noon bound_state
      (choose_provider_routed (codes "k1") (codes "m") offered [] noon noon bound_state).1
      (codes "openai") refl
