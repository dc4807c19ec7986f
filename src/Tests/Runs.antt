-- ===== src/Tests/Runs.antt =====
-- Sequences of calls, and transactions, of internal/access/store.go on a small store.
use cpa_access_manager.Base.{◌≡◌, ◌≢◌, Bool, true, false, List, [], ◌∷◌, none, some}
use cpa_access_manager.Base.Text.{codes}
use cpa_access_manager.Access.Types.{Error, HostAuthFileEntry, inventory_auth_file}
use cpa_access_manager.Base.Int.{pos}
use cpa_access_manager.Base.{[], refl}
use cpa_access_manager.Base.Text.{trim_space, replace_all, to_lower, text_discrete}
use cpa_access_manager.Access.Normalize.{normalize_target_type, normalize_provider}
use cpa_access_manager.Access.Db.{◌>>=◌, query, exec, pure, transaction}
use cpa_access_manager.Access.AuthFiles.{sync_auth_files}
use cpa_access_manager.Access.AuthFiles.Sync.{IsSynced, sync_auth_files-IsSynced}
use cpa_access_manager.Access.Time.{stamp}
use cpa_access_manager.Access.Prices.{replace_price_rules, upsert_price_rules}
use cpa_access_manager.Access.Prices.Atomic.{
  AllOrNothing, replace_price_rules_atomic, upsert_price_rules_atomic,
}
use cpa_access_manager.Access.Prices.Written.{IsPriced}
use cpa_access_manager.Access.Scope.{resolve_scope, resolve_scope_fuel}
use cpa_access_manager.Access.Clean.{IsClean}
use cpa_access_manager.Access.Linked.{IsLinked}
use cpa_access_manager.Access.Clean.Run.{
  Call, create_key, new_group, remove_key, run, empty_store, run-IsClean, run-IsLinked,
  run-resolve_scope,
}
use cpa_access_manager.Access.Db.{err, State}
use cpa_access_manager.Tests.Fixtures.{binding, no_limits, noon, plat, rules, state, tables}

abbrev calls : List (Call × List Bool)
calls =
    (
      create_key (codes "team") true no_limits (binding ∷ []) (codes "tok") none (some (1 ∷ 2 ∷ []))
          noon,
      [],
    )
    ∷ (
      new_group (codes "g") (codes "all") []
          (record { group_id = []; member_type = codes "group"; member_id = codes "g" } ∷ []) none
          noon,
      false ∷ true ∷ [],
    )
    ∷ (remove_key (codes "k1"), true ∷ [])
    ∷ []

run-IsClean_example : IsClean (run plat calls empty_store).db
run-IsClean_example = run-IsClean plat calls

run-resolve_scope_example :
    ((resolve_scope (codes "k1") (record { store = run plat calls empty_store; faults = [] })).0
      ≢ err Error.stack_overflow)
    × (resolve_scope_fuel 7
          (codes "k1")
          (record { store = run plat calls empty_store; faults = [] })
        ≡ resolve_scope (codes "k1") (record { store = run plat calls empty_store; faults = [] }))
run-resolve_scope_example = run-resolve_scope plat calls 5 (codes "k1") []

-- The statement after BEGIN fails.
abbrev failing : State
failing = record state { faults = false ∷ true ∷ [] }

replace_price_rules_atomic_example :
    AllOrNothing
      (replace_price_rules rules noon failing)
      tables
      (IsPriced rules (stamp noon) (record tables { price_rules = [] }))
replace_price_rules_atomic_example = replace_price_rules_atomic rules noon failing

upsert_price_rules_atomic_example :
    AllOrNothing (upsert_price_rules rules noon state) tables (IsPriced rules (stamp noon) tables)
upsert_price_rules_atomic_example = upsert_price_rules_atomic rules noon state

run-IsLinked_example : IsLinked (run plat calls empty_store).db
run-IsLinked_example = run-IsLinked plat calls

abbrev auth_file : HostAuthFileEntry
auth_file = record {
  id = codes " a1";
  auth_index = codes "0";
  name = codes "a1.json";
  type = codes "gemini";
  provider = [];
  label = [];
  status = [];
  status_message = [];
  disabled = false;
  unavailable = false;
  runtime_only = false;
  source = [];
  path = [];
  size = pos 0;
  mod_time = noon;
  updated_at = noon;
  created_at = noon;
  last_refresh = noon;
  next_retry_after = noon;
  email = [];
  project_id = [];
  account_type = [];
  account = [];
  priority = pos 0;
  note = [];
  websockets = false;
}

-- The file a9 is no longer there.
abbrev before_sync : State
before_sync = record state {
  store = record state.store {
    db = record tables {
      inventory_items =
          record {
            id = codes "a9";
            type = inventory_auth_file;
            provider = codes "openai";
            auth_id = codes "a9";
            auth_index = [];
            name = [];
            label = [];
            email = [];
            base_url = [];
            snapshot_json = [];
            updated_at = stamp noon;
          }
          ∷ [];
    };
  };
}

abbrev synced : State
synced = (sync_auth_files plat noon (auth_file ∷ []) before_sync).1

sync_auth_files-IsSynced_example : IsSynced (auth_file ∷ []) synced.store.db
unfolding sync_auth_files ◌>>=◌ query trim_space normalize_target_type replace_all to_lower exec
    pure transaction normalize_provider text_discrete
sync_auth_files-IsSynced_example =
    sync_auth_files-IsSynced plat noon (auth_file ∷ []) before_sync synced refl
