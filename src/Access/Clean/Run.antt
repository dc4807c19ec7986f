-- ===== src/Access/Clean/Run.antt =====
-- A run of the store: calls one after the other, each with the faults that befall it. Every table of
-- a run that starts empty is clean, and so ResolveScope ends there (internal/access/store.go).
use cpa_access_manager.Base.{ℕ, suc, ◌≡◌, ◌≢◌, Bool, false, List, [], ◌∷◌, Option}
use cpa_access_manager.Base.Text.{Text}
use cpa_access_manager.Access.Types.{
  Time, Binding, Limits, GroupMember, KeyPatch, GroupPatch, UsageEntry, PriceRule, Candidate,
  InventoryItem, HostAuthFileEntry, Error,
}
use cpa_access_manager.Access.Normalize.{Platform}
use cpa_access_manager.Access.Keys.{create_key_with_plain, rotate_key, update_key, delete_key}
use cpa_access_manager.Access.Groups.{create_group, update_group, delete_group}
use cpa_access_manager.Access.Prices.{upsert_price_rules, replace_price_rules}
use cpa_access_manager.Access.Auth.{authenticate}
use cpa_access_manager.Access.Inventory.{upsert_inventory_item}
use cpa_access_manager.Access.Usage.{record_usage}
use cpa_access_manager.Access.Routing.Provider.{choose_provider_routed}
use cpa_access_manager.Access.Routing.Candidate.{pick_candidate_routed}
use cpa_access_manager.Access.Scope.{resolve_scope, resolve_scope_fuel}
use cpa_access_manager.Access.Scope.Depth.{resolve_scope_ends}
use cpa_access_manager.Access.AuthFiles.{upsert_auth_files, sync_auth_files}
use cpa_access_manager.Access.Clean.{IsClean}
use cpa_access_manager.Access.Clean.Invariant.{RunInvariant}
use cpa_access_manager.Access.Clean.Rows.{IsClean-run}
use cpa_access_manager.Access.Clean.Files.{upsert_auth_files-Keeps, sync_auth_files-Keeps}
use cpa_access_manager.Access.Linked.{IsLinked}
use cpa_access_manager.Access.Linked.Rows.{IsLinked-run}
use cpa_access_manager.Access.Db.Keeps.{Keeps, OnTables}
use cpa_access_manager.Access.Clean.Operations.{
  create_key_with_plain-Keeps, rotate_key-Keeps, update_key-Keeps, delete_key-Keeps,
}
use cpa_access_manager.Access.Clean.Catalog.{
  create_group-Keeps, update_group-Keeps, delete_group-Keeps, upsert_price_rules-Keeps,
  replace_price_rules-Keeps,
}
use cpa_access_manager.Access.Clean.Traffic.{record_usage-Keeps}
use cpa_access_manager.Access.Clean.Routed.{
  authenticate-Keeps, upsert_inventory_item-Keeps, choose_provider_routed-Keeps,
  pick_candidate_routed-Keeps,
}
use cpa_access_manager.Access.Db.{err, Store, Db}
use cpa_access_manager.Access.Db.Schema.{Tables}

-- The calls that write, with what the clock and the random source give them.
pub data Call : Type 0 where
  create_key : Text → Bool → Limits → List Binding → Text → Option Text → Option Text → Time → Call
  rotate : Text → Option Text → Time → Call
  patch_key : Text → KeyPatch → Time → Call
  remove_key : Text → Call
  new_group : Text → Text → Text → List GroupMember → Option Text → Time → Call
  patch_group : Text → GroupPatch → Time → Call
  remove_group : Text → Call
  add_prices : List PriceRule → Time → Call
  replace_prices : List PriceRule → Time → Call
  log_in : Text → Text → Time → Time → Call
  choose : Text → Text → List Text → Text → Time → Time → Call
  pick : Text → Text → Text → Text → List Candidate → Time → Time → Call
  record_item : Time → InventoryItem → Call
  record_use : UsageEntry → Time → Call
  add_auth_files : Time → List HostAuthFileEntry → Call
  sync_files : Time → List HostAuthFileEntry → Call

-- The store after an operation that meets the given faults.
abbrev after_run : {A : Type 0} → Db A → List Bool → Store → Store
after_run m faults s = (m (record { store = s; faults = faults })).1.store

unfoldable pub step : Platform → Call → List Bool → Store → Store
unfolding create_key_with_plain rotate_key update_key delete_key create_group update_group
    delete_group upsert_price_rules replace_price_rules authenticate choose_provider_routed
    pick_candidate_routed upsert_inventory_item record_usage upsert_auth_files sync_auth_files
step p (create_key name enabled limits bindings plain token id present) =
    after_run (create_key_with_plain p name enabled limits bindings plain token id present)
step p (rotate id read present) = after_run (rotate_key p id read present)
step p (patch_key id patch present) = after_run (update_key id patch present)
step p (remove_key id) = after_run (delete_key id)
step p (new_group id name description members read present) =
    after_run (create_group id name description members read present)
step p (patch_group id patch present) = after_run (update_group id patch present)
step p (remove_group id) = after_run (delete_group id)
step p (add_prices rules present) = after_run (upsert_price_rules rules present)
step p (replace_prices rules present) = after_run (replace_price_rules rules present)
step p (log_in token model now present) = after_run (authenticate p token model now present)
step p (choose key_id model available hash now present) =
    after_run (choose_provider_routed key_id model available hash now present)
step p (pick key_id model provider hash candidates now present) =
    after_run (pick_candidate_routed p key_id model provider hash candidates now present)
step p (record_item present item) = after_run (upsert_inventory_item present item)
step p (record_use entry present) = after_run (record_usage p entry present)
step p (add_auth_files present entries) = after_run (upsert_auth_files present entries)
step p (sync_files present entries) = after_run (sync_auth_files p present entries)

abbrev pub empty_tables : Tables
empty_tables = record {
  keys = [];
  groups = [];
  group_members = [];
  key_bindings = [];
  inventory_items = [];
  price_rules = [];
  usage_ledger = [];
  usage_sequence = 0;
  routing_sessions = [];
}

abbrev pub empty_store : Store
empty_store = record { db = empty_tables; allow_unpriced = false; routing_cursor = λ k. 0 }

-- The calls of a run, the first call first.
unfoldable pub run : Platform → List (Call × List Bool) → Store → Store
unfolding step
run p [] s = s
run p ((c, faults) ∷ calls) s = run p calls (step p c faults s)

module _ {Q : Tables → Type 0} (inv : RunInvariant Q) where
  kept_after :
      {A : Type 0} (m : Db A) (faults : List Bool) (s : Store)
      → Keeps (OnTables Q) m
      → Q s.db
      → Q (after_run m faults s).db
  kept_after m faults s k h =
      (k.kept (record { store = s; faults = faults }) (record { holds = h })).holds

  step_keeps :
      (p : Platform) (c : Call) (faults : List Bool) (s : Store) → Q s.db → Q (step p c faults s).db
  unfolding step
  step_keeps p (create_key name enabled limits bindings plain token id present) f s h =
      kept_after _ f s
        (create_key_with_plain-Keeps inv.each p name enabled limits bindings plain token id present)
        h
  step_keeps p (rotate id read present) f s h =
      kept_after _ f s (rotate_key-Keeps inv.each p id read present) h
  step_keeps p (patch_key id patch present) f s h =
      kept_after _ f s (update_key-Keeps inv.each id patch present) h
  step_keeps p (remove_key id) f s h = kept_after _ f s (delete_key-Keeps inv.each id) h
  step_keeps p (new_group id name description members read present) f s h =
      kept_after _ f s (create_group-Keeps inv.each id name description members read present) h
  step_keeps p (patch_group id patch present) f s h =
      kept_after _ f s (update_group-Keeps inv.each id patch present) h
  step_keeps p (remove_group id) f s h = kept_after _ f s (delete_group-Keeps inv.each id) h
  step_keeps p (add_prices rules present) f s h =
      kept_after _ f s (upsert_price_rules-Keeps inv.each rules present) h
  step_keeps p (replace_prices rules present) f s h =
      kept_after _ f s (replace_price_rules-Keeps inv.each rules present) h
  step_keeps p (log_in token model now present) f s h =
      kept_after _ f s (authenticate-Keeps inv.each p token model now present) h
  step_keeps p (choose key_id model available hash now present) f s h =
      kept_after _ f s
        (choose_provider_routed-Keeps inv.each key_id model available hash now present) h
  step_keeps p (pick key_id model provider hash candidates now present) f s h =
      kept_after _ f s
        (pick_candidate_routed-Keeps inv.each p key_id model provider hash candidates now present) h
  step_keeps p (record_item present item) f s h =
      kept_after _ f s (upsert_inventory_item-Keeps inv.each present item) h
  step_keeps p (add_auth_files present entries) f s h =
      kept_after _ f s (upsert_auth_files-Keeps inv.each present entries) h
  step_keeps p (sync_files present entries) f s h =
      kept_after _ f s (sync_auth_files-Keeps inv p present entries) h
  step_keeps p (record_use entry present) f s h =
      kept_after _ f s (record_usage-Keeps inv.each p entry present) h

  pub run_keeps :
      (p : Platform) (calls : List (Call × List Bool)) (s : Store) → Q s.db → Q (run p calls s).db
  unfolding run
  run_keeps p [] s h = h
  run_keeps p ((c, faults) ∷ calls) s h =
      run_keeps p calls (step p c faults s) (step_keeps p c faults s h)

-- After any sequence of the calls listed in `Call`, on an empty store, whichever statements fail,
-- no group is a member of a group, every stored limit is positive, every binding has a normalized
-- type and a trimmed identifier, and every price rule has a normalized provider and a trimmed model.
pub run-IsClean :
    (p : Platform) (calls : List (Call × List Bool)) → IsClean (run p calls empty_store).db
run-IsClean p calls =
    run_keeps IsClean-run p calls empty_store
      (record { flat = tt; limits = tt; targets = tt; prices = tt })

-- After any sequence of the calls listed in `Call`, on an empty store, whichever statements fail,
-- ResolveScope ends for every key: it does not run out of the depth two that the model gives it,
-- and a greater depth gives the same result.
pub run-resolve_scope :
    (p : Platform) (calls : List (Call × List Bool)) (n : ℕ) (key_id : Text) (faults : List Bool)
    → ((resolve_scope key_id (record { store = run p calls empty_store; faults = faults })).0
        ≢ err Error.stack_overflow)
      × (resolve_scope_fuel
            (suc (suc n))
            key_id
            (record { store = run p calls empty_store; faults = faults })
          ≡ resolve_scope key_id (record { store = run p calls empty_store; faults = faults }))
run-resolve_scope p calls n key_id faults =
    resolve_scope_ends n key_id (record { store = run p calls empty_store; faults = faults })
      (record { leaves = (run-IsClean p calls).flat })

-- After any sequence of the calls listed in `Call`, on an empty store, whichever statements fail,
-- every binding, usage row and routing session has its key and every member its group, and no two
-- keys have the same identifier or the same hash.
pub run-IsLinked :
    (p : Platform) (calls : List (Call × List Bool)) → IsLinked (run p calls empty_store).db
run-IsLinked p calls =
    run_keeps IsLinked-run p calls empty_store
      (record { bindings = tt; usage = tt; sessions = tt; members = tt; ids = tt; hashes = tt })
