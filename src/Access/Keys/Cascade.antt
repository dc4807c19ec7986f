-- ===== src/Access/Keys/Cascade.antt =====
-- DeleteKey of internal/access/store.go and the foreign keys ON DELETE CASCADE.
use cpa_access_manager.Base.{
  ◌≡◌, refl, sym, ap, ◌∙◌, subst, true, not, All, In, filter-passes, filter-In, arith,
}
use cpa_access_manager.Base.Text.{Text, text_eq, trim_space}
use cpa_access_manager.Access.Keys.{delete_key, delete_key_statement, delete_key_rows}
use cpa_access_manager.Access.Db.{ok, State}
use cpa_access_manager.Access.Db.Success.{statement_ok}
use cpa_access_manager.Access.Db.Schema.{Tables, KeyRow, UsageRow}

-- No row belongs to the key, and the rows of other keys are still there.
pub record IsGone (id : Text) (t t' : Tables) : Type 0 where
  pub keys : All (λ k. not (text_eq k.id id) ≡ true) t'.keys
  pub bindings : All (λ b. not (text_eq b.key_id id) ≡ true) t'.key_bindings
  pub usage : All (λ r. not (text_eq r.key_id id) ≡ true) t'.usage_ledger
  pub sessions : All (λ r. not (text_eq r.key_id id) ≡ true) t'.routing_sessions
  pub other_keys : (k : KeyRow) → In k t.keys → not (text_eq k.id id) ≡ true → In k t'.keys
  pub other_usage :
      (r : UsageRow) → In r t.usage_ledger → not (text_eq r.key_id id) ≡ true → In r t'.usage_ledger
  pub groups_same : (t'.groups ≡ t.groups) × (t'.group_members ≡ t.group_members)
  pub prices_same : (t'.price_rules ≡ t.price_rules) × (t'.inventory_items ≡ t.inventory_items)

delete_key_rows-IsGone : (id : Text) (t : Tables) → IsGone id t (delete_key_rows id t)
unfolding delete_key_rows
delete_key_rows-IsGone id t = record {
  keys = filter-passes (λ k. not (text_eq k.id id)) t.keys;
  bindings = filter-passes (λ b. not (text_eq b.key_id id)) t.key_bindings;
  usage = filter-passes (λ r. not (text_eq r.key_id id)) t.usage_ledger;
  sessions = filter-passes (λ r. not (text_eq r.key_id id)) t.routing_sessions;
  other_keys = filter-In (λ k. not (text_eq k.id id)) t.keys;
  other_usage = filter-In (λ r. not (text_eq r.key_id id)) t.usage_ledger;
  groups_same = (refl, refl);
  prices_same = (refl, refl);
}

deleted_ok :
    (id : Text) (t : Tables)
    → (delete_key_statement id t).0 ≡ ok tt
    → (delete_key_statement id t).1 ≡ delete_key_rows id t
unfolding delete_key_statement
deleted_ok id t h = ground arith

-- After DeleteKey without an error no key, binding, usage row or routing session of the key is left,
-- every row of another key's usage and every other key is, and groups, prices and inventory are as
-- they were.
pub delete_key_cascades :
    (id : Text) (s s' : State)
    → delete_key id s ≡ (ok tt, s')
    → IsGone (trim_space id) s.store.db s'.store.db
unfolding delete_key
delete_key_cascades id s s' h =
    let (r, same) = statement_ok (delete_key_statement (trim_space id)) s tt s' h in
    subst (IsGone (trim_space id) s.store.db)
      (sym (ap (λ x. x.db) same ∙ deleted_ok (trim_space id) s.store.db r))
      (delete_key_rows-IsGone (trim_space id) s.store.db)
