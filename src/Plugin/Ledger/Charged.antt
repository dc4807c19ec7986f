-- ===== src/Plugin/Ledger/Charged.antt =====
-- Which key a usage report is charged to: handleUsage of internal/plugin/app.go over RecordUsage of
-- internal/access/store.go.
use cpa_access_manager.Base.{◌≡◌, ◌≢◌, ◌∙◌, subst}
use cpa_access_manager.Base.Int.{◌+ℤ◌}
use cpa_access_manager.Base.Text.{Text}
use cpa_access_manager.Access.Types.{Time, Key, UsageEntry}
use cpa_access_manager.Access.Normalize.{Platform}
use cpa_access_manager.Access.Keys.{key_by_id_or_presented_token}
use cpa_access_manager.Access.Quota.{sum_all}
use cpa_access_manager.Access.Usage.Ledger.{record_usage_appends, record_usage_spends}
use cpa_access_manager.Access.Clean.Reads.{key_by_id_or_presented_token-ReadsOnly}
use cpa_access_manager.Access.Db.{ok, State}
use cpa_access_manager.Access.Db.Reads.{read_same}
use cpa_access_manager.Access.Db.Success.{bind_ok}
use cpa_access_manager.Plugin.Types.{Library, UsageHandleRequest}
use cpa_access_manager.Plugin.Ledger.{key_identifier, usage_entry, report_usage}

-- The key that the report names is charged, and no other.
pub record IsCharged (key : Key) (e : UsageEntry) (s s' : State) : Type 0 where
  pub owner : e.key_id ≡ key.id
  pub charged : sum_all key.id s'.store.db ≡ e.usd +ℤ sum_all key.id s.store.db
  pub others :
      (other : Text) → other ≢ key.id → sum_all other s'.store.db ≡ sum_all other s.store.db

IsCharged-owner :
    (key : Key) (e : UsageEntry) (s s' : State)
    → e.key_id ≡ key.id
    → ((other : Text)
        → (sum_all e.key_id s'.store.db ≡ e.usd +ℤ sum_all e.key_id s.store.db)
          × (other ≢ e.key_id → sum_all other s'.store.db ≡ sum_all other s.store.db))
    → IsCharged key e s s'
IsCharged-owner key e s s' same k = record {
  owner = same;
  charged = subst (λ v. sum_all v s'.store.db ≡ e.usd +ℤ sum_all v s.store.db) same (k e.key_id).0;
  others = λ other n. (k other).1 (λ q. n (q ∙ same));
}

-- Whatever statements fail, an entry that a usage report leaves in the ledger belongs to the key that
-- the report names, by its identifier or its token; its cost is added to what that key has spent, and
-- the amount of every other key is as it was.
pub report_usage-IsCharged :
    (p : Platform) (l : Library) (present : Time) (r : UsageHandleRequest) (e : UsageEntry)
    (s s' : State)
    → report_usage p l present r s ≡ (ok e, s')
    → (key : Key) × (s1 : State) × (key_by_id_or_presented_token p (key_identifier l r) present s
        ≡ (ok key, s1))
      × IsCharged key e s s'
unfolding report_usage usage_entry
report_usage-IsCharged p l present r e s s' h =
    let (key, s1, found, written) = bind_ok _ _ s e s' h in
    let same =
      read_same s s1 (ok key)
        (key_by_id_or_presented_token-ReadsOnly p (key_identifier l r) present) found in
    (
      key,
      s1,
      found,
      IsCharged-owner key e s s' (record_usage_appends p _ e present s1 s' written).1.key_id
          (λ other.
            subst
              (λ x.
                (sum_all e.key_id s'.store.db ≡ e.usd +ℤ sum_all e.key_id x.db)
                × (other ≢ e.key_id → sum_all other s'.store.db ≡ sum_all other x.db))
              same (record_usage_spends p _ e present s1 s' other written)),
    )
