-- ===== src/Access/Auth/Safety.antt =====
-- What a successful Authenticate shows of the store (internal/access/store.go).
use cpa_access_manager.Base.{◌≡◌, sym, ◌∙◌, subst, true, false, List, none, some, arith}
use cpa_access_manager.Base.Text.{Text, is_empty, trim_space}
use cpa_access_manager.Access.Types.{Time, Key, Binding, UsageSums, Error}
use cpa_access_manager.Access.Normalize.{Platform, hash_token}
use cpa_access_manager.Access.Quota.{check_quota}
use cpa_access_manager.Access.Quota.Exact.{QuotaOutcome, spent, check_quota_passes}
use cpa_access_manager.Access.Keys.{key_by_presented_token, complete_key, find_hash, scan_key}
use cpa_access_manager.Access.Auth.{authenticate, refuse_disabled}
use cpa_access_manager.Access.Clean.Reads.{
  key_by_presented_token-ReadsOnly, refuse_disabled-ReadsOnly,
}
use cpa_access_manager.Access.Db.{ok, State, pure, fail}
use cpa_access_manager.Access.Db.Reads.{read_same}
use cpa_access_manager.Access.Db.Success.{bind_ok, query_row_ok, pure_ok, unless_ok}
use cpa_access_manager.Access.Db.Schema.{Tables, KeyRow}

-- The key is the row that has the token's hash, read back.
pub record IsKeyOf (p : Platform) (token : Text) (t : Tables) (key : Key) : Type 0 where
  pub row : KeyRow
  pub token_given : is_empty (trim_space token) ≡ false
  pub found : find_hash (hash_token p (trim_space token)) t ≡ some row
  pub bindings : List Binding
  pub usage : UsageSums
  pub read_back : key ≡ scan_key row bindings usage

complete_key_ok :
    (row : KeyRow) (present : Time) (s s' : State) (key : Key)
    → complete_key row present s ≡ (ok key, s')
    → (bs : List Binding) × (u : UsageSums) × (key ≡ scan_key row bs u)
unfolding complete_key
complete_key_ok row present s s' key h =
    let (bs, t, e, h1) = bind_ok _ _ s key s' h in
    let (sums, t', e', h2) = bind_ok _ _ t key s' h1 in
    (bs, sums.0, (pure_ok (scan_key row bs sums.0) t' key s' h2).0)

key_by_presented_token_ok :
    (p : Platform) (token : Text) (present : Time) (s s' : State) (key : Key)
    → key_by_presented_token p token present s ≡ (ok key, s')
    → IsKeyOf p token s.store.db key
unfolding key_by_presented_token
key_by_presented_token_ok p token present s s' key h =
    let (given, h0) = unless_ok (is_empty (trim_space token)) Error.key_not_found _ s s' key h in
    let (row, t, found, h1) = bind_ok _ _ s key s' h0 in
    let (f, same) = query_row_ok _ _ s row t found in
    let (bs, u, r) = complete_key_ok row present t s' key h1 in
    record { row = row; token_given = given; found = f; bindings = bs; usage = u; read_back = r }

refuse_disabled_ok :
    (key : Key) (s s' : State) → refuse_disabled key s ≡ (ok tt, s') → key.enabled ≡ true
unfolding refuse_disabled pure fail
refuse_disabled_ok key s s' h = ground arith

-- What Authenticate lets in.
pub record IsAdmitted (p : Platform) (token : Text) (now present : Time) (t : Tables) (key : Key)
    : Type 0 where
  pub owner : IsKeyOf p token t key
  pub enabled : key.enabled ≡ true
  pub within_limits : QuotaOutcome key (spent key.id now present t) none

-- Whatever statements fail, a key that Authenticate returns is the row with the hash of the presented
-- token, it is enabled, and the amounts spent in its windows have reached none of its limits.
pub authenticate_safe :
    (p : Platform) (token model : Text) (now present : Time) (s s' : State) (key : Key)
    → authenticate p token model now present s ≡ (ok key, s')
    → IsAdmitted p token now present s.store.db key
unfolding authenticate
authenticate_safe p token model now present s s' key h =
    let (k, s1, e1, h1) = bind_ok _ _ s key s' h in
    let (u, s2, e2, h2) = bind_ok _ _ s1 key s' h1 in
    let (v, s3, e3, h3) = bind_ok _ _ s2 key s' h2 in
    let (w, s4, e4, h4) = bind_ok _ _ s3 key s' h3 in
    let (x, s5, e5, h5) = bind_ok _ _ s4 key s' h4 in
    admitted k s1 s2 s3 s5 e1 e2 e3 (pure_ok k s5 key s' h5).0
  where
    admitted :
        (k : Key) (s1 s2 s3 s5 : State)
        → key_by_presented_token p token present s ≡ (ok k, s1)
        → refuse_disabled k s1 ≡ (ok tt, s2)
        → check_quota k now present s2 ≡ (ok tt, s3)
        → key ≡ k
        → IsAdmitted p token now present s.store.db key
    admitted k s1 s2 s3 s5 e1 e2 e3 r =
        let same1 = read_same s s1 (ok k) (key_by_presented_token-ReadsOnly p token present) e1 in
        let same2 = read_same s1 s2 (ok tt) (refuse_disabled-ReadsOnly k) e2 in
        subst (IsAdmitted p token now present s.store.db) (sym r) (record {
          owner = key_by_presented_token_ok p token present s s1 k e1;
          enabled = refuse_disabled_ok k s1 s2 e2;
          within_limits =
              subst (λ st. QuotaOutcome k (spent k.id now present st.db) none) (same2 ∙ same1)
                (check_quota_passes k now present s2 s3 e3).0;
        })
