-- ===== src/Access/Keys.antt =====
-- The operations on keys of internal/access/store.go. Times and random bytes are arguments: `present`
-- is what time.Now() returns, a `read` what rand.Read fills the buffer with, `none` if it fails.
pub mod Cascade
pub mod Rotation
pub mod Token
use cpa_access_manager.Base.{
  ℕ, Bool, true, false, ◌&&◌, not, List, [], ◌∷◌, ◌++◌, Option, none, some, find, any, filter,
  update_where, if◌then◌else◌, ◌==◌,
}
use cpa_access_manager.Base.Text.{Text, text_eq, text_ltb, codes, is_empty, trim_space}
use cpa_access_manager.Base.Sort.{sort_by}
use cpa_access_manager.Access.Types.{Time, Limits, Binding, UsageSums, Key, KeyPatch, Error}
use cpa_access_manager.Access.Time.{stamp, format_time, parse_time}
use cpa_access_manager.Access.Normalize.{Platform, hash_token}
use cpa_access_manager.Access.Limits.{null_float, float_ptr, bool_int}
use cpa_access_manager.Access.Quota.{usage_sums, Sums}
use cpa_access_manager.Access.Bindings.{key_bindings, replace_bindings}
use cpa_access_manager.Access.Db.{
  Result, ok, err, Db, ◌>>=◌, ◌>>◌, pure, fail, lift, or_zero, attempt, query, query_row, exec,
  exec_checked, statement, transaction,
}
use cpa_access_manager.Access.Db.Schema.{Tables, KeyRow}
use Token.{NewToken, new_plain_key, new_id, mask_token}

scanned_time : Option Text → Option Time
scanned_time none = none
scanned_time (some v) = if is_empty (trim_space v) then none else some (parse_time v)

-- scanKey, with the bindings and sums that its callers add.
unfoldable pub scan_key : KeyRow → List Binding → UsageSums → Key
unfolding scanned_time
scan_key row bindings usage = record {
  id = row.id;
  name = row.name;
  key_prefix = row.key_prefix;
  plain_key = row.key_plain;
  enabled = not (row.enabled == 0);
  limits = record {
    five_hour_usd = float_ptr row.five_hour_limit_usd;
    weekly_usd = float_ptr row.weekly_limit_usd;
    total_usd = float_ptr row.total_limit_usd;
  };
  bindings = bindings;
  usage = usage;
  created_at = parse_time row.created_at;
  updated_at = parse_time row.updated_at;
  last_used_at = scanned_time row.last_used_at;
}

unfoldable pub find_key : Text → Tables → Option KeyRow
unfolding find
find_key id t = find (λ k. text_eq k.id id) t.keys

unfoldable pub find_hash : Text → Tables → Option KeyRow
unfolding find
find_hash hash t = find (λ k. text_eq k.key_hash hash) t.keys

-- The rest of GetKey, ListKeys and KeyByPresentedToken after a row is read.
unfoldable pub complete_key : KeyRow → Time → Db Key
complete_key row present = do
  bindings ← or_zero [] (key_bindings row.id)
  sums ← usage_sums row.id present present
  pure (scan_key row bindings sums.0)

-- GetKey
unfoldable pub get_key : Text → Time → Db Key
unfolding complete_key find_key
get_key id present = do
  row ← query_row Error.key_not_found (find_key (trim_space id))
  complete_key row present

-- ORDER BY created_at DESC, id
unfoldable pub key_row_le : KeyRow → KeyRow → Bool
key_row_le a b =
    if text_ltb b.created_at a.created_at
    then true
    else if text_ltb a.created_at b.created_at
    then false
    else not (text_ltb b.id a.id)

unfoldable pub complete_keys : List KeyRow → Time → Db (List Key)
unfolding complete_key
complete_keys [] present = pure []
complete_keys (row ∷ rows) present = do
  key ← complete_key row present
  keys ← complete_keys rows present
  pure (key ∷ keys)

-- ListKeys
unfoldable pub list_keys : Time → Db (List Key)
unfolding complete_keys key_row_le sort_by
list_keys present = do rows ← query (λ t. sort_by key_row_le t.keys); complete_keys rows present

-- KeyByPresentedToken
unfoldable pub key_by_presented_token : Platform → Text → Time → Db Key
unfolding complete_key find_hash
key_by_presented_token p token present =
    if is_empty (trim_space token) then fail Error.key_not_found else do
      row ← query_row Error.key_not_found (find_hash (hash_token p (trim_space token)))
      complete_key row present

unfoldable pub is_not_found : Error → Bool
is_not_found Error.key_not_found = true
is_not_found _ = false

unfoldable pub by_id_unless : Text → Time → Result Key → Db Key
unfolding is_not_found get_key
by_id_unless value present (ok key) = pure key
by_id_unless value present (err e) = if is_not_found e then get_key value present else fail e

-- KeyByIDOrPresentedToken
unfoldable pub key_by_id_or_presented_token : Platform → Text → Time → Db Key
unfolding key_by_presented_token by_id_unless
key_by_id_or_presented_token p value present =
    let value' = trim_space value in
    if is_empty value' then fail Error.key_not_found else do
      found ← attempt (key_by_presented_token p value' present)
      by_id_unless value' present found

-- The INSERT of CreateKeyWithPlain: the identifier and the hash are unique.
unfoldable pub insert_key : KeyRow → Tables → Result (Unit {0}) × Tables
unfolding any
insert_key row t =
    if any (λ k. text_eq k.id row.id) t.keys
    then (err Error.constraint_failed, t)
    else if any (λ k. text_eq k.key_hash row.key_hash) t.keys
    then (err Error.duplicate_key, t)
    else (ok tt, record t { keys = row ∷ t.keys })

unfoldable pub hash_exists : Text → Tables → Bool
unfolding any
hash_exists hash t = any (λ k. text_eq k.key_hash hash) t.keys

unfoldable pub refuse_duplicate : NewToken → Bool → Db NewToken
refuse_duplicate token exists = if exists then fail Error.duplicate_key else pure token

-- The first part of CreateKeyWithPlain: a random token, or the one asked for if no key has it.
unfoldable pub choose_token : Platform → Text → Option Text → Db NewToken
unfolding refuse_duplicate hash_exists new_plain_key
choose_token p requested read =
    let plain = trim_space requested in
    let token : NewToken = record {
      plain = plain;
      hash = hash_token p plain;
      prefix = mask_token plain;
    } in
    if is_empty plain
    then lift (new_plain_key p read)
    else do exists ← query (hash_exists token.hash); refuse_duplicate token exists

unfoldable pub new_key_row : Text → Text → NewToken → Bool → Limits → Text → KeyRow
new_key_row id name token enabled limits now = record {
  id = id;
  name = trim_space name;
  key_hash = token.hash;
  key_prefix = token.prefix;
  key_plain = token.plain;
  enabled = bool_int enabled;
  five_hour_limit_usd = null_float limits.five_hour_usd;
  weekly_limit_usd = null_float limits.weekly_usd;
  total_limit_usd = null_float limits.total_usd;
  created_at = now;
  updated_at = now;
  last_used_at = none;
}

-- CreateKeyWithPlain; CreateKey is the call with an empty `requested`.
unfoldable pub create_key_with_plain :
    Platform
    → Text
    → Bool
    → Limits
    → List Binding
    → Text
    → Option Text
    → Option Text
    → Time
    → Db (Key × Text)
unfolding choose_token new_id new_key_row insert_key get_key
create_key_with_plain p name enabled limits bindings requested token_read id_read present = do
  token ← choose_token p requested token_read
  id ← lift (new_id (codes "key") id_read)
  transaction (do
    statement (insert_key (new_key_row id name token enabled limits (stamp present)))
    replace_bindings id bindings)
  key ← get_key id present
  pure (key, token.plain)

unfoldable pub update_key_row : Text → (KeyRow → KeyRow) → Tables → Tables
unfolding update_where
update_key_row id f t = record t { keys = update_where (λ k. text_eq k.id id) f t.keys }

-- The UPDATE of RotateKey. The hash is unique among the other keys; no row has the identifier is
-- `RowsAffected` 0.
unfoldable pub rotate_row : Text → NewToken → Text → Tables → Result (Unit {0}) × Tables
unfolding update_key_row any
rotate_row id token now t =
    if not (any (λ k. text_eq k.id id) t.keys)
    then (err Error.key_not_found, t)
    else if any (λ k. text_eq k.key_hash token.hash && not (text_eq k.id id)) t.keys
    then (err Error.constraint_failed, t)
    else (
      ok tt,
      update_key_row id
          (λ k. record k {
            key_hash = token.hash;
            key_prefix = token.prefix;
            key_plain = token.plain;
            updated_at = now;
          })
          t,
    )

-- RotateKey
unfoldable pub rotate_key : Platform → Text → Option Text → Time → Db (Key × Text)
unfolding rotate_row new_plain_key get_key
rotate_key p id read present = do
  token ← lift (new_plain_key p read)
  statement (rotate_row (trim_space id) token (stamp present))
  key ← get_key id present
  pure (key, token.plain)

-- A field of a patch that is absent runs no statement.
unfoldable pub if_given : {A : Type 0} → Option A → (A → Db (Unit {0})) → Db (Unit {0})
if_given none f = pure tt
if_given (some a) f = f a

-- The transaction of UpdateKey.
unfoldable pub apply_key_patch : Text → KeyPatch → Text → Db (Unit {0})
unfolding if_given update_key_row find_key
apply_key_patch id patch now = do
  row ← query_row Error.key_not_found (find_key id)
  if_given patch.name (λ name.
      exec (update_key_row id (λ k. record k { name = trim_space name; updated_at = now })))
  if_given patch.enabled (λ enabled.
      exec (update_key_row id (λ k. record k { enabled = bool_int enabled; updated_at = now })))
  if_given patch.limits (λ limits. exec (
      update_key_row id (λ k. record k {
        five_hour_limit_usd = null_float limits.five_hour_usd;
        weekly_limit_usd = null_float limits.weekly_usd;
        total_limit_usd = null_float limits.total_usd;
        updated_at = now;
      })))
  if_given patch.bindings (replace_bindings id)

-- UpdateKey
unfoldable pub update_key : Text → KeyPatch → Time → Db Key
unfolding apply_key_patch get_key
update_key id patch present =
    let id' = trim_space id in
    if is_empty id'
    then fail Error.key_not_found
    else do transaction (apply_key_patch id' patch (stamp present)); get_key id' present

-- DELETE FROM keys, with the rows that the foreign keys cascade to.
unfoldable pub delete_key_rows : Text → Tables → Tables
unfolding filter
delete_key_rows id t = record t {
  keys = filter (λ k. not (text_eq k.id id)) t.keys;
  key_bindings = filter (λ b. not (text_eq b.key_id id)) t.key_bindings;
  usage_ledger = filter (λ r. not (text_eq r.key_id id)) t.usage_ledger;
  routing_sessions = filter (λ r. not (text_eq r.key_id id)) t.routing_sessions;
}

-- The statement of DeleteKey; no row deleted is `RowsAffected` 0.
unfoldable pub delete_key_statement : Text → Tables → Result (Unit {0}) × Tables
unfolding delete_key_rows any
delete_key_statement id t =
    if any (λ k. text_eq k.id id) t.keys
    then (ok tt, delete_key_rows id t)
    else (err Error.key_not_found, t)

-- DeleteKey
unfoldable pub delete_key : Text → Db (Unit {0})
unfolding delete_key_statement
delete_key id = statement (delete_key_statement (trim_space id))
