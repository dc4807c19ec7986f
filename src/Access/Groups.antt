-- ===== src/Access/Groups.antt =====
-- The operations on groups of internal/access/store.go. `present` is what time.Now() returns.
use cpa_access_manager.Base.{
  Bool, true, false, ◌&&◌, ◌||◌, not, List, [], ◌∷◌, Option, find, any, filter, update_where,
  if◌then◌else◌,
}
use cpa_access_manager.Base.Text.{Text, text_eq, text_ltb, codes, is_empty, trim_space}
use cpa_access_manager.Base.Sort.{sort_by}
use cpa_access_manager.Access.Types.{Time, Group, GroupPatch, GroupMember, Error, binding_group}
use cpa_access_manager.Access.Time.{stamp, parse_time}
use cpa_access_manager.Access.Normalize.{normalize_target_type}
use cpa_access_manager.Access.Keys.{if_given}
use cpa_access_manager.Access.Keys.Token.{new_id}
use cpa_access_manager.Access.Db.{
  Result, ok, err, Db, ◌>>=◌, ◌>>◌, pure, lift, or_zero, query, query_row, exec, statement,
  transaction,
}
use cpa_access_manager.Access.Db.Schema.{Tables, GroupRow}

-- ORDER BY member_type, member_id
unfoldable pub member_le : GroupMember → GroupMember → Bool
member_le a b =
    if text_ltb a.member_type b.member_type
    then true
    else if text_ltb b.member_type a.member_type
    then false
    else not (text_ltb b.member_id a.member_id)

unfoldable pub members_of : Text → Tables → List GroupMember
unfolding member_le sort_by filter
members_of group_id t =
    sort_by member_le (filter (λ m. text_eq m.group_id group_id) t.group_members)

-- GroupMembers
unfoldable pub group_members : Text → Db (List GroupMember)
unfolding members_of
group_members group_id = query (members_of (trim_space group_id))

unfoldable pub same_member : GroupMember → GroupMember → Bool
same_member a b =
    text_eq a.group_id b.group_id
    && (text_eq a.member_type b.member_type && text_eq a.member_id b.member_id)

-- INSERT OR IGNORE: a row that is there is left alone, a group that is not there is refused.
unfoldable pub insert_member : GroupMember → Tables → Result (Unit {0}) × Tables
unfolding same_member any
insert_member m t =
    if any (same_member m) t.group_members
    then (ok tt, t)
    else if any (λ g. text_eq g.id m.group_id) t.groups
    then (ok tt, record t { group_members = m ∷ t.group_members })
    else (err Error.constraint_failed, t)

unfoldable pub delete_members : Text → Tables → Tables
unfolding filter
delete_members group_id t = record t {
  group_members = filter (λ m. not (text_eq m.group_id group_id)) t.group_members;
}

-- The loop of replaceGroupMembers: a group is no member of a group.
unfoldable pub insert_members : Text → List GroupMember → Db (Unit {0})
unfolding insert_member
insert_members group_id [] = pure tt
insert_members group_id (m ∷ members) =
    let member_type = normalize_target_type m.member_type in
    let member_id = trim_space m.member_id in
    let row : GroupMember = record {
      group_id = group_id;
      member_type = member_type;
      member_id = member_id;
    } in
    let rest = insert_members group_id members in
    if is_empty member_type || is_empty member_id
    then rest
    else if text_eq member_type binding_group
    then rest
    else (do statement (insert_member row); rest)

-- replaceGroupMembers
unfoldable pub replace_group_members : Text → List GroupMember → Db (Unit {0})
unfolding delete_members insert_members
replace_group_members group_id members = do
  exec (delete_members group_id)
  insert_members group_id members

unfoldable pub find_group : Text → Tables → Option GroupRow
unfolding find
find_group id t = find (λ g. text_eq g.id id) t.groups

unfoldable pub scan_group : GroupRow → List GroupMember → Group
scan_group row members = record {
  id = row.id;
  name = row.name;
  description = row.description;
  members = members;
  created_at = parse_time row.created_at;
  updated_at = parse_time row.updated_at;
}

-- GetGroup: sql.ErrNoRows is passed on.
unfoldable pub get_group : Text → Db Group
unfolding find_group scan_group group_members
get_group id = do
  row ← query_row Error.no_rows (find_group (trim_space id))
  members ← or_zero [] (group_members row.id)
  pure (scan_group row members)

-- ORDER BY name, id
unfoldable pub group_row_le : GroupRow → GroupRow → Bool
group_row_le a b =
    if text_ltb a.name b.name
    then true
    else if text_ltb b.name a.name
    then false
    else not (text_ltb b.id a.id)

unfoldable pub scan_groups : List GroupRow → Db (List Group)
unfolding scan_group group_members
scan_groups [] = pure []
scan_groups (row ∷ rows) = do
  members ← or_zero [] (group_members row.id)
  groups ← scan_groups rows
  pure (scan_group row members ∷ groups)

-- ListGroups
unfoldable pub list_groups : Db (List Group)
unfolding scan_groups group_row_le sort_by
list_groups = do rows ← query (λ t. sort_by group_row_le t.groups); scan_groups rows

unfoldable pub insert_group : GroupRow → Tables → Result (Unit {0}) × Tables
unfolding any
insert_group row t =
    if any (λ g. text_eq g.id row.id) t.groups
    then (err Error.constraint_failed, t)
    else (ok tt, record t { groups = row ∷ t.groups })

-- CreateGroup; the random identifier is made only if none is given.
unfoldable pub create_group : Text → Text → Text → List GroupMember → Option Text → Time → Db Group
unfolding new_id insert_group replace_group_members get_group
create_group id name description members read present = do
  let given = trim_space id
  id' ← (if is_empty given then lift (new_id (codes "grp") read) else pure given)
  let now = stamp present
  let row : GroupRow = record {
    id = id';
    name = trim_space name;
    description = trim_space description;
    created_at = now;
    updated_at = now;
  }
  transaction (do statement (insert_group row); replace_group_members id' members)
  get_group id'

unfoldable pub update_group_row : Text → (GroupRow → GroupRow) → Tables → Tables
unfolding update_where
update_group_row id f t = record t { groups = update_where (λ g. text_eq g.id id) f t.groups }

-- The transaction of UpdateGroup.
unfoldable pub apply_group_patch : Text → GroupPatch → Text → Db (Unit {0})
unfolding if_given update_group_row find_group replace_group_members
apply_group_patch id patch now = do
  row ← query_row Error.no_rows (find_group id)
  if_given patch.name (λ name.
      exec (update_group_row id (λ g. record g { name = trim_space name; updated_at = now })))
  if_given patch.description (λ description. exec (
      update_group_row id
        (λ g. record g { description = trim_space description; updated_at = now })))
  if_given patch.members (λ members. do
    replace_group_members id members
    exec (update_group_row id (λ g. record g { updated_at = now })))

-- UpdateGroup
unfoldable pub update_group : Text → GroupPatch → Time → Db Group
unfolding apply_group_patch get_group
update_group id patch present = do
  transaction (apply_group_patch (trim_space id) patch (stamp present))
  get_group (trim_space id)

-- DELETE FROM groups, with the members that the foreign key cascades to.
unfoldable pub delete_group_statement : Text → Tables → Result (Unit {0}) × Tables
unfolding any filter
delete_group_statement id t =
    if any (λ g. text_eq g.id id) t.groups
    then (
      ok tt,
      record t {
        groups = filter (λ g. not (text_eq g.id id)) t.groups;
        group_members = filter (λ m. not (text_eq m.group_id id)) t.group_members;
      },
    )
    else (err Error.no_rows, t)

-- DeleteGroup
unfoldable pub delete_group : Text → Db (Unit {0})
unfolding delete_group_statement
delete_group id = statement (delete_group_statement (trim_space id))
