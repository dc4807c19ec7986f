-- ===== src/Access/Routing/Cursor.antt =====
-- nextRoutingValue, routingNow and containsString of internal/access/routing.go.
use cpa_access_manager.Base.{
  ℕ, suc, ◌+◌, ◌%◌, ◌^◌, Bool, ◌&&◌, List, [], ◌∷◌, if◌then◌else◌, length, get_or, ltb,
}
use cpa_access_manager.Base.Text.{Text, text_eq, text_leb}
use cpa_access_manager.Access.Types.{Time}
use cpa_access_manager.Access.Time.{is_zero}
use cpa_access_manager.Access.Db.{ok, Db}

-- m[k] = v on the map of cursors
unfoldable pub set_cursor : Text → ℕ → (Text → ℕ) → Text → ℕ
set_cursor k v m j = if text_eq k j then v else m j

-- nextRoutingValue on a list that is not empty: the cursor is a uint64.
unfoldable pub next_routing_value : Text → List Text → Db Text
unfolding set_cursor
next_routing_value key values s =
    let cursor = s.store.routing_cursor key in
    (
      ok (get_or values (cursor % length values) []),
      record s {
        store = record s.store {
          routing_cursor = set_cursor key ((cursor + 1) % 2 ^ 64) s.store.routing_cursor;
        };
      },
    )

-- routingNow
unfoldable pub routing_now : Time → Time → Time
unfolding is_zero
routing_now now present = if is_zero now then present else now

-- sort.SearchStrings: the index of the first value that is not below `value`.
unfoldable pub search_strings : List Text → Text → ℕ
search_strings [] value = 0
search_strings (v ∷ values) value =
    let rest = search_strings values value in if text_leb value v then 0 else suc rest

-- containsString
unfoldable pub contains_string : List Text → Text → Bool
unfolding search_strings
contains_string values value =
    let i = search_strings values value in
    ltb i (length values) && text_eq (get_or values i []) value
