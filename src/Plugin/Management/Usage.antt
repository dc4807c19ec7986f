-- ===== src/Plugin/Management/Usage.antt =====
-- handleUsageAPI of internal/plugin/management.go.
use cpa_access_manager.Base.{Bool, ◌||◌, not, Option, none, some, if◌then◌else◌}
use cpa_access_manager.Base.Text.{Text, codes, is_empty, trim_space, to_lower, text_eq}
use cpa_access_manager.Access.Types.{Time, UsageFilter}
use cpa_access_manager.Access.Time.{after, zero_time}
use cpa_access_manager.Access.Normalize.{Platform}
use cpa_access_manager.Access.Usage.{list_usage_filtered, usage_totals_by_key}
use cpa_access_manager.Access.Usage.Summary.{usage_summary}
use cpa_access_manager.Access.Db.{Db, pure}
use cpa_access_manager.Plugin.Types.{Headers, ManagementRequest}
use cpa_access_manager.Plugin.Management.Types.{
  totals, summary, entries, ManagementResponse, Outside, refused, not_allowed,
}
use cpa_access_manager.Plugin.Management.Responses.{Inputs, is_method, query_get, answer, to_upper}

unfoldable pub query_filter : Headers → Time → Time → UsageFilter
unfolding query_get
query_filter q since before = record {
  key_id = query_get (codes "key_id") q;
  request_resource = query_get (codes "request_resource") q;
  resource_id = query_get (codes "resource_id") q;
  since = since;
  before = before;
}

unfoldable pub totals_between :
    Platform
    → Outside
    → Inputs
    → ManagementRequest
    → Bool
    → Option Time
    → Option Time
    → Db ManagementResponse
unfolding usage_totals_by_key usage_summary query_filter answer after
totals_between p o i req by_key none before =
    pure (refused 400 (codes "valid since timestamp is required"))
totals_between p o i req by_key (some since) none =
    pure (refused 400 (codes "valid before timestamp is required"))
totals_between p o i req by_key (some since) (some before) =
    if not (after before since)
    then pure (refused 400 (codes "before must be after since"))
    else if by_key
    then answer totals (usage_totals_by_key since before i.present)
    else answer summary (usage_summary p (query_filter req.query since before))

unfoldable pub time_asked : Outside → Text → Headers → Option Time
unfolding query_get
time_asked o k q = o.parse_rfc3339 (trim_space (query_get k q))

or_zero_time : Option Time → Time
or_zero_time none = zero_time
or_zero_time (some t) = t

-- A time of a list; what does not parse is the zero time, which asks for nothing.
list_time : Outside → Text → Headers → Time
unfolding time_asked query_get or_zero_time
list_time o k q =
    if is_empty (trim_space (query_get k q)) then zero_time else or_zero_time (time_asked o k q)

unfoldable pub list_entries : Platform → Outside → ManagementRequest → Db ManagementResponse
unfolding list_usage_filtered query_filter query_get list_time answer
list_entries p o req = answer entries (
    list_usage_filtered p
      (query_filter req.query (list_time o (codes "since") req.query)
        (list_time o (codes "before") req.query))
      (o.atoi (query_get (codes "limit") req.query)))

-- handleUsageAPI
unfoldable pub handle_usage_api :
    Platform → Outside → Inputs → ManagementRequest → Db ManagementResponse
unfolding totals_between time_asked list_entries query_get to_upper
handle_usage_api p o i req =
    let aggregate = to_lower (trim_space (query_get (codes "aggregate") req.query)) in
    let by_key = text_eq aggregate (codes "key") in
    if not (is_method (codes "GET") req.method)
    then pure not_allowed
    else if by_key || text_eq aggregate (codes "summary")
    then totals_between p o i req by_key (time_asked o (codes "since") req.query)
        (time_asked o (codes "before") req.query)
    else list_entries p o req
