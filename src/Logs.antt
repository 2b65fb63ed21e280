-- ===== src/Logs.antt =====
-- app/kubernetes-logs/kubernetes-logs.service.ts: pages of the log rows of a service.
pub mod Order
pub mod Times
pub mod Sorted
pub mod Pages
pub mod Walk
pub mod Answers
mod Examples
use Prim.Native.Nat.{Ordering}
use kudeploy.Prelude.{
  ℕ, zero, suc, ◌+◌, ◌-◌, ◌/◌, ◌%◌, Bool, true, false, not, ◌&&◌, ◌||◌, Option, none, some, List,
  [], ◌∷◌, ◌++◌, map, Text, units, ◌==◌, nat_eq, list_eq, leb, ltb, min, or_else, is_some,
  if◌then◌else◌, take, drop, length, filter, non_empty,
}
use kudeploy.Prelude.Exec.{
  Result, ok, err, Failure, plain_error, Exec, pure, throw, lift, guard, try_catch, ◌>>=◌, ◌>>◌,
}
use kudeploy.Prelude.Int.{ℤ, pos, negsuc, int_ltb, int_text}
use kudeploy.Connection.Sort.{sort}
use kudeploy.Kubernetes.Dates.{Date}
use kudeploy.Kubernetes.Names.{to_kubernetes_project_name, to_kubernetes_service_name}
use kudeploy.Logsql.{
  ServiceLogsQueryInput, ServiceLogsQueryCursor, QueryMode, backward, forward,
  ServiceLogsQueryOptions, build_service_logs_query, fits_pattern,
}
use kudeploy.Project.{Workspace}
use kudeploy.Logs.Order.{
  ServiceLog, ServiceLogCursorPayload, service_log_cursor_payload, compare_service_logs_desc,
  compare_service_log_to_cursor,
}
use kudeploy.Logs.Times.{TimeBound, at, raw, cursor_start, cursor_end, before_by}

pub record ServiceLogsOptions : Type 0 where
  pub after : Option Text
  pub before : Option Text
  pub first : Option ℤ
  pub last : Option ℤ
  pub now : Option ℤ

pub record QueryOptions : Type 0 where
  pub start : TimeBound
  pub end : TimeBound
  pub limit : ℕ
  pub descending : Bool

pub record ServiceLogEdge : Type 0 where
  pub node : ServiceLog
  pub cursor : Text

pub record ServiceLogConnection : Type 0 where
  pub available : Bool
  pub edges : List ServiceLogEdge
  pub end_cursor : Option Text
  pub has_next_page : Bool
  pub has_previous_page : Bool
  pub start_cursor : Option Text

-- The fields of a parsed cursor that are strings.
pub record RawCursor : Type 0 where
  pub id : Option Text
  pub mh : Option Text
  pub sh : Option Text
  pub sid : Option Text
  pub t : Option Text

-- The log store, the clock and the language: `is_configured` and `query` of the client, which may
-- throw; the JSON and base64 of cursors, where `parse` gives none if they throw or give no object.
pub record LogsOutside (W : Type 0) : Type 0 where
  pub is_configured : Exec W Bool
  pub query : Text → QueryOptions → Exec W (List ServiceLog)
  pub clock : W → ℤ
  pub parse_date : Text → Date
  pub to_iso_string : ℤ → Text
  pub locale_compare : Text → Text → Ordering
  pub parse : Text → Option RawCursor
  pub stringify : ServiceLogCursorPayload → Text

abbrev pub default_page_size : ℕ
default_page_size = 1000

abbrev pub min_page_size : ℕ
min_page_size = 1000

abbrev pub max_page_size : ℕ
max_page_size = 10000

-- 30 days in milliseconds
abbrev pub max_lookback_ms : ℕ
max_lookback_ms = 2592000000

-- `Math.min(MAX, Math.max(MIN, Math.floor(value)))`; GraphQL gives integers
unfoldable pub clamp_page_size : Option ℤ → ℕ
clamp_page_size none = default_page_size
clamp_page_size (some (negsuc n)) = min_page_size
clamp_page_size (some (pos n)) =
    if leb n min_page_size then min_page_size else if leb n max_page_size then n else max_page_size

pub record Paging : Type 0 where
  pub limit : ℕ
  pub mode : QueryMode

unfoldable pub get_paging : ServiceLogsOptions → Result Paging
unfolding clamp_page_size units
get_paging options =
    let is_forward = is_some options.first || is_some options.after in
    let is_backward = is_some options.last || is_some options.before in
    if is_forward && is_backward
    then err (plain_error (units "paging must use either first/after or last/before"))
    else if is_forward
    then ok (record { limit = clamp_page_size options.first; mode = forward })
    else if is_backward
    then ok (record { limit = clamp_page_size options.last; mode = backward })
    else ok (record { limit = clamp_page_size options.first; mode = forward })

unfoldable pub empty_connection : Bool → ServiceLogConnection
empty_connection available = record {
  available = available;
  edges = [];
  end_cursor = none;
  has_next_page = false;
  has_previous_page = false;
  start_cursor = none;
}

abbrev pub last_of {ℓ} : {A : Type ℓ} → List A → Option A
last_of [] = none
last_of (x ∷ []) = some x
last_of (x ∷ y ∷ xs) = last_of (y ∷ xs)

abbrev pub first_of {ℓ} : {A : Type ℓ} → List A → Option A
first_of [] = none
first_of (x ∷ xs) = some x

abbrev cursor_text : Option ServiceLogEdge → Option Text
cursor_text none = none
cursor_text (some edge) = some edge.cursor

abbrev pub is_lt : Ordering → Bool
is_lt Ordering.lt = true
is_lt _ = false

abbrev pub is_gt : Ordering → Bool
is_gt Ordering.gt = true
is_gt _ = false

abbrev pub any_rows {ℓ} : {A : Type ℓ} → List A → Bool
any_rows [] = false
any_rows (x ∷ xs) = true

-- the checks of `decodeServiceLogCursor` on what was parsed
unfoldable pub checked_cursor : (Text → Date) → Option RawCursor → Option ServiceLogCursorPayload
unfolding non_empty
checked_cursor parse_date none = none
checked_cursor parse_date (some c) =
    if non_empty (or_else c.id []) && (is_some c.t && is_some (parse_date (or_else c.t [])))
    then some (record {
      id = or_else c.id [];
      mh = or_else c.mh [];
      sh = or_else c.sh [];
      sid = or_else c.sid [];
      t = or_else c.t [];
    })
    else none

abbrev some_or_invalid : Option ServiceLogCursorPayload → Result (Option ServiceLogCursorPayload)
some_or_invalid none = err (plain_error (units "Invalid service log cursor"))
some_or_invalid (some c) = ok (some c)

unfoldable pub order_of_mode : QueryMode → Bool
order_of_mode backward = false
order_of_mode forward = true

abbrev pub query_cursor : ServiceLogCursorPayload → ServiceLogsQueryCursor
query_cursor c = record { mh = c.mh; sh = c.sh; sid = c.sid; t = c.t }

abbrev pub query_cursor_of : Option ServiceLogCursorPayload → Option ServiceLogsQueryCursor
query_cursor_of none = none
query_cursor_of (some c) = some (query_cursor c)

module _ {W : Type 0} (o : LogsOutside W) where
  unfoldable pub decode_service_log_cursor : Option Text → Result (Option ServiceLogCursorPayload)
  unfolding checked_cursor units non_empty
  decode_service_log_cursor none = ok none
  decode_service_log_cursor (some cursor) =
      if non_empty cursor
      then some_or_invalid (checked_cursor o.parse_date (o.parse cursor))
      else ok none

  unfoldable pub encode_service_log_cursor : ServiceLog → Text
  encode_service_log_cursor log = o.stringify (service_log_cursor_payload log)

  -- whether a row lies on the side of the cursor that the page is on
  unfoldable pub is_beyond : QueryMode → ServiceLogCursorPayload → ServiceLog → Bool
  is_beyond forward cursor row =
      is_lt (compare_service_log_to_cursor o.parse_date o.locale_compare row cursor)
  is_beyond backward cursor row =
      is_gt (compare_service_log_to_cursor o.parse_date o.locale_compare row cursor)

  unfoldable pub filtered_rows :
      QueryMode → Option ServiceLogCursorPayload → List ServiceLog → List ServiceLog
  unfolding filter is_beyond
  filtered_rows mode none rows = rows
  filtered_rows mode (some cursor) rows = filter (is_beyond mode cursor) rows

  unfoldable pub page_rows : QueryMode → ℕ → List ServiceLog → List ServiceLog
  unfolding take drop
  page_rows forward limit sorted = take limit sorted
  page_rows backward limit sorted = drop (length sorted - limit) sorted

  abbrev log_edge : ServiceLog → ServiceLogEdge
  log_edge node = record { node = node; cursor = encode_service_log_cursor node }

  unfoldable pub to_connection :
      Option ServiceLogCursorPayload → ℕ → QueryMode → List ServiceLog → ServiceLogConnection
  unfolding filtered_rows page_rows sort encode_service_log_cursor
  to_connection cursor limit mode rows =
      let sorted =
        sort (compare_service_logs_desc o.parse_date o.locale_compare)
          (filtered_rows mode cursor rows) in
      let page = page_rows mode limit sorted in
      let has_more =
        any_rows page && (ltb limit (length rows) || leb max_page_size (length rows)) in
      let edges = map log_edge page in
      record {
        available = true;
        edges = edges;
        end_cursor = cursor_text (last_of edges);
        has_next_page = if order_of_mode mode then has_more else is_some cursor;
        has_previous_page = if order_of_mode mode then is_some cursor else has_more;
        start_cursor = cursor_text (first_of edges);
      }

  -- the query, and its answer as a page
  unfoldable pub queried :
      Workspace
      → Text
      → Text
      → ServiceLogsOptions
      → Paging
      → Option ServiceLogCursorPayload
      → Exec W ServiceLogConnection
  unfolding cursor_start cursor_end order_of_mode to_connection build_service_logs_query
  queried workspace project_id service_id options paging cursor = do
    now ← (λ w. (ok (or_else options.now (o.clock w)), w))
    let query_limit = min (paging.limit + 1) max_page_size
    let query =
        build_service_logs_query
          (record {
            workspace_id = workspace.id;
            project_id = to_kubernetes_project_name project_id;
            service_id = to_kubernetes_service_name service_id;
          })
          (record {
            cursor = query_cursor_of cursor;
            limit = some query_limit;
            mode = some paging.mode;
            descending = order_of_mode paging.mode;
          })
    rows ← o.query query (record {
      start = cursor_start o.parse_date paging.mode cursor (before_by max_lookback_ms now);
      end = cursor_end o.parse_date o.to_iso_string paging.mode cursor now;
      limit = query_limit;
      descending = order_of_mode paging.mode;
    })
    pure (to_connection cursor paging.limit paging.mode rows)

  unfoldable pub if_configured : Exec W ServiceLogConnection → Bool → Exec W ServiceLogConnection
  unfolding empty_connection
  if_configured query true = query
  if_configured query false = pure (empty_connection false)

  unfoldable pub get_service_logs :
      Workspace → Text → Text → ServiceLogsOptions → Exec W ServiceLogConnection
  unfolding get_paging decode_service_log_cursor queried if_configured empty_connection
  get_service_logs workspace project_id service_id options = do
    paging ← lift (get_paging options)
    cursor ← lift (
        decode_service_log_cursor
          (if order_of_mode paging.mode then options.after else options.before))
    configured ← try_catch o.is_configured (λ e. pure false)
    try_catch
        (if_configured (queried workspace project_id service_id options paging cursor) configured)
        (λ e. pure (empty_connection false))
