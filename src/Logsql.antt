-- ===== src/Logsql.antt =====
-- app/kubernetes-logs/logsql.ts: the query for the logs of a service.
pub mod Reading
mod Examples
use kudeploy.Prelude.{
  ℕ, ◌-◌, list_eq, list_beq, Bool, true, false, ◌&&◌, ◌||◌, Option, none, some, List, [], ◌∷◌, ◌++◌,
  map, Text, units, ◌==◌, nat_eq, leb, ltb, all, join, non_empty, length, take, drop, if◌then◌else◌,
}
use kudeploy.Prelude.Int.{decimal}
use kudeploy.Kubernetes.Names.{to_kubernetes_workspace_name}
use kudeploy.Promql.{replace_unit}

pub record ServiceLogsQueryInput : Type 0 where
  pub workspace_id : Text
  pub project_id : Text
  pub service_id : Text

pub record ServiceLogsQueryCursor : Type 0 where
  pub mh : Text
  pub sh : Text
  pub sid : Text
  pub t : Text

pub data QueryMode : Type 0 where
  backward forward : QueryMode

pub record ServiceLogsQueryOptions : Type 0 where
  pub cursor : Option ServiceLogsQueryCursor
  pub limit : Option ℕ
  pub mode : Option QueryMode
  pub descending : Bool

abbrev pub is_letter : ℕ → Bool
is_letter c = (leb 65 c && leb c 90) || ((leb 97 c && leb c 122) || c == 95)

abbrev pub is_digit : ℕ → Bool
is_digit c = leb 48 c && leb c 57

abbrev pub is_word : ℕ → Bool
is_word c = is_letter c || is_digit c

-- `/^[A-Za-z_][A-Za-z0-9_]*$/`
unfoldable pub is_plain : Text → Bool
unfolding all
is_plain [] = false
is_plain (c ∷ s) = is_letter c && all is_word s

unfoldable pub logs_ql_field : Text → Text
unfolding is_plain replace_unit
logs_ql_field name =
    if is_plain name
    then name
    else 96 ∷ (replace_unit 96 (92 ∷ 96 ∷ []) (replace_unit 92 (92 ∷ 92 ∷ []) name) ++ (96 ∷ []))

unfoldable pub logs_ql_string : Text → Text
unfolding replace_unit
logs_ql_string value =
    34
    ∷ (replace_unit 10 (92 ∷ 110 ∷ [])
          (replace_unit 34 (92 ∷ 34 ∷ []) (replace_unit 92 (92 ∷ 92 ∷ []) value))
        ++ (34 ∷ []))

unfoldable pub exact_filter : Text → Text → Text
unfolding units
exact_filter name value = logs_ql_field name ++ (58 ∷ 61 ∷ logs_ql_string value)

-- `/^-?\d+$/`
unfoldable pub is_integer : Text → Bool
unfolding all non_empty
is_integer [] = false
is_integer (c ∷ s) = if c == 45 then non_empty s && all is_digit s else all is_digit (c ∷ s)

-- Each `d` of a pattern stands for a digit, any other character for itself.
unfoldable pub fits_pattern : Text → Text → Bool
fits_pattern [] [] = true
fits_pattern (p ∷ ps) (c ∷ s) = (if p == 100 then is_digit c else c == p) && fits_pattern ps s
fits_pattern _ _ = false

-- `(?:\.\d{1,9})?Z`
unfoldable pub is_log_fraction : Text → Bool
unfolding all take fits_pattern units
is_log_fraction [] = false
is_log_fraction (c ∷ s) =
    if c == 46
    then ltb 1 (length s)
      && (leb (length s) 10
          && (all is_digit (take (length s - 1) s) && drop (length s - 1) s == units "Z"))
    else (c ∷ s) == units "Z"

unfoldable pub is_safe_log_time : Text → Bool
unfolding take drop fits_pattern is_log_fraction units
is_safe_log_time value =
    fits_pattern (units "dddd-dd-ddTdd:dd:dd") (take 19 value) && is_log_fraction (drop 19 value)

abbrev pub direction_of : QueryMode → Text
direction_of forward = 60 ∷ []
direction_of backward = 62 ∷ []

unfoldable pub cursor_sort_tuple_filter : Text → Text → Text → Text → Text
unfolding units
cursor_sort_tuple_filter direction message_hash stream_hash stream_id =
    let sh = logs_ql_field (units "kudeploy_stream_hash") in
    let mh = logs_ql_field (units "kudeploy_message_hash") in
    let sid = logs_ql_field (units "_stream_id") in
    sh
    ++ units ":"
    ++ direction
    ++ stream_hash
    ++ units " OR ("
    ++ sh
    ++ units ":="
    ++ stream_hash
    ++ units " AND ("
    ++ mh
    ++ units ":"
    ++ direction
    ++ message_hash
    ++ units " OR ("
    ++ mh
    ++ units ":="
    ++ message_hash
    ++ units " AND "
    ++ sid
    ++ units ":"
    ++ direction
    ++ logs_ql_string stream_id
    ++ units ")))"

unfoldable pub cursor_filter_of : ServiceLogsQueryCursor → QueryMode → Text
unfolding units
cursor_filter_of c mode =
    let time = logs_ql_field (units "_time") in
    units "("
    ++ time
    ++ units ":"
    ++ direction_of mode
    ++ c.t
    ++ units " OR ("
    ++ time
    ++ units ":>="
    ++ c.t
    ++ units " AND ("
    ++ cursor_sort_tuple_filter (direction_of mode) c.mh c.sh c.sid
    ++ units ")))"

unfoldable pub cursor_tuple_filter : Option ServiceLogsQueryCursor → Option QueryMode → Option Text
unfolding is_integer is_safe_log_time
cursor_tuple_filter (some c) (some mode) =
    if is_integer c.mh && (is_integer c.sh && is_safe_log_time c.t)
    then some (cursor_filter_of c mode)
    else none
cursor_tuple_filter _ _ = none

unfoldable pub label_filters : ServiceLogsQueryInput → Text
unfolding join units
label_filters input = join (units " AND ") (
    exact_filter (units "kubernetes.pod_labels.app.kubernetes.io/managed-by") (units "kudeploy")
    ∷ exact_filter (units "kubernetes.pod_labels.kudeploy.com/workspace")
        (to_kubernetes_workspace_name input.workspace_id)
    ∷ exact_filter (units "kubernetes.pod_labels.kudeploy.com/project") input.project_id
    ∷ exact_filter (units "kubernetes.pod_labels.kudeploy.com/service") input.service_id
    ∷ [])

abbrev pub log_base_fields : List Text
unfolding units
log_base_fields =
    units "_time"
    ∷ units "_stream"
    ∷ units "_stream_id"
    ∷ units "_msg"
    ∷ units "level"
    ∷ units "kubernetes.pod_namespace"
    ∷ units "kubernetes.pod_name"
    ∷ units "kubernetes.container_name"
    ∷ units "kubernetes.pod_labels.kudeploy.com/deployment"
    ∷ []

abbrev pub log_generated_fields : List Text
unfolding units
log_generated_fields = units "kudeploy_stream_hash" ∷ units "kudeploy_message_hash" ∷ []

abbrev pub log_sort_fields : List Text
unfolding units
log_sort_fields =
    units "_time"
    ∷ units "kudeploy_stream_hash"
    ∷ units "kudeploy_message_hash"
    ∷ units "_stream_id"
    ∷ []

abbrev pub filter_pipe : Option Text → List Text
unfolding units
filter_pipe none = []
filter_pipe (some condition) = (units "filter " ++ condition) ∷ []

-- the pipes that a limit adds
unfoldable pub page_pipes : ServiceLogsQueryOptions → Option ℕ → List Text
unfolding units filter_pipe cursor_tuple_filter log_sort_fields join decimal
page_pipes options none = []
page_pipes options (some limit) =
    (units "hash("
      ++ logs_ql_field (units "_stream")
      ++ units ") as "
      ++ logs_ql_field (units "kudeploy_stream_hash"))
    ∷ (units "hash("
        ++ logs_ql_field (units "_msg")
        ++ units ") as "
        ++ logs_ql_field (units "kudeploy_message_hash"))
    ∷ (filter_pipe (cursor_tuple_filter options.cursor options.mode)
        ++ ((units "sort by ("
              ++ join (units ", ") (map logs_ql_field log_sort_fields)
              ++ units ")"
              ++ (if options.descending then units " desc" else [])
              ++ units " limit "
              ++ decimal limit)
            ∷ []))

unfoldable pub fields_of : Option ℕ → List Text
unfolding log_base_fields log_generated_fields
fields_of none = log_base_fields
fields_of (some limit) = log_base_fields ++ log_generated_fields

unfoldable pub build_service_logs_query : ServiceLogsQueryInput → ServiceLogsQueryOptions → Text
unfolding join label_filters page_pipes fields_of units
build_service_logs_query input options = join (units " | ") (
    label_filters input
    ∷ (page_pipes options options.limit
        ++ ((units "fields " ++ join (units ", ") (map logs_ql_field (fields_of options.limit)))
            ∷ [])))
