-- ===== src/Logs/Examples.antt =====
-- The theorems on a log of three rows within a second.
use kudeploy.Prelude.{
  ℕ, ◌≡◌, refl, true, false, Option, none, some, List, [], ◌∷◌, Text, units, arith,
}
use kudeploy.Prelude.Exec.{pure, throw, thrown}
use kudeploy.Prelude.Int.{pos}
use kudeploy.Connection.Value.{text_ltb}
use kudeploy.Connection.Sort.Orders.{IsOrder, Always, by_test, by_test-IsOrder, text_ltb-IsStrict}
use kudeploy.Logs.Order.{
  ServiceLog, service_log_cursor_payload, compare_sort_tuples, raw_time_to_epoch_nanoseconds,
  to_big_int,
}
use kudeploy.Logs.Order.Laws.{IsComparable, compare_sort_tuples-IsOrder}
use kudeploy.Logs.{LogsOutside, ServiceLogsOptions, filtered_rows, get_service_logs}
use kudeploy.Logs.Walk.{walk, walk_complete}
use kudeploy.Logs.Answers.{Answered, requested, get_service_logs-answers}

-- A log store that is set up and throws at each query; a text order by code units.
abbrev broken_store : LogsOutside ℕ
broken_store = record {
  is_configured = pure true;
  query = λ query options. throw (thrown none);
  clock = λ w. pos w;
  parse_date = λ s. some (pos 5);
  to_iso_string = λ t. units "1970-01-01T00:00:00.005Z";
  locale_compare = by_test text_ltb;
  parse = λ s. none;
  stringify = λ c. c.id;
}

abbrev row : Text → Text → ServiceLog
row id time = record {
  id = id;
  timestamp = pos 5;
  message = units "ready";
  level = none;
  namespace = none;
  pod_name = none;
  container_name = none;
  deployment_name = none;
  raw_time = time;
  stream = none;
  stream_id = none;
  stream_hash = some (units "17");
  message_hash = some (units "23");
}

abbrev rows : List ServiceLog
rows =
    row (units "c") (units "2026-01-01T00:00:00.3Z")
    ∷ row (units "b") (units "2026-01-01T00:00:00.2Z")
    ∷ row (units "a") (units "2026-01-01T00:00:00.1Z")
    ∷ []

abbrev locale : IsOrder (Always {A = Text}) (by_test text_ltb)
locale = by_test-IsOrder text_ltb-IsStrict

abbrev request : ServiceLogsOptions
request = record { after = none; before = none; first = some (pos 20); last = none; now = none }

compare_sort_tuples-IsOrder_example :
    IsOrder
      (IsComparable broken_store.parse_date (by_test text_ltb) locale)
      (compare_sort_tuples broken_store.parse_date (by_test text_ltb))
compare_sort_tuples-IsOrder_example =
    compare_sort_tuples-IsOrder broken_store.parse_date (by_test text_ltb) locale

walk_complete_example : walk broken_store locale rows 1 3 none ≡ rows
unfolding filtered_rows raw_time_to_epoch_nanoseconds to_big_int compare_sort_tuples
    service_log_cursor_payload kudeploy.Prelude.list_beq
walk_complete_example =
    walk_complete broken_store locale rows 1
      ((refl, refl, refl), ((refl, refl, refl), ((refl, refl, refl), tt)))
      ((refl, (refl, tt)), ((refl, tt), (tt, tt))) 3 none tt (omega arith) (omega arith)
      (omega arith)

-- A log store that gives the rows.
abbrev working_store : LogsOutside ℕ
working_store = record broken_store { query = λ query options. pure rows }

get_service_logs-answers_example :
    Answered working_store
      (record { id = units "1" })
      (units "shop")
      (units "web")
      request
      7
      (get_service_logs working_store
        (record { id = units "1" })
        (units "shop")
        (units "web")
        request
        7)
      (requested working_store request)
get_service_logs-answers_example =
    get_service_logs-answers working_store (record { id = units "1" }) (units "shop") (units "web")
      request 7
