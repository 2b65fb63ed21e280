-- ===== src/Logs/Order.antt =====
-- app/kubernetes-logs/service-log-order.ts: the order of log rows, and rows against cursors.
pub mod Laws
use Prim.Native.Nat.{Ordering}
use kudeploy.Prelude.{
  ℕ, zero, suc, ◌+◌, ◌-◌, ◌*◌, Bool, true, false, Option, none, some, List, [], ◌∷◌, ◌++◌, Text,
  units, ◌==◌, nat_eq, leb, or_else, if◌then◌else◌, take, drop, length,
}
use kudeploy.Prelude.Int.{ℤ, pos, negsuc, int_ltb, int_beq}
use kudeploy.Connection.Sort.Orders.{then_by}
use kudeploy.Kubernetes.Dates.{Date}
use kudeploy.Logsql.{is_integer, is_safe_log_time}

-- kubernetes-logs.object.ts
pub record ServiceLog : Type 0 where
  pub id : Text
  pub timestamp : ℤ
  pub message : Text
  pub level : Option Text
  pub namespace : Option Text
  pub pod_name : Option Text
  pub container_name : Option Text
  pub deployment_name : Option Text
  pub raw_time : Text
  pub stream : Option Text
  pub stream_id : Option Text
  pub stream_hash : Option Text
  pub message_hash : Option Text

pub record ServiceLogCursorPayload : Type 0 where
  pub id : Text
  pub mh : Text
  pub sh : Text
  pub sid : Text
  pub t : Text

unfoldable pub service_log_cursor_payload : ServiceLog → ServiceLogCursorPayload
service_log_cursor_payload log = record {
  id = log.id;
  mh = or_else log.message_hash [];
  sh = or_else log.stream_hash [];
  sid = or_else log.stream_id [];
  t = log.raw_time;
}

-- the number that decimal digits stand for
unfoldable pub digits_value : ℕ → Text → ℕ
digits_value acc [] = acc
digits_value acc (c ∷ s) = digits_value (acc * 10 + (c - 48)) s

abbrev pub negated : ℕ → ℤ
negated zero = pos 0
negated (suc n) = negsuc n

abbrev signed_value : Text → ℤ
signed_value [] = pos 0
signed_value (c ∷ s) = if c == 45 then negated (digits_value 0 s) else pos (digits_value 0 (c ∷ s))

unfoldable pub to_big_int : Text → Option ℤ
unfolding is_integer digits_value
to_big_int value = if is_integer value then some (signed_value value) else none

abbrev pub repeated : ℕ → ℕ → Text
repeated zero c = []
repeated (suc n) c = c ∷ repeated n c

-- `s.padEnd(9, '0')`
unfoldable pub pad_end : Text → Text
pad_end s = s ++ repeated (9 - length s) 48

-- `ms * 1_000_000n + nanos`
unfoldable pub nanoseconds : ℤ → ℕ → ℤ
nanoseconds (pos ms) nanos = pos (ms * 1000000 + nanos)
nanoseconds (negsuc ms) nanos =
    let below = (ms + 1) * 1000000 in
    if leb below nanos then pos (nanos - below) else negsuc (below - nanos - 1)

-- The digits after the point; what is matched is a `Z`, or a point, digits and a `Z`.
unfoldable pub fraction_of : Text → Text
unfolding take drop
fraction_of value = take (length value - 21) (drop 20 value)

abbrev scaled : Date → ℕ → Option ℤ
scaled none nanos = none
scaled (some ms) nanos = some (nanoseconds ms nanos)

-- a number against a number
abbrev pub int_order : ℤ → ℤ → Ordering
int_order a b =
    if int_beq a b then Ordering.eq else if int_ltb a b then Ordering.lt else Ordering.gt

abbrev pub compare_numbers : Option ℤ → Option ℤ → Ordering → Ordering
compare_numbers (some a) (some b) otherwise = int_order a b
compare_numbers _ _ otherwise = otherwise

-- Two times that are the same number are compared as texts.
abbrev pub compare_times : Option ℤ → Option ℤ → Ordering → Ordering
compare_times (some a) (some b) otherwise = then_by (int_order a b) otherwise
compare_times _ _ otherwise = otherwise

module _ (parse_date : Text → Date) where
  unfoldable pub raw_time_to_epoch_nanoseconds : Text → Option ℤ
  unfolding is_safe_log_time nanoseconds digits_value pad_end fraction_of take units
  raw_time_to_epoch_nanoseconds value =
      if is_safe_log_time value
      then scaled (parse_date (take 19 value ++ units ".000Z"))
          (digits_value 0 (pad_end (fraction_of value)))
      else scaled (parse_date value) 0

  module _ (locale_compare : Text → Text → Ordering) where
    unfoldable pub compare_sort_values : Text → Text → Ordering
    unfolding to_big_int
    compare_sort_values left right =
        compare_numbers (to_big_int left) (to_big_int right) (locale_compare left right)

    unfoldable pub compare_raw_times : Text → Text → Ordering
    unfolding raw_time_to_epoch_nanoseconds
    compare_raw_times left right =
        compare_times (raw_time_to_epoch_nanoseconds left) (raw_time_to_epoch_nanoseconds right)
          (locale_compare left right)

    unfoldable pub compare_sort_tuples :
        ServiceLogCursorPayload → ServiceLogCursorPayload → Ordering
    unfolding compare_raw_times compare_sort_values
    compare_sort_tuples left right = then_by (compare_raw_times left.t right.t) (
        then_by (compare_sort_values left.sh right.sh) (
          then_by (compare_sort_values left.mh right.mh)
            (then_by (locale_compare left.sid right.sid) (locale_compare left.id right.id))))

    unfoldable pub compare_service_logs_asc : ServiceLog → ServiceLog → Ordering
    unfolding compare_sort_tuples service_log_cursor_payload
    compare_service_logs_asc left right =
        compare_sort_tuples (service_log_cursor_payload left) (service_log_cursor_payload right)

    unfoldable pub compare_service_logs_desc : ServiceLog → ServiceLog → Ordering
    unfolding compare_service_logs_asc
    compare_service_logs_desc left right = compare_service_logs_asc right left

    unfoldable pub compare_service_log_to_cursor : ServiceLog → ServiceLogCursorPayload → Ordering
    unfolding compare_sort_tuples service_log_cursor_payload
    compare_service_log_to_cursor log cursor =
        compare_sort_tuples (service_log_cursor_payload log) cursor
