-- ===== src/Logs/Times.antt =====
-- The bounds of a query in time, and the moment after a cursor (kubernetes-logs.service.ts).
use kudeploy.Prelude.{
  ℕ, suc, ◌+◌, ◌-◌, ◌*◌, ◌/◌, ◌%◌, Bool, false, Option, none, some, [], ◌++◌, Text, units, nat_eq,
  leb, if◌then◌else◌, take, drop, length,
}
use kudeploy.Prelude.Int.{ℤ, pos, negsuc, int_ltb, int_text}
use kudeploy.Kubernetes.Dates.{Date}
use kudeploy.Logsql.{QueryMode, backward, forward, fits_pattern}
use kudeploy.Logs.Order.{ServiceLogCursorPayload, negated, repeated, raw_time_to_epoch_nanoseconds}

-- A `Date` by its time, or a text.
pub data TimeBound : Type 0 where
  at : ℤ → TimeBound
  raw : Text → TimeBound

-- `n - k`
unfoldable pub before_by : ℕ → ℤ → ℤ
before_by k (pos n) = if leb k n then pos (n - k) else negsuc (k - n - 1)
before_by k (negsuc n) = negsuc (n + k)

unfoldable pub after_one : ℤ → ℤ
after_one (pos n) = pos (n + 1)
after_one (negsuc n) = negated n

-- the quotient and the remainder of a `bigint`, which truncate toward zero
unfoldable pub quotient : ℤ → ℕ → ℤ
quotient (pos n) d = pos (n / d)
quotient (negsuc n) d = negated (suc n / d)

unfoldable pub remainder : ℤ → ℕ → ℤ
remainder (pos n) d = pos (n % d)
remainder (negsuc n) d = negated (suc n % d)

abbrev thousandfold : ℤ → ℤ
thousandfold (pos n) = pos (n * 1000)
thousandfold (negsuc n) = negated (suc n * 1000)

-- `s.padStart(9, '0')`
abbrev pad_start : Text → Text
pad_start s = repeated (9 - length s) 48 ++ s

-- `iso.replace(/\.\d{3}Z$/, '')`
unfoldable pub without_millis : Text → Text
unfolding take drop fits_pattern units
without_millis iso =
    let start = length iso - 5 in
    if fits_pattern (units ".dddZ") (drop start iso) then take start iso else iso

module _ (parse_date : Text → Date) (to_iso_string : ℤ → Text) where
  unfoldable pub epoch_nanoseconds_to_raw_time : ℤ → Text
  unfolding quotient remainder without_millis int_text units
  epoch_nanoseconds_to_raw_time ns =
      without_millis (to_iso_string (thousandfold (quotient ns 1000000000)))
      ++ (units "." ++ (pad_start (int_text (remainder ns 1000000000)) ++ units "Z"))

  -- A raw time that is no date makes `toISOString` throw; a cursor's time is one.
  abbrev next_raw : Option ℤ → Date → Text
  next_raw (some ns) date = epoch_nanoseconds_to_raw_time (after_one ns)
  next_raw none (some ms) = to_iso_string (after_one ms)
  next_raw none none = []

  unfoldable pub add_one_nanosecond : Text → Text
  unfolding epoch_nanoseconds_to_raw_time raw_time_to_epoch_nanoseconds after_one
  add_one_nanosecond raw_time =
      next_raw (raw_time_to_epoch_nanoseconds parse_date raw_time) (parse_date raw_time)

-- `new Date(text).getTime() < bound`, which an invalid date makes false
abbrev date_ltb : Date → ℤ → Bool
date_ltb none bound = false
date_ltb (some t) bound = int_ltb t bound

abbrev date_gtb : Date → ℤ → Bool
date_gtb none bound = false
date_gtb (some t) bound = int_ltb bound t

unfoldable pub cursor_start :
    (Text → Date) → QueryMode → Option ServiceLogCursorPayload → ℤ → TimeBound
cursor_start parse_date backward (some cursor) lower_bound =
    if date_ltb (parse_date cursor.t) lower_bound then at lower_bound else raw cursor.t
cursor_start parse_date _ _ lower_bound = at lower_bound

unfoldable pub cursor_end :
    (Text → Date) → (ℤ → Text) → QueryMode → Option ServiceLogCursorPayload → ℤ → TimeBound
unfolding add_one_nanosecond
cursor_end parse_date to_iso_string forward (some cursor) now =
    let end = add_one_nanosecond parse_date to_iso_string cursor.t in
    if date_gtb (parse_date end) now then at now else raw end
cursor_end parse_date to_iso_string _ _ now = at now
