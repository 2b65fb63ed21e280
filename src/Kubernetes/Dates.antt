-- ===== src/Kubernetes/Dates.antt =====
-- `toDate` of the services. What `new Date(text)` reads is a parameter: it depends on the engine
-- for all but one format.
use kudeploy.Prelude.{Option, none, some, Text, non_empty, if◌then◌else◌}
use kudeploy.Prelude.Int.{ℤ, pos}

-- A `Date` by its `getTime`; `none` is the invalid date.
abbrev pub Date : Type 0
Date = Option ℤ

abbrev pub epoch : Date
epoch = some (pos 0)

unfoldable pub to_date : (Text → Date) → Option Text → Date
unfolding non_empty
to_date parse_date none = epoch
to_date parse_date (some value) = if non_empty value then parse_date value else epoch
