-- ===== src/Logsql/Examples.antt =====
-- The theorem on filters for a field and a value that try to get out.
use kudeploy.Prelude.{refl, all, ◌≡◌, some, ◌++◌, units}
use kudeploy.Logsql.{exact_filter}
use kudeploy.Logsql.Reading.{read_exact, read_exact-exact_filter}

read_exact-exact_filter_example :
    read_exact (exact_filter (units "pod (a.b") (units "x\" OR *:\"\\") ++ units " AND b:=\"c\"")
    ≡ some (units "pod (a.b", units "x\" OR *:\"\\", units " AND b:=\"c\"")
unfolding all units
read_exact-exact_filter_example =
    read_exact-exact_filter (units "pod (a.b") (units "x\" OR *:\"\\") (units " AND b:=\"c\"") refl
