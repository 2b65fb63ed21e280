-- ===== src/Promql/Examples.antt =====
-- The theorems on quoting for values that try to get out.
use kudeploy.Prelude.{false, ◌≡◌, some, ◌++◌, units}
use kudeploy.Promql.{prometheus_string, escape_regex}
use kudeploy.Promql.Quoting.{
  read_quoted, read_literal, read_quoted-prometheus_string, read_literal-escape_regex,
}

read_quoted-prometheus_string_example :
    read_quoted (prometheus_string (units "a\"} or up{b=\"\\") ++ units ",c")
    ≡ some (units "a\"} or up{b=\"\\", units ",c")
read_quoted-prometheus_string_example =
    read_quoted-prometheus_string (units "a\"} or up{b=\"\\") (units ",c")

read_literal-escape_regex_example :
    read_literal false (escape_regex (units "pod-1|.*")) ≡ some (units "pod-1|.*")
read_literal-escape_regex_example = read_literal-escape_regex (units "pod-1|.*")
