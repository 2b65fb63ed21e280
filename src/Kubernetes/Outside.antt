-- ===== src/Kubernetes/Outside.antt =====
-- What the services take from outside beside the cluster: the language's dates, the connection
-- library and the generator of ids.
use kudeploy.Prelude.{Text, Option}
use kudeploy.Prelude.Int.{ℤ}
use kudeploy.Prelude.Exec.{Exec}
use kudeploy.Connection.Manager.{Runtime}
use kudeploy.Kubernetes.Dates.{Date}

pub record Outside (W : Type 0) : Type 0 where
  pub runtime : Runtime
  pub parse_date : Text → Date
  -- `String(Sonyflake.next())`
  pub next_id : Exec W Text
  -- `Number(text)` where it is finite, for the texts of ports, which are integers
  pub number_of : Text → Option ℤ
