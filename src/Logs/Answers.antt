-- ===== src/Logs/Answers.antt =====
-- What a request for the log of a service is answered with (kubernetes-logs.service.ts).
use kudeploy.Prelude.{
  min, or_else, ◌+◌, ℕ, ◌-◌, ◌≡◌, refl, Bool, true, false, ◌&&◌, ◌||◌, is_some, units, Option, none,
  some, List, [], ◌∷◌, map, Text, arith, ◌⊎◌, inl, inr, if◌then◌else◌, ◌≤◌, length, length-take,
  length-drop,
}
use kudeploy.Prelude.Exec.{
  Exec, Result, ok, err, and_then, with_result, Result-cases, recover, continue, Failure,
  plain_error, pure, try_catch,
}
use kudeploy.Prelude.Int.{ℤ, pos, negsuc}
use kudeploy.Project.{Workspace}
use kudeploy.Logsql.{build_service_logs_query, QueryMode, backward, forward}
use kudeploy.Logs.Order.{ServiceLog, ServiceLogCursorPayload}
use kudeploy.Kubernetes.Names.{to_kubernetes_project_name, to_kubernetes_service_name}
use kudeploy.Logs.Times.{cursor_start, cursor_end, before_by}
use kudeploy.Logs.{
  max_lookback_ms, query_cursor_of, LogsOutside, ServiceLogsOptions, ServiceLogConnection, Paging,
  clamp_page_size, get_paging, empty_connection, max_page_size, min_page_size, page_rows,
  to_connection, decode_service_log_cursor, order_of_mode, if_configured, queried, get_service_logs,
}

clamp_page_size-bounds :
    (value : Option ℤ)
    → (min_page_size ≤ clamp_page_size value) × (clamp_page_size value ≤ max_page_size)
unfolding clamp_page_size
clamp_page_size-bounds none = (omega arith, omega arith)
clamp_page_size-bounds (some (negsuc n)) = (omega arith, omega arith)
clamp_page_size-bounds (some (pos n)) = (ground arith, ground arith)

abbrev IsBounded : Paging → Type 0
IsBounded paging = (min_page_size ≤ paging.limit) × (paging.limit ≤ max_page_size)

abbrev AllBounded : Result Paging → Type 0
AllBounded (ok paging) = IsBounded paging
AllBounded (err e) = Unit

bounded_if :
    (is_forward is_backward : Bool) (first last : Option ℤ) (e : Failure)
    → AllBounded (
        if is_forward && is_backward
        then err e
        else if is_forward
        then ok (record { limit = clamp_page_size first; mode = forward })
        else if is_backward
        then ok (record { limit = clamp_page_size last; mode = backward })
        else ok (record { limit = clamp_page_size first; mode = forward }))
bounded_if true true first last e = tt
bounded_if true false first last e = clamp_page_size-bounds first
bounded_if false true first last e = clamp_page_size-bounds last
bounded_if false false first last e = clamp_page_size-bounds first

get_paging-bounded : (options : ServiceLogsOptions) → AllBounded (get_paging options)
unfolding get_paging
get_paging-bounded options =
    bounded_if (is_some options.first || is_some options.after)
      (is_some options.last || is_some options.before) options.first options.last
      (plain_error (units "paging must use either first/after or last/before"))

length-map {ℓ κ} :
    {A : Type ℓ} {B : Type κ} (f : A → B) (xs : List A) → length (map f xs) ≡ length xs
length-map f [] = refl
length-map f (x ∷ xs) = omega (arith, length-map f xs)

module _ {W : Type 0} (o : LogsOutside W) where
  length-page_rows :
      (mode : QueryMode) (limit : ℕ) (rows : List ServiceLog)
      → length (page_rows o mode limit rows) ≤ limit
  unfolding page_rows
  length-page_rows forward limit rows = omega (arith, length-take limit rows)
  length-page_rows backward limit rows = omega (arith, length-drop (length rows - limit) rows)

  edges-to_connection :
      (cursor : Option ServiceLogCursorPayload) (limit : ℕ) (mode : QueryMode)
      (rows : List ServiceLog)
      → length (to_connection o cursor limit mode rows).edges ≤ limit
  unfolding to_connection
  edges-to_connection cursor limit mode rows = rw (length-map _ _) (length-page_rows mode limit _)

  -- What the log store is asked for: the rows of the service, beyond the cursor, and one row more
  -- than the page has, as far as the largest page; in time from 30 days ago, or from the cursor, until
  -- now, or until the cursor.
  module _ (workspace : Workspace) (project_id service_id : Text) (options : ServiceLogsOptions)
      (paging : Paging) (cursor : Option ServiceLogCursorPayload) where
    abbrev pub row_limit : ℕ
    row_limit = min (paging.limit + 1) max_page_size

    abbrev pub asked : W → Exec W (List ServiceLog)
    asked v =
        let now = or_else options.now (o.clock v) in
        o.query
          (build_service_logs_query
            (record {
              workspace_id = workspace.id;
              project_id = to_kubernetes_project_name project_id;
              service_id = to_kubernetes_service_name service_id;
            })
            (record {
              cursor = query_cursor_of cursor;
              limit = some row_limit;
              mode = some paging.mode;
              descending = order_of_mode paging.mode;
            }))
          (record {
            start = cursor_start o.parse_date paging.mode cursor (before_by max_lookback_ms now);
            end = cursor_end o.parse_date o.to_iso_string paging.mode cursor now;
            limit = row_limit;
            descending = order_of_mode paging.mode;
          })

    -- The answer to a request in the state `w`, with the state after it: the page of the rows that the
    -- store gives; or the empty page, if the store is not set up, the test of that throws, or the
    -- store throws.
    abbrev pub IsAnswer : W → ServiceLogConnection → W → Type 0
    IsAnswer w c w' =
        ((v : W) × (rows : List ServiceLog) × (o.is_configured w ≡ (ok true, v))
          × (asked v v ≡ (ok rows, w'))
          × (c ≡ to_connection o cursor paging.limit paging.mode rows))
        ⊎ ((c ≡ empty_connection false)
            × ((o.is_configured w ≡ (ok false, w'))
                ⊎ (((e : Failure) × (o.is_configured w ≡ (err e, w')))
                    ⊎ ((v : W) × (e : Failure) × (o.is_configured w ≡ (ok true, v))
                        × (asked v v ≡ (err e, w'))))))

    edges-IsAnswer :
        (w w' : W) (c : ServiceLogConnection) → IsAnswer w c w' → length c.edges ≤ paging.limit
    unfolding empty_connection
    edges-IsAnswer w w' c (inl (v, rows, _, _, e)) =
        rw e (edges-to_connection cursor paging.limit paging.mode rows)
    edges-IsAnswer w w' c (inr (e, _)) = rw e (omega arith)

    abbrev finished : Result (List ServiceLog) × W → Result ServiceLogConnection × W
    finished r =
        recover (continue r (λ rows. pure (to_connection o cursor paging.limit paging.mode rows)))
          (λ e. pure (empty_connection false))

    -- What the store gives, or throws, becomes the answer.
    recovered :
        (w v : W) (r : Result (List ServiceLog) × W)
        → o.is_configured w ≡ (ok true, v)
        → asked v v ≡ r
        → (c : ServiceLogConnection) × (w' : W) × (finished r ≡ (ok c, w')) × IsAnswer w c w'
    recovered w v (ok rows, w') set_up e = (
      to_connection o cursor paging.limit paging.mode rows,
      w',
      refl,
      inl (v, rows, set_up, e, refl),
    )
    recovered w v (err f, w') set_up e =
        (empty_connection false, w', refl, inr (refl, inr (inr (v, f, set_up, e))))

    abbrev rest_of : Bool → Exec W ServiceLogConnection
    rest_of configured =
        try_catch
          (if_configured o (queried o workspace project_id service_id options paging cursor)
            configured)
          (λ e. pure (empty_connection false))

    checked :
        (w : W) (r : Result Bool × W)
        → o.is_configured w ≡ r
        → (c : ServiceLogConnection) × (w' : W) × (continue (recover r (λ e. pure false)) rest_of
            ≡ (ok c, w'))
          × IsAnswer w c w'
    unfolding if_configured queried
    checked w (ok true, v) e = recovered w v (asked v v) e refl
    checked w (ok false, v) e = (empty_connection false, v, refl, inr (refl, inl e))
    checked w (err f, v) e = (empty_connection false, v, refl, inr (refl, inr (inl (f, e))))

  -- The page and the cursor that a request asks for.
  abbrev pub requested : ServiceLogsOptions → Result (Paging × Option ServiceLogCursorPayload)
  requested options = and_then (get_paging options) (λ paging.
      with_result
        (decode_service_log_cursor o
          (if order_of_mode paging.mode then options.after else options.before))
        (λ cursor. (paging, cursor)))

  module _ (workspace : Workspace) (project_id service_id : Text)
      (options : ServiceLogsOptions) where
    abbrev pub Answered :
        W
        → Result ServiceLogConnection × W
        → Result (Paging × Option ServiceLogCursorPayload)
        → Type 0
    Answered w r (err e) = r ≡ (err e, w)
    Answered w r (ok (paging, cursor)) =
        (c : ServiceLogConnection) × (w' : W) × (r ≡ (ok c, w'))
        × IsAnswer workspace project_id service_id options paging cursor w c w'
        × (length c.edges ≤ paging.limit)
        × (min_page_size ≤ paging.limit)
        × (paging.limit ≤ max_page_size)

    -- A request for the log of a service whose paging or cursor is refused fails with that error and
    -- changes nothing; any other is answered, whatever the log store does or throws. The answer is the
    -- page of the rows that the store gives for the query of the service, the cursor and the limit;
    -- or the page that is not available, exactly if the store is not set up or throws. The page has at
    -- most as many rows as its limit, which is from 1000 to 10000.
    pub get_service_logs-answers :
        (w : W)
        → Answered w
            (get_service_logs o workspace project_id service_id options w)
            (requested options)
    unfolding get_service_logs
    get_service_logs-answers w = elim (Result-cases (get_paging options)) [
      | inr (e, refused) ↦ rw refused refl
      | inl (paging, accepted) ↦
          elim (Result-cases (
            decode_service_log_cursor o
              (if order_of_mode paging.mode then options.after else options.before))) [
                | inr (e, refused) ↦ rw (accepted, refused) refl
                | inl (cursor, decoded) ↦
                    let (c, w', found, answer) =
                      checked workspace project_id service_id options paging cursor w
                        (o.is_configured w) refl in
                    let few =
                      edges-IsAnswer workspace project_id service_id options paging cursor w w' c
                        answer in
                    let (low, high) = rw accepted at (get_paging-bounded options) in
                    rw (accepted, decoded) (c, w', found, answer, few, low, high)
              ]
    ]
