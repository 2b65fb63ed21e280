-- ===== src/Logs/Pages.antt =====
-- Going on from a page at its end cursor.
use Prim.Native.Nat.{Ordering}
use kudeploy.Prelude.{
  ℕ, zero, suc, ◌≡◌, refl, sym, ap, ◌∙◌, Bool, true, false, ◌&&◌, Option, none, some, List, [], ◌∷◌,
  ◌++◌, map, Text, arith, ltb, leb, ◌||◌, All-take, All, All-filter, filter, take, drop,
  take-append-drop, Bool-cases, inl, inr, length,
}
use kudeploy.Connection.Sort.Orders.{IsOrder, Always}
use kudeploy.Logs.Order.{
  ServiceLog, ServiceLogCursorPayload, service_log_cursor_payload, compare_sort_tuples,
  compare_service_logs_asc, compare_service_logs_desc, compare_service_log_to_cursor,
}
use kudeploy.Logs.Order.Laws.{
  IsComparable, compare_sort_tuples-IsOrder, IsOrder-self, IsOrder-gt, IsOrder-lt_trans,
}
use kudeploy.Logsql.{forward}
use kudeploy.Logs.Sorted.{
  IsChain, sort-chain, split_last, filter-All, All-filter_keeps, All-middle, filter-filter, All-map,
  append_one,
}
use kudeploy.Logs.{
  LogsOutside, ServiceLogConnection, ServiceLogEdge, is_lt, is_beyond, filtered_rows, page_rows,
  to_connection, last_of, order_of_mode, any_rows, max_page_size,
}

lt_of_test : (r : Ordering) → is_lt r ≡ true → r ≡ Ordering.lt
lt_of_test Ordering.lt h = refl
lt_of_test Ordering.eq h = ground arith
lt_of_test Ordering.gt h = ground arith

module _ {W : Type 0} (o : LogsOutside W)
    (locale : IsOrder (Always {A = Text}) o.locale_compare) where
  abbrev before : ServiceLog → ServiceLog → Ordering
  before x y =
      compare_sort_tuples o.parse_date o.locale_compare (service_log_cursor_payload x)
        (service_log_cursor_payload y)

  abbrev pub IsPlain : ServiceLog → Type 0
  IsPlain x = IsComparable o.parse_date o.locale_compare locale (service_log_cursor_payload x)

  -- Rows from the latest to the earliest, none of them twice.
  abbrev pub IsDescending : List ServiceLog → Type 0
  IsDescending [] = Unit
  IsDescending (x ∷ xs) = All (λ y. before y x ≡ Ordering.lt) xs × IsDescending xs

  order :
      IsOrder
        (IsComparable o.parse_date o.locale_compare locale)
        (compare_sort_tuples o.parse_date o.locale_compare)
  order = compare_sort_tuples-IsOrder o.parse_date o.locale_compare locale

  before_self : (x : ServiceLog) → IsPlain x → before x x ≡ Ordering.eq
  before_self x p = IsOrder-self order (service_log_cursor_payload x) p

  is_beyond-forward :
      (l x : ServiceLog)
      → before x l ≡ Ordering.lt
      → is_beyond o forward (service_log_cursor_payload l) x ≡ true
  unfolding is_beyond compare_service_log_to_cursor
  is_beyond-forward l x e = rw e refl

  is_beyond-not :
      (l x : ServiceLog)
      → IsPlain l
      → IsPlain x
      → before l x ≡ Ordering.lt
      → is_beyond o forward (service_log_cursor_payload l) x ≡ false
  unfolding is_beyond compare_service_log_to_cursor
  is_beyond-not l x p q e =
      let f : before x l ≡ Ordering.gt =
        IsOrder-gt order (service_log_cursor_payload l) (service_log_cursor_payload x) p q e in
      rw f refl

  -- Among rows in order, those before one of them are those that follow it.
  filter-before :
      (a : List ServiceLog) (l : ServiceLog) (b : List ServiceLog)
      → All IsPlain (a ++ (l ∷ b))
      → IsDescending (a ++ (l ∷ b))
      → filter (is_beyond o forward (service_log_cursor_payload l)) (a ++ (l ∷ b)) ≡ b
  unfolding filter
  filter-before [] l b p d =
      let kept =
        filter-All (is_beyond o forward (service_log_cursor_payload l)) b
          (All-map (is_beyond-forward l) b d.0) in
      let itself : is_beyond o forward (service_log_cursor_payload l) l ≡ false =
        unfold is_beyond compare_service_log_to_cursor in rw (before_self l p.0) refl in
      rw itself kept
  filter-before (x ∷ a) l b p d =
      let later = All-middle (λ y. before y x ≡ Ordering.lt) a l b d.0 in
      let dropped = is_beyond-not l x (All-middle IsPlain a l b p.1) p.0 later in
      rw dropped (filter-before a l b p.1 d.1)

  IsDescending-filter :
      (p : ServiceLog → Bool) (xs : List ServiceLog) → IsDescending xs → IsDescending (filter p xs)
  unfolding filter
  IsDescending-filter p [] h = tt
  IsDescending-filter p (x ∷ xs) h = elim (Bool-cases (p x)) [
    | inl e ↦
        rw e
          (All-filter_keeps (λ y. before y x ≡ Ordering.lt) p xs h.0, IsDescending-filter p xs h.1)
    | inr e ↦ rw e (IsDescending-filter p xs h.1)
  ]

  IsDescending-IsChain :
      (xs : List ServiceLog)
      → IsDescending xs
      → IsChain (compare_service_logs_desc o.parse_date o.locale_compare) xs
  unfolding compare_service_logs_desc compare_service_logs_asc
  IsDescending-IsChain [] h = tt
  IsDescending-IsChain (x ∷ []) h = (tt, tt)
  IsDescending-IsChain (x ∷ y ∷ xs) h = (rw h.0.0 refl, IsDescending-IsChain (y ∷ xs) h.1)

  is_beyond-lt :
      (c : ServiceLogCursorPayload) (x : ServiceLog)
      → is_beyond o forward c x ≡ true
      → compare_sort_tuples o.parse_date o.locale_compare (service_log_cursor_payload x) c
        ≡ Ordering.lt
  unfolding is_beyond compare_service_log_to_cursor
  is_beyond-lt c x h = lt_of_test _ h

  is_beyond-of_lt :
      (c : ServiceLogCursorPayload) (x : ServiceLog)
      → compare_sort_tuples o.parse_date o.locale_compare (service_log_cursor_payload x) c
        ≡ Ordering.lt
      → is_beyond o forward c x ≡ true
  unfolding is_beyond compare_service_log_to_cursor
  is_beyond-of_lt c x h = rw h refl

  -- What is before a row that is before the cursor is before the cursor.
  below_cursor :
      (c : ServiceLogCursorPayload) (l r : ServiceLog)
      → IsComparable o.parse_date o.locale_compare locale c
      → IsPlain l
      → IsPlain r
      → is_beyond o forward c l ≡ true
      → (is_beyond o forward (service_log_cursor_payload l) r && is_beyond o forward c r)
        ≡ is_beyond o forward (service_log_cursor_payload l) r
  below_cursor c l r pc pl pr h =
      elim (Bool-cases (is_beyond o forward (service_log_cursor_payload l) r)) [
        | inr e ↦ rw e refl
        | inl e ↦
            let lower =
              IsOrder-lt_trans order (service_log_cursor_payload r) (service_log_cursor_payload l) c
                pr pl pc (is_beyond-lt (service_log_cursor_payload l) r e) (is_beyond-lt c l h) in
            rw (e, is_beyond-of_lt c r lower) refl
      ]

  abbrev pub CursorIsPlain : Option ServiceLogCursorPayload → Type 0
  CursorIsPlain none = Unit
  CursorIsPlain (some c) = IsComparable o.parse_date o.locale_compare locale c

  pub filtered-IsPlain :
      (cursor : Option ServiceLogCursorPayload) (rows : List ServiceLog)
      → All IsPlain rows
      → IsDescending rows
      → All IsPlain (filtered_rows o forward cursor rows)
        × IsDescending (filtered_rows o forward cursor rows)
  unfolding filtered_rows
  filtered-IsPlain none rows p d = (p, d)
  filtered-IsPlain (some c) rows p d = (
    All-filter_keeps IsPlain (is_beyond o forward c) rows p,
    IsDescending-filter (is_beyond o forward c) rows d,
  )

  -- Filtering by a row of the page is filtering what the page came from.
  filtered-again :
      (cursor : Option ServiceLogCursorPayload) (rows : List ServiceLog) (l : ServiceLog)
      (a b : List ServiceLog)
      → CursorIsPlain cursor
      → All IsPlain rows
      → filtered_rows o forward cursor rows ≡ a ++ (l ∷ b)
      → filtered_rows o forward (some (service_log_cursor_payload l)) rows
        ≡ filter
            (is_beyond o forward (service_log_cursor_payload l))
            (filtered_rows o forward cursor rows)
  unfolding filtered_rows
  filtered-again none rows l a b c p e = refl
  filtered-again (some c) rows l a b pc p e =
      let plain = All-filter_keeps IsPlain (is_beyond o forward c) rows p in
      let pl : IsPlain l = All-middle IsPlain a l b (rw e at plain) in
      let passes = All-filter (is_beyond o forward c) rows in
      let pass = All-middle (λ x. is_beyond o forward c x ≡ true) a l b (rw e at passes) in
      sym (
        filter-filter (is_beyond o forward c) (is_beyond o forward (service_log_cursor_payload l))
          rows (All-map (λ r pr. below_cursor c l r pc pl pr pass) rows p))

  abbrev pub nodes_of : ServiceLogConnection → List ServiceLog
  nodes_of connection = map (λ (e : ServiceLogEdge). e.node) connection.edges

  map_nodes :
      (f : ServiceLog → ServiceLogEdge)
      → ((x : ServiceLog) → (f x).node ≡ x)
      → (xs : List ServiceLog) → map (λ (e : ServiceLogEdge). e.node) (map f xs) ≡ xs
  map_nodes f h [] = refl
  map_nodes f h (x ∷ xs) = rw (h x, map_nodes f h xs) refl

  pub nodes-to_connection :
      (cursor : Option ServiceLogCursorPayload) (limit : ℕ) (rows : List ServiceLog)
      → All IsPlain rows
      → IsDescending rows
      → nodes_of (to_connection o cursor limit forward rows)
        ≡ take limit (filtered_rows o forward cursor rows)
  unfolding to_connection page_rows
  nodes-to_connection cursor limit rows p d =
      let sorted =
        sort-chain (compare_service_logs_desc o.parse_date o.locale_compare)
          (filtered_rows o forward cursor rows)
          (IsDescending-IsChain _ (filtered-IsPlain cursor rows p d).1) in
      rw sorted (map_nodes _ (λ x. refl) _)

  -- What follows the last row of a page is what follows the page.
  pub rest-filtered :
      (cursor : Option ServiceLogCursorPayload) (limit : ℕ) (rows : List ServiceLog)
      (l : ServiceLog)
      → CursorIsPlain cursor
      → All IsPlain rows
      → IsDescending rows
      → last_of (take limit (filtered_rows o forward cursor rows)) ≡ some l
      → (filtered_rows o forward (some (service_log_cursor_payload l)) rows
          ≡ drop limit (filtered_rows o forward cursor rows))
        × IsPlain l
  rest-filtered cursor limit rows l pc p d h =
      let all = filtered_rows o forward cursor rows in
      let (a, ends) = split_last (take limit all) l h in
      let parts : all ≡ a ++ (l ∷ drop limit all) =
        sym (take-append-drop limit all)
        ∙ ap (λ t. t ++ drop limit all) ends
        ∙ append_one a l (drop limit all) in
      let (plain, sorted) = filtered-IsPlain cursor rows p d in
      let again = filtered-again cursor rows l a (drop limit all) pc p parts in
      let next = ap (filter (is_beyond o forward (service_log_cursor_payload l))) parts in
      let left = filter-before a l (drop limit all) (rw parts at plain) (rw parts at sorted) in
      (again ∙ next ∙ left, All-middle IsPlain a l (drop limit all) (rw parts at plain))

  pub has_next_page-to_connection :
      (cursor : Option ServiceLogCursorPayload) (limit : ℕ) (rows : List ServiceLog)
      → All IsPlain rows
      → IsDescending rows
      → (to_connection o cursor limit forward rows).has_next_page ≡ (
          any_rows (take limit (filtered_rows o forward cursor rows))
          && (ltb limit (length rows) || leb max_page_size (length rows)))
  unfolding to_connection page_rows order_of_mode
  has_next_page-to_connection cursor limit rows p d =
      let sorted =
        sort-chain (compare_service_logs_desc o.parse_date o.locale_compare)
          (filtered_rows o forward cursor rows)
          (IsDescending-IsChain _ (filtered-IsPlain cursor rows p d).1) in
      rw sorted refl

  -- The cursor lets through the rows that it has let through.
  pub filtered-take :
      (cursor : Option ServiceLogCursorPayload) (n : ℕ) (rows : List ServiceLog)
      → filtered_rows o forward cursor (take n (filtered_rows o forward cursor rows))
        ≡ take n (filtered_rows o forward cursor rows)
  unfolding filtered_rows
  filtered-take none n rows = refl
  filtered-take (some c) n rows =
      filter-All (is_beyond o forward c) _ (
        All-take _ n (filter (is_beyond o forward c) rows)
          (All-filter (is_beyond o forward c) rows))

  pub IsDescending-take :
      (n : ℕ) (xs : List ServiceLog) → IsDescending xs → IsDescending (take n xs)
  unfolding take
  IsDescending-take (suc n) (x ∷ xs) h =
      (All-take (λ y. before y x ≡ Ordering.lt) n xs h.0, IsDescending-take n xs h.1)
  IsDescending-take (suc n) [] h = tt
  IsDescending-take zero xs h = tt
