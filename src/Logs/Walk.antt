-- ===== src/Logs/Walk.antt =====
-- Reading the log of a service page by page, from the latest row to the earliest.
use kudeploy.Prelude.{
  ℕ, zero, suc, ◌+◌, ◌≡◌, refl, sym, ap, ◌∙◌, Bool, true, false, ◌&&◌, ◌||◌, Option, none, some,
  List, [], ◌∷◌, ◌++◌, Text, arith, All, All-take, take, drop, take-append-drop, Bool-cases, inl,
  inr, Option-cases, if◌then◌else◌, ◌≤◌, length, length-take, length-drop, min, ltb, leb,
}
use kudeploy.Connection.Sort.Orders.{IsOrder, Always}
use kudeploy.Logs.Order.{ServiceLog, ServiceLogCursorPayload, service_log_cursor_payload}
use kudeploy.Logsql.{forward}
use kudeploy.Logs.{
  LogsOutside, ServiceLogConnection, filtered_rows, to_connection, last_of, any_rows, max_page_size,
}
use kudeploy.Logs.Sorted.{take-take, drop_all, last_of-none}
use kudeploy.Logs.Pages.{
  IsPlain, IsDescending, CursorIsPlain, nodes_of, nodes-to_connection, rest-filtered,
  filtered-IsPlain, filtered-take, IsDescending-take, has_next_page-to_connection,
}

and_right : {a b : Bool} → a ≡ true → (a && b) ≡ false → b ≡ false
and_right h e = ground (arith, h, e)

few :
    (limit n k : ℕ)
    → limit ≤ max_page_size
    → k ≡ min (min (limit + 1) max_page_size) n
    → (ltb limit k || leb max_page_size k) ≡ false
    → n ≤ limit
few limit n k bound e h = ground arith

empty_of_take {ℓ} : {A : Type ℓ} (n : ℕ) (xs : List A) → 1 ≤ n → take n xs ≡ [] → xs ≡ []
unfolding take
empty_of_take n [] low h = refl
empty_of_take zero (x ∷ xs) low h = absurd (omega arith)
empty_of_take (suc n) (x ∷ xs) low h = ground (arith, h)

no_rows {ℓ} : {A : Type ℓ} (xs : List A) → length xs ≤ 0 → xs ≡ []
no_rows [] h = refl
no_rows (x ∷ xs) h = absurd (omega arith)

any_of_last {ℓ} : {A : Type ℓ} (xs : List A) (l : A) → last_of xs ≡ some l → any_rows xs ≡ true
any_of_last [] l h = ground arith
any_of_last (x ∷ xs) l h = refl

module _ {W : Type 0} (o : LogsOutside W) (locale : IsOrder (Always {A = Text}) o.locale_compare)
    (all : List ServiceLog) (limit : ℕ) where
  -- A store with these rows answers with the first ones before the cursor.
  abbrev answer : Option ServiceLogCursorPayload → List ServiceLog
  answer cursor = take (min (limit + 1) max_page_size) (filtered_rows o forward cursor all)

  abbrev page : Option ServiceLogCursorPayload → ServiceLogConnection
  page cursor = to_connection o cursor limit forward (answer cursor)

  abbrev onward : Option ServiceLog → (ServiceLog → List ServiceLog) → List ServiceLog
  onward none f = []
  onward (some l) f = f l

  -- The rows of at most so many pages, each from the last row of the one before, while
  -- `hasNextPage` says that there is one.
  unfoldable pub walk : ℕ → Option ServiceLogCursorPayload → List ServiceLog
  walk zero cursor = []
  walk (suc n) cursor =
      let rows = nodes_of o locale (page cursor) in
      rows
      ++ onward (last_of rows) (λ l.
        let rest = walk n (some (service_log_cursor_payload l)) in
        if (page cursor).has_next_page then rest else [])

  module _ (plain : All (IsPlain o locale) all) (sorted : IsDescending o locale all) where
    answer-IsPlain :
        (cursor : Option ServiceLogCursorPayload)
        → All (IsPlain o locale) (answer cursor) × IsDescending o locale (answer cursor)
    answer-IsPlain cursor =
        let (p, d) = filtered-IsPlain o locale cursor all plain sorted in
        (All-take (IsPlain o locale) _ _ p, IsDescending-take o locale _ _ d)

    shown :
        (cursor : Option ServiceLogCursorPayload)
        → limit ≤ max_page_size
        → take limit (filtered_rows o forward cursor (answer cursor))
          ≡ take limit (filtered_rows o forward cursor all)
    shown cursor bound =
        let n = min (limit + 1) max_page_size in
        ap (take limit) (filtered-take o locale cursor n all)
        ∙ take-take n limit (filtered_rows o forward cursor all) (omega arith)

    nodes-page :
        (cursor : Option ServiceLogCursorPayload)
        → limit ≤ max_page_size
        → nodes_of o locale (page cursor) ≡ take limit (filtered_rows o forward cursor all)
    nodes-page cursor bound =
        let (p, d) = answer-IsPlain cursor in
        nodes-to_connection o locale cursor limit (answer cursor) p d ∙ shown cursor bound

    -- After a page that says that it is the last there are no rows.
    last-page :
        (cursor : Option ServiceLogCursorPayload)
        → limit ≤ max_page_size
        → any_rows (take limit (filtered_rows o forward cursor all)) ≡ true
        → (page cursor).has_next_page ≡ false
        → drop limit (filtered_rows o forward cursor all) ≡ []
    last-page cursor bound some_rows h =
        let (p, d) = answer-IsPlain cursor in
        let there = ap any_rows (shown cursor bound) ∙ some_rows in
        let e = sym (has_next_page-to_connection o locale cursor limit (answer cursor) p d) ∙ h in
        drop_all limit (filtered_rows o forward cursor all) (
          few limit (length (filtered_rows o forward cursor all)) (length (answer cursor)) bound
            (length-take (min (limit + 1) max_page_size) (filtered_rows o forward cursor all))
            (and_right there e))

    rest-bound :
        (n : ℕ) (xs : List ServiceLog) → 1 ≤ limit → length xs ≤ suc n → length (drop limit xs) ≤ n
    rest-bound n xs low h = omega (arith, length-drop limit xs)

    -- One page, if the following ones give all that it leaves.
    go_on :
        (cursor : Option ServiceLogCursorPayload)
        (next : Option ServiceLogCursorPayload → List ServiceLog)
        → CursorIsPlain o locale cursor
        → 1 ≤ limit
        → limit ≤ max_page_size
        → ((l : ServiceLog)
            → CursorIsPlain o locale (some (service_log_cursor_payload l))
            → filtered_rows o forward (some (service_log_cursor_payload l)) all
              ≡ drop limit (filtered_rows o forward cursor all)
            → next (some (service_log_cursor_payload l))
              ≡ filtered_rows o forward (some (service_log_cursor_payload l)) all)
        → take limit (filtered_rows o forward cursor all)
            ++ onward (last_of (take limit (filtered_rows o forward cursor all))) (λ l.
              if (page cursor).has_next_page
              then next (some (service_log_cursor_payload l))
              else [])
          ≡ filtered_rows o forward cursor all
    go_on cursor next c low bound step =
        let found = filtered_rows o forward cursor all in
        elim (Option-cases (last_of (take limit found))) [
          | inl e ↦
              let nothing = last_of-none (take limit found) e in
              rw nothing (sym (empty_of_take limit found low nothing))
          | inr (l, e) ↦
              let (rest, pl) = rest-filtered o locale cursor limit all l c plain sorted e in
              elim (Bool-cases (page cursor).has_next_page) [
                | inl more ↦ rw (e, more, step l pl rest, rest, take-append-drop) refl
                | inr done ↦
                    let z = last-page cursor bound (any_of_last _ l e) done in
                    rw (e, done, sym z, take-append-drop) refl
              ]
        ]

    -- If a store has log rows with readable times and integer hashes, from the latest to the earliest
    -- and none twice, and answers each request with the first rows before its cursor, at most one
    -- more than the page holds, then reading page by page, from the last row of each page to the next
    -- while the page says that there is a next one, gives exactly the rows before the first cursor,
    -- each once and in order, with as many pages allowed as there are rows; for a page size from 1 to
    -- 10000 and a text order that is a total preorder.
    pub walk_complete :
        (n : ℕ) (cursor : Option ServiceLogCursorPayload)
        → CursorIsPlain o locale cursor
        → 1 ≤ limit
        → limit ≤ max_page_size
        → length (filtered_rows o forward cursor all) ≤ n
        → walk n cursor ≡ filtered_rows o forward cursor all
    unfolding walk
    walk_complete zero cursor c low bound h = sym (no_rows (filtered_rows o forward cursor all) h)
    walk_complete (suc n) cursor c low bound h =
        ap
          (λ t.
            t
            ++ onward (last_of t) (λ l.
              if (page cursor).has_next_page
              then walk n (some (service_log_cursor_payload l))
              else []))
          (nodes-page cursor bound)
        ∙ go_on cursor (walk n) c low bound (λ l pl rest.
          walk_complete n (some (service_log_cursor_payload l)) pl low bound
            (rw rest (rest-bound n (filtered_rows o forward cursor all) low h)))
