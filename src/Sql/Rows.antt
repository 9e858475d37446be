-- ===== src/Sql/Rows.antt =====
-- What ToMap makes of the rows of a query (sql_unmarshal.go).
use mathlib.Core.List.{append-nil}
use hggutils.Common.{
  ℕ, zero, suc, ◌≤◌, ◌≡◌, refl, ap, ◌∙◌, ◌≢◌, List, [], ◌∷◌, ◌++◌, map, some, arith, length,
  get_elem?, drop, All,
}
use hggutils.Common.Text.{Text, text_key, to_lower}
use hggutils.Common.Dict.{Dict, find, put, find-put_self, find-put_ne}
use hggutils.Rpc.Message.{ok}
use hggutils.Sql.{Row, scan, add_entries, read_rows, empty_values, to_map}

-- No column has that name in lower case.
abbrev pub LacksColumn : Text → List Text → Type 0
LacksColumn key = All (λ c. to_lower c ≢ key)

add_entries-LacksColumn :
    (entry : Dict Text Text) (key : Text) (columns values : List Text)
    → LacksColumn key columns
    → find key (add_entries entry columns values) ≡ find key entry
unfolding add_entries
add_entries-LacksColumn entry key [] values h = refl
add_entries-LacksColumn entry key (c ∷ columns) [] h = refl
add_entries-LacksColumn entry key (c ∷ columns) (v ∷ values) (ne, h) =
    add_entries-LacksColumn (put (to_lower c) v entry) key columns values h
    ∙ find-put_ne (to_lower c) key v entry ne

find-add_entries :
    (entry : Dict Text Text) (columns values : List Text) (i : ℕ) (c v : Text)
    → get_elem? columns i ≡ some c
    → get_elem? values i ≡ some v
    → LacksColumn (to_lower c) (drop (suc i) columns)
    → find (to_lower c) (add_entries entry columns values) ≡ some v
unfolding add_entries
find-add_entries entry [] values i c v e f h = cc
find-add_entries entry (d ∷ columns) [] i c v e f h = cc
find-add_entries entry (d ∷ columns) (w ∷ values) zero c v e f h =
    let same : d ≡ c = cc in
    let value : w ≡ v = cc in
    rw (same, value)
      (add_entries-LacksColumn (put (to_lower c) v entry) (to_lower c) columns values h
        ∙ find-put_self (to_lower c) v entry)
find-add_entries entry (d ∷ columns) (w ∷ values) (suc i) c v e f h =
    find-add_entries (put (to_lower d) w entry) columns values i c v e f h

drop-all : (xs : List Text) (n : ℕ) → length xs ≤ n → drop n xs ≡ []
drop-all [] zero h = refl
drop-all [] (suc n) h = refl
drop-all (x ∷ xs) zero h = absurd (omega arith)
drop-all (x ∷ xs) (suc n) h = drop-all xs n (omega arith)

-- A row that Scan has read whole.
abbrev pub IsWhole : List Text → Row → Type 0
IsWhole columns row = length row.scanned ≡ length columns

scan-IsWhole :
    (columns values : List Text) (row : Row)
    → length values ≡ length columns
    → IsWhole columns row
    → scan row values ≡ row.scanned
unfolding scan
scan-IsWhole columns values row n whole =
    ap (◌++◌ row.scanned) (drop-all values (length row.scanned) (omega arith))
    ∙ append-nil row.scanned

length-empty_values : (columns : List Text) → length (empty_values columns) ≡ length columns
unfolding empty_values
length-empty_values [] = refl
length-empty_values (c ∷ columns) = ap suc (length-empty_values columns)

-- The table of whole rows: each row's own values.
abbrev pub table_of : List Text → List Row → List (Dict Text Text)
table_of columns rows = map (λ r. add_entries [] columns r.scanned) rows

read_rows-IsWhole :
    (columns values : List Text) (rows : List Row)
    → length values ≡ length columns
    → All (IsWhole columns) rows
    → read_rows columns values rows ≡ table_of columns rows
unfolding read_rows
read_rows-IsWhole columns values [] n h = refl
read_rows-IsWhole columns values (row ∷ rows) n (whole, h) =
    let here = scan-IsWhole columns values row n whole in
    rw (here, read_rows-IsWhole columns row.scanned rows whole h)

get_elem?-table_of :
    (columns : List Text) (rows : List Row) (j : ℕ) (row : Row)
    → get_elem? rows j ≡ some row
    → get_elem? (table_of columns rows) j ≡ some (add_entries [] columns row.scanned)
get_elem?-table_of columns [] j row e = cc
get_elem?-table_of columns (r ∷ rows) zero row e = cc
get_elem?-table_of columns (r ∷ rows) (suc j) row e = get_elem?-table_of columns rows j row e

length-table_of :
    (columns : List Text) (rows : List Row) → length (table_of columns rows) ≡ length rows
length-table_of columns [] = refl
length-table_of columns (r ∷ rows) = ap suc (length-table_of columns rows)

-- ToMap keeps every value. If all rows are scanned whole, the table has one map for each row, in
-- order, and the map of row j has, under the name of column i in lower case, the row's value i,
-- unless a later column has the same name but for the case.
pub to_map-rows :
    (columns : List Text) (rows : List Row) (j i : ℕ) (row : Row) (c v : Text)
    → All (IsWhole columns) rows
    → get_elem? rows j ≡ some row
    → get_elem? columns i ≡ some c
    → get_elem? row.scanned i ≡ some v
    → LacksColumn (to_lower c) (drop (suc i) columns)
    → (table : List (Dict Text Text)) × (entry : Dict Text Text) × (to_map (ok columns) rows
        ≡ ok table)
      × (length table ≡ length rows)
      × (get_elem? table j ≡ some entry)
      × (find (to_lower c) entry ≡ some v)
unfolding to_map
to_map-rows columns rows j i row c v whole at_row at_column at_value later = (
  table_of columns rows,
  add_entries [] columns row.scanned,
  ap ok (read_rows-IsWhole columns (empty_values columns) rows (length-empty_values columns) whole),
  length-table_of columns rows,
  get_elem?-table_of columns rows j row at_row,
  find-add_entries [] columns row.scanned i c v at_column at_value later,
)

get_elem?-behind :
    (xs ys : List Text) (i : ℕ) (v : Text)
    → length xs ≤ i
    → get_elem? ys i ≡ some v
    → get_elem? (xs ++ drop (length xs) ys) i ≡ some v
get_elem?-behind [] ys i v h e = e
get_elem?-behind (x ∷ xs) ys zero v h e = absurd (omega arith)
get_elem?-behind (x ∷ xs) [] (suc i) v h e = cc
get_elem?-behind (x ∷ xs) (y ∷ ys) (suc i) v h e = get_elem?-behind xs ys i v (omega arith) e

-- A row that Scan fails on shows values of the row before it. If the first row is scanned whole and
-- Scan of the second stops before column i, the map of the second row has the first row's value of
-- that column, and ToMap reports no error.
pub to_map-stale :
    (columns : List Text) (row next_row : Row) (rows : List Row) (i : ℕ) (c v : Text)
    → IsWhole columns row
    → length next_row.scanned ≤ i
    → get_elem? columns i ≡ some c
    → get_elem? row.scanned i ≡ some v
    → LacksColumn (to_lower c) (drop (suc i) columns)
    → (table : List (Dict Text Text)) × (entry : Dict Text Text) × (to_map
          (ok columns)
          (row ∷ next_row ∷ rows)
        ≡ ok table)
      × (get_elem? table 1 ≡ some entry)
      × (find (to_lower c) entry ≡ some v)
unfolding to_map read_rows scan
to_map-stale columns row next_row rows i c v whole short at_column at_value later =
    let values = row.scanned ++ drop (length row.scanned) (empty_values columns) in
    let first : values ≡ row.scanned =
      scan-IsWhole columns (empty_values columns) row (length-empty_values columns) whole in
    let kept : get_elem? values i ≡ some v = rw first at_value in
    (
      read_rows columns (empty_values columns) (row ∷ next_row ∷ rows),
      add_entries [] columns (next_row.scanned ++ drop (length next_row.scanned) values),
      refl,
      refl,
      find-add_entries [] columns (next_row.scanned ++ drop (length next_row.scanned) values) i c v
          at_column (get_elem?-behind next_row.scanned values i v short kept) later,
    )
