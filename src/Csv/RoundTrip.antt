-- ===== src/Csv/RoundTrip.antt =====
-- common/csv/csv-formatter.service.ts: what is formatted can be read again.

use Prim.Native.String.{String, ◌++◌}
use text.Mathlib.TextLemmas.{nil-append, cons-append, append_assoc, append-nil}
use mathlib.Core.Path.{subst}
use trafego_flow.Common.{Option, none, some, ◌≡◌, refl, sym, ap, ◌∙◌, List, [], ◌∷◌, map}
use trafego_flow.Csv.{double_quotes, escape_csv_field}
use trafego_flow.Common.Text.{join_with}
use trafego_flow.Csv.Reader.{start, Out, skip, end_field, end_row, emit, read, read_csv}
use trafego_flow.Csv.{Numbers, format, extract_value, format_value, format_cell, cell_of}
use trafego_flow.Insights.{MetaInsights, MetaInsightsColumn, ColumnType, column_meta}
use trafego_flow.Csv.Fields.{
  before, read-step, Ends, Ends-nil, Ends-comma, Ends-line, Encodes, escaped, in_quotes, field-read,
}

-- The text of a row, with the values of its fields.
pub data Row : String → List String → Type 0 where
  one : {e v : String} → Encodes e v → Row e (v ∷ [])
  more :
      {e v s w : String} {vs : List String}
      → Encodes e v
      → Row s (w ∷ vs)
      → Row (e ++ ("," ++ s)) (v ∷ w ∷ vs)

-- The text of a table.
pub data Table : String → List (List String) → Type 0 where
  last : {s : String} {vs : List String} → Row s vs → Table s (vs ∷ [])
  line :
      {s t : String} {vs ws : List String} {rows : List (List String)}
      → Row s vs
      → Table t (ws ∷ rows)
      → Table (s ++ ("\r\n" ++ t)) (vs ∷ ws ∷ rows)

Row-read :
    {s : String} {vs : List String} (r : String) (rows : List (List String))
    → Row s vs
    → Ends r
    → read start r ≡ ("", [], rows)
    → (v : String) × (ws : List String) × (vs ≡ v ∷ ws) × (read start (s ++ r) ≡ (v, ws, rows))
Row-read r rows (one {v = v} enc) ends e =
    (v, [], refl, field-read r enc ends ∙ ap (before v) e ∙ ap (λ t. (t, [], rows)) (append-nil v))
Row-read r rows (more {e = e} {v = v} {s = s} {w = w} {vs = vs} enc rest) ends h =
    let (x, xs, same, ih) = Row-read r rows rest ends h in
    (
      v,
      w ∷ vs,
      refl,
      ap (read start) (append_assoc e ("," ++ s) r ∙ ap (λ t. e ++ t) (comma s r))
          ∙ field-read (String.◌∷◌ "," (s ++ r)) enc (Ends-comma (s ++ r))
          ∙ ap (before v) (comma-read (s ++ r) ∙ ap (emit end_field ",") ih)
          ∙ ap (λ t. (t, x ∷ xs, rows)) (append-nil v)
          ∙ ap (λ l. (v, l, rows)) (sym same),
    )
  where
    comma : (s r : String) → ("," ++ s) ++ r ≡ String.◌∷◌ "," (s ++ r)
    comma s r =
        append_assoc "," s r
        ∙ cons-append "," "" (s ++ r)
        ∙ ap (String.◌∷◌ ",") (nil-append (s ++ r))

    comma-read : (t : String) → read start (String.◌∷◌ "," t) ≡ emit end_field "," (read start t)
    comma-read t = read-step start start end_field "," t refl

empty_read : read start "" ≡ ("", [], [])
unfolding read
empty_read = refl

Table-read :
    {s : String} {rows : List (List String)}
    → Table s rows
    → (v : String) × (ws : List String) × (rest : List (List String)) × (rows ≡ (v ∷ ws) ∷ rest)
      × (read start s ≡ (v, ws, rest))
Table-read (last {s = s} row) =
    let (v, ws, same, h) = Row-read "" [] row Ends-nil empty_read in
    (v, ws, [], ap (λ l. l ∷ []) same, ap (read start) (sym (append-nil s)) ∙ h)
Table-read (line {s = s} {t = t} {ws = us} {rows = rows} row rest) =
    let (x, xs, more_rows, same', ih) = Table-read rest in
    let (v, ws, same, h) =
      Row-read (String.◌∷◌ "\r" (String.◌∷◌ "\n" t)) (us ∷ rows) row (Ends-line t)
        (line-read t ∙ ap (emit end_row "\n") ih ∙ ap (λ l. ("", [], l)) (sym same')) in
    (v, ws, us ∷ rows, ap (λ l. l ∷ us ∷ rows) same, ap (λ r. read start (s ++ r)) (line_end t) ∙ h)
  where
    line_end : (t : String) → "\r\n" ++ t ≡ String.◌∷◌ "\r" (String.◌∷◌ "\n" t)
    line_end t =
        cons-append "\r" "\n" t
        ∙ ap (String.◌∷◌ "\r") (cons-append "\n" "" t ∙ ap (String.◌∷◌ "\n") (nil-append t))

    line-read :
        (t : String)
        → read start (String.◌∷◌ "\r" (String.◌∷◌ "\n" t)) ≡ emit end_row "\n" (read start t)
    line-read t =
        read-step start start skip "\r" (String.◌∷◌ "\n" t) refl
        ∙ read-step start start end_row "\n" t refl

read_csv-Table : {s : String} {rows : List (List String)} → Table s rows → read_csv s ≡ rows
unfolding read_csv
read_csv-Table {s} {rows} table =
    let (v, ws, rest, same, h) = Table-read table in
    ap (λ (o : Out). (o.0 ∷ o.1) ∷ o.2) h ∙ sym same

module _ {A : Type 0} (f value : A → String) (encodes : (a : A) → Encodes (f a) (value a)) where
  map-Row : (a : A) (as_ : List A) → Row (join_with "," (map f (a ∷ as_))) (map value (a ∷ as_))
  unfolding join_with
  map-Row a [] = one (encodes a)
  map-Row a (b ∷ bs) = more (encodes a) (map-Row b bs)

map-Table :
    {A : Type 0} (f : A → String) (value : A → List String)
    → ((a : A) → Row (f a) (value a))
    → (s : String) (vs : List String) → Row s vs
    → (l : List A) → Table (join_with "\r\n" (s ∷ map f l)) (vs ∷ map value l)
unfolding join_with
map-Table f value rows s vs row [] = last row
map-Table f value rows s vs row (a ∷ l) =
    line row (map-Table f value rows (f a) (value a) (rows a) l)

-- What a reader of the table finds in a cell.
abbrev pub cell_value : Numbers → Option String → ColumnType → String
cell_value numbers none type = "-"
cell_value numbers (some String.[]) type = "-"
cell_value numbers (some (String.◌∷◌ c s)) type = format_value numbers (String.◌∷◌ c s) type

dash : "\"-\"" ≡ "\"" ++ (double_quotes "-" ++ "\"")
unfolding double_quotes
dash = refl

cell_of-Encodes :
    (numbers : Numbers) (o : Option String) (type : ColumnType)
    → Encodes (cell_of numbers o type) (cell_value numbers o type)
cell_of-Encodes numbers none type = subst (λ s. Encodes s "-") (sym dash) (in_quotes "-")
cell_of-Encodes numbers (some String.[]) type =
    subst (λ s. Encodes s "-") (sym dash) (in_quotes "-")
cell_of-Encodes numbers (some (String.◌∷◌ c s)) type =
    escaped (format_value numbers (String.◌∷◌ c s) type)

-- a text without its first character, the byte order mark
abbrev pub without_bom : String → String
without_bom String.[] = ""
without_bom (String.◌∷◌ c s) = s

-- A reader after RFC 4180 finds in the formatted text, without its byte order mark and for at
-- least one column, the labels of the columns and then one record for each row, of the printed
-- values, with a hyphen for a value that is missing or empty.
pub read_csv-format :
    (numbers : Numbers) (rows : List MetaInsights) (col : MetaInsightsColumn)
    (cols : List MetaInsightsColumn)
    → read_csv (without_bom (format numbers rows (col ∷ cols)))
      ≡ map (λ c. (column_meta c).label) (col ∷ cols)
        ∷ map
            (λ row.
              map
                (λ c. cell_value numbers (extract_value numbers row c) (column_meta c).column_type)
                (col ∷ cols))
            rows
unfolding format
read_csv-format numbers rows col cols =
    ap (λ s. read_csv (without_bom s))
      (cons-append "\u{feff}" "" _ ∙ ap (String.◌∷◌ "\u{feff}") (nil-append _))
    ∙ read_csv-Table (
        map-Table (λ row. join_with "," (map (λ c. format_cell numbers row c) (col ∷ cols)))
          (λ row.
            map (λ c. cell_value numbers (extract_value numbers row c) (column_meta c).column_type)
              (col ∷ cols))
          (λ row.
            map-Row (format_cell numbers row)
              (λ c. cell_value numbers (extract_value numbers row c) (column_meta c).column_type)
              (λ c.
                cell_of-Encodes numbers (extract_value numbers row c) (column_meta c).column_type)
              col cols)
          _ _
          (map-Row (λ c. escape_csv_field (column_meta c).label) (λ c. (column_meta c).label)
            (λ c. escaped (column_meta c).label) col cols)
          rows)
