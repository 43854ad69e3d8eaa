-- ===== src/Csv/Reader.antt =====
-- A reader of comma-separated values after RFC 4180, independent of the formatter.
use Prim.Native.Char.{Char, code}
use Prim.Native.String.{String, [], ◌∷◌}
use mathlib.Core.List.{List}
use trafego_flow.Common.{◌==◌, if◌then◌else◌}

-- Before a field, inside one without quotes, inside quotes, and after a quote inside quotes.
pub data Mode : Type 0 where
  start plain quoted closing : Mode

pub data Emit : Type 0 where
  skip put end_field end_row : Emit

-- The field that is being read, the rest of its row, and the rows after it.
abbrev pub Out : Type 0
Out = String × List String × List (List String)

abbrev pub emit : Emit → Char → Out → Out
emit skip c o = o
emit put c (field, row, rows) = (c ∷ field, row, rows)
emit end_field c (field, row, rows) = ("", List.◌∷◌ field row, rows)
emit end_row c (field, row, rows) = ("", List.[], List.◌∷◌ (List.◌∷◌ field row) rows)

-- A character outside quotes; a carriage return belongs to the line feed after it.
abbrev pub outside : Mode → Char → Mode × Emit
outside mode c =
    if code c == b','
    then (start, end_field)
    else if code c == b'\r'
    then (mode, skip)
    else if code c == b'\n'
    then (start, end_row)
    else (plain, put)

abbrev pub step : Mode → Char → Mode × Emit
step start c = if code c == b'"' then (quoted, skip) else outside start c
step plain c = outside plain c
step quoted c = if code c == b'"' then (closing, skip) else (quoted, put)
step closing c = if code c == b'"' then (quoted, put) else outside closing c

unfoldable pub read : Mode → String → Out
read mode [] = ("", List.[], List.[])
read mode (c ∷ s) = emit (step mode c).1 c (read (step mode c).0 s)

unfoldable pub read_csv : String → List (List String)
unfolding read
read_csv s = let (field, row, rows) = read start s in List.◌∷◌ (List.◌∷◌ field row) rows
