-- ===== src/Csv/Fields.antt =====
-- common/csv/csv-formatter.service.ts: an escaped field is read as its value.
use Prim.Native.Char.{Char, code}
use Prim.Native.String.{String, ◌++◌}
use text.Mathlib.TextLemmas.{nil-append, cons-append, append_assoc}
use trafego_flow.Common.{
  ◌≡◌, refl, sym, ap, ◌∙◌, ◌⊎◌, ◌≢◌, inl, inr, Bool, true, false, ◌||◌, arith, if◌then◌else◌,
}
use native.Mathlib.Decide.{ℕ_discrete}
use trafego_flow.Csv.{has, double_quotes, escape_csv_field}
use trafego_flow.Csv.Reader.{
  Mode, start, plain, quoted, closing, Out, Emit, skip, put, emit, step, read,
}

-- The text before what has been read.
abbrev pub before : String → Out → Out
before s (field, row, rows) = (s ++ field, row, rows)

before-nil : (o : Out) → before "" o ≡ o
before-nil (field, row, rows) = ap (λ f. (f, row, rows)) (nil-append field)

before-cons :
    (c : Char) (s : String) (o : Out) → before (String.◌∷◌ c s) o ≡ emit put c (before s o)
before-cons c s (field, row, rows) = ap (λ f. (f, row, rows)) (cons-append c s field)

-- A text after which a field has ended: nothing, or what parts fields or rows.
pub record Ends (r : String) : Type 0 where
  pub as_plain : read plain r ≡ read start r
  pub as_closing : read closing r ≡ read start r

pub Ends-nil : Ends ""
unfolding read
Ends-nil = record { as_plain = refl; as_closing = refl }

pub Ends-comma : (r : String) → Ends (String.◌∷◌ "," r)
unfolding read
Ends-comma r = record { as_plain = refl; as_closing = refl }

pub Ends-line : (r : String) → Ends (String.◌∷◌ "\r" (String.◌∷◌ "\n" r))
unfolding read
Ends-line r = record { as_plain = refl; as_closing = refl }

pub read-step :
    (mode next : Mode) (e : Emit) (x : Char) (s : String)
    → step mode x ≡ (next, e)
    → read mode (String.◌∷◌ x s) ≡ emit e x (read next s)
unfolding read
read-step mode next e x s h = λ i. emit (h i).1 x (read (h i).0 s)

-- A character that is none of the special ones is put down, wherever a field begins or goes on.
ordinary :
    (x : Char) (v : String)
    → has "," (String.◌∷◌ x v) ≡ false
    → has "\"" (String.◌∷◌ x v) ≡ false
    → has "\n" (String.◌∷◌ x v) ≡ false
    → has "\r" (String.◌∷◌ x v) ≡ false
    → (step plain x ≡ (plain, put)) × (step start x ≡ (plain, put))
unfolding has
ordinary x v a b c d = ground arith

later : (t : Char) (x : Char) (v : String) → has t (String.◌∷◌ x v) ≡ false → has t v ≡ false
unfolding has
later t x v h = ground arith

plain-read :
    (v r : String)
    → has "," v ≡ false
    → has "\"" v ≡ false
    → has "\n" v ≡ false
    → has "\r" v ≡ false
    → read plain (v ++ r) ≡ before v (read plain r)
plain-read String.[] r a b c d = ap (read plain) (nil-append r) ∙ sym (before-nil (read plain r))
plain-read (String.◌∷◌ x v) r a b c d =
    ap (read plain) (cons-append x v r)
    ∙ read-step plain plain put x (v ++ r) (ordinary x v a b c d).0
    ∙ ap (emit put x)
        (plain-read v r (later "," x v a) (later "\"" x v b) (later "\n" x v c) (later "\r" x v d))
    ∙ sym (before-cons x v (read plain r))

-- The same from the start of a field.
start-read :
    (v r : String)
    → has "," v ≡ false
    → has "\"" v ≡ false
    → has "\n" v ≡ false
    → has "\r" v ≡ false
    → Ends r
    → read start (v ++ r) ≡ before v (read start r)
start-read String.[] r a b c d ends =
    ap (read start) (nil-append r) ∙ sym (before-nil (read start r))
start-read (String.◌∷◌ x v) r a b c d ends =
    ap (read start) (cons-append x v r)
    ∙ read-step start plain put x (v ++ r) (ordinary x v a b c d).1
    ∙ ap (emit put x)
        (plain-read v r (later "," x v a) (later "\"" x v b) (later "\n" x v c) (later "\r" x v d))
    ∙ sym (before-cons x v (read plain r))
    ∙ ap (before (String.◌∷◌ x v)) ends.as_plain

quote-read : (r : String) → read quoted (String.◌∷◌ "\"" r) ≡ read closing r
unfolding read
quote-read r = refl

double-nil : double_quotes "" ≡ ""
unfolding double_quotes
double-nil = refl

double-quote :
    (x : Char) (s : String)
    → code x ≡ b'"'
    → double_quotes (String.◌∷◌ x s) ≡ String.◌∷◌ x (String.◌∷◌ x (double_quotes s))
unfolding double_quotes
double-quote x s e = ground arith

double-other :
    (x : Char) (s : String)
    → code x ≢ b'"'
    → double_quotes (String.◌∷◌ x s) ≡ String.◌∷◌ x (double_quotes s)
unfolding double_quotes
double-other x s e = ground arith

quoted-read :
    (v r : String)
    → read quoted (double_quotes v ++ (String.◌∷◌ "\"" r)) ≡ before v (read closing r)
quoted-read String.[] r =
    ap (λ t. read quoted (t ++ String.◌∷◌ "\"" r)) double-nil
    ∙ ap (read quoted) (nil-append (String.◌∷◌ "\"" r))
    ∙ quote-read r
    ∙ sym (before-nil (read closing r))
quoted-read (String.◌∷◌ x v) r = elim (ℕ_discrete (code x) b'"') [
  | yes p ↦
      ap (λ t. read quoted (t ++ String.◌∷◌ "\"" r)) (double-quote x v p)
      ∙ ap (read quoted) (cons-append x (String.◌∷◌ x (double_quotes v)) (String.◌∷◌ "\"" r))
      ∙ read-step quoted closing skip x _ (ground arith)
      ∙ ap (read closing) (cons-append x (double_quotes v) (String.◌∷◌ "\"" r))
      ∙ read-step closing quoted put x _ (ground arith)
      ∙ ap (emit put x) (quoted-read v r)
      ∙ sym (before-cons x v (read closing r))
  | no p ↦
      ap (λ t. read quoted (t ++ String.◌∷◌ "\"" r)) (double-other x v p)
      ∙ ap (read quoted) (cons-append x (double_quotes v) (String.◌∷◌ "\"" r))
      ∙ read-step quoted quoted put x _ (ground arith)
      ∙ ap (emit put x) (quoted-read v r)
      ∙ sym (before-cons x v (read closing r))
]

-- What stands for a value: the escaped value, or the value in quotes.
pub data Encodes : String → String → Type 0 where
  escaped : (v : String) → Encodes (escape_csv_field v) v
  in_quotes : (v : String) → Encodes ("\"" ++ (double_quotes v ++ "\"")) v

in_quotes-read :
    (v r : String)
    → Ends r
    → read start (("\"" ++ (double_quotes v ++ "\"")) ++ r) ≡ before v (read start r)
in_quotes-read v r ends =
    ap (λ t. read start (t ++ r))
      (cons-append "\"" "" (double_quotes v ++ "\"")
        ∙ ap (String.◌∷◌ "\"") (nil-append (double_quotes v ++ "\"")))
    ∙ ap (read start) (cons-append "\"" (double_quotes v ++ "\"") r)
    ∙ read-step start quoted skip "\"" ((double_quotes v ++ "\"") ++ r) refl
    ∙ ap (read quoted) (
        append_assoc (double_quotes v) "\"" r
        ∙ ap (λ t. double_quotes v ++ t)
            (cons-append "\"" "" r ∙ ap (String.◌∷◌ "\"") (nil-append r)))
    ∙ quoted-read v r
    ∙ ap (before v) ends.as_closing

escape_cases :
    (v : String)
    → (escape_csv_field v ≡ "\"" ++ (double_quotes v ++ "\""))
      ⊎ ((escape_csv_field v ≡ v)
          × (has "," v ≡ false)
          × (has "\"" v ≡ false)
          × (has "\n" v ≡ false)
          × (has "\r" v ≡ false))
unfolding escape_csv_field
escape_cases v = choose (has "," v) (has "\"" v) (has "\n" v) (has "\r" v)
  where
    choose :
        (a b c d : Bool) {x y : String}
        → ((if a || (b || (c || d)) then x else y) ≡ x)
          ⊎ (((if a || (b || (c || d)) then x else y) ≡ y)
              × (a ≡ false)
              × (b ≡ false)
              × (c ≡ false)
              × (d ≡ false))
    choose true b c d = inl refl
    choose false true c d = inl refl
    choose false false true d = inl refl
    choose false false false true = inl refl
    choose false false false false = inr (refl, refl, refl, refl, refl)

pub field-read :
    {e v : String} (r : String)
    → Encodes e v
    → Ends r
    → read start (e ++ r) ≡ before v (read start r)
field-read r (escaped v) ends = elim (escape_cases v) [
  | inl same ↦ ap (λ t. read start (t ++ r)) same ∙ in_quotes-read v r ends
  | inr (same, a, b, c, d) ↦ ap (λ t. read start (t ++ r)) same ∙ start-read v r a b c d ends
]
field-read r (in_quotes v) ends = in_quotes-read v r ends
