-- ===== src/Common/Text.antt =====
-- Texts as the source uses them: compared whole, tested for emptiness, and split at a character.
-- `String` is a list of code points.
use Prim.Native.Char.{Char, code}
use Prim.Native.String.{String, [], ◌∷◌, ◌++◌}
use text.Mathlib.TextLemmas.{nil-append, cons-append}
use trafego_flow.Common.Lists.{All}
use mathlib.Core.Path.{◌≡◌, refl, sym, ◌∙◌, ap, ap₂}
use native.Mathlib.Decide.{ℕ_discrete}
use text.Mathlib.TextEquality.{Char-path}
use mathlib.Core.Logic.{◌≢◌}
use mathlib.Core.Bool.{Bool, true, false}
use mathlib.Core.Option.{Option, none, some}
use mathlib.Core.List.{List}
use native.Mathlib.Omega.{arith}
use trafego_flow.Common.Tests.{◌==◌, if◌then◌else◌}

-- a string in a condition: `''` is false
abbrev pub truthy : String → Bool
truthy [] = false
truthy (c ∷ s) = true

-- the same for a value of type `string | undefined`
abbrev pub truthy? : Option String → Bool
truthy? none = false
truthy? (some s) = truthy s

abbrev pub cons_head : Char → List String → List String
cons_head c List.[] = List.◌∷◌ (c ∷ []) List.[]
cons_head c (List.◌∷◌ p ps) = List.◌∷◌ (c ∷ p) ps

-- `s.split(sep)` at a single character
unfoldable pub split : Char → String → List String
split sep [] = List.◌∷◌ "" List.[]
split sep (c ∷ s) =
    if code c == code sep then List.◌∷◌ "" (split sep s) else cons_head c (split sep s)

-- `pieces.join(sep)`
unfoldable pub join : Char → List String → String
join sep List.[] = ""
join sep (List.◌∷◌ p List.[]) = p
join sep (List.◌∷◌ p (List.◌∷◌ q ps)) = p ++ (sep ∷ join sep (List.◌∷◌ q ps))

abbrev pub Lacks : Char → String → Type 0
Lacks sep [] = Unit
Lacks sep (c ∷ s) = (code c ≢ code sep) × Lacks sep s

-- A text without the separator is one piece.
pub split-Lacks : (sep : Char) (s : String) → Lacks sep s → split sep s ≡ List.◌∷◌ s List.[]
unfolding split
split-Lacks sep [] h = refl
split-Lacks sep (c ∷ s) h = ground (arith, split-Lacks sep s h.1)

split-append :
    (sep : Char) (p s : String)
    → Lacks sep p
    → split sep (p ++ (sep ∷ s)) ≡ List.◌∷◌ p (split sep s)
unfolding split
split-append sep [] s h = rw nil-append (ground arith)
split-append sep (c ∷ p) s h = rw cons-append (ground (arith, split-append sep p s h.1))

-- Pieces without the separator are found again.
pub split-join :
    (sep : Char) (p : String) (ps : List String)
    → All (Lacks sep) (List.◌∷◌ p ps)
    → split sep (join sep (List.◌∷◌ p ps)) ≡ List.◌∷◌ p ps
unfolding join
split-join sep p List.[] h = split-Lacks sep p h.0
split-join sep p (List.◌∷◌ q ps) h =
    rw (split-append sep p (join sep (List.◌∷◌ q ps)) h.0) (rw (split-join sep q ps h.1))

cons_head-join :
    (sep c : Char) (ps : List String) → ps ≢ List.[] → join sep (cons_head c ps) ≡ c ∷ join sep ps
unfolding join
cons_head-join sep c List.[] h = absurd (h refl)
cons_head-join sep c (List.◌∷◌ p List.[]) h = refl
cons_head-join sep c (List.◌∷◌ p (List.◌∷◌ q ps)) h = cons-append c p _

join-nil :
    (sep : Char) (ps : List String) → ps ≢ List.[] → join sep (List.◌∷◌ "" ps) ≡ sep ∷ join sep ps
unfolding join
join-nil sep List.[] h = absurd (h refl)
join-nil sep (List.◌∷◌ p ps) h = nil-append _

cons_head-ne-nil : (c : Char) (ps : List String) → cons_head c ps ≢ List.[]
cons_head-ne-nil c List.[] e = cc
cons_head-ne-nil c (List.◌∷◌ p ps) e = cc

cons_head-All-Lacks :
    (sep c : Char) (ps : List String)
    → code c ≢ code sep
    → All (Lacks sep) ps
    → All (Lacks sep) (cons_head c ps)
cons_head-All-Lacks sep c List.[] h k = ((h, tt), tt)
cons_head-All-Lacks sep c (List.◌∷◌ p ps) h k = ((h, k.0), k.1)

pub split_same :
    (sep c : Char) (s : String) → code c ≡ code sep → split sep (c ∷ s) ≡ List.◌∷◌ "" (split sep s)
unfolding split
split_same sep c s e = ground arith

pub split_other :
    (sep c : Char) (s : String) → code c ≢ code sep → split sep (c ∷ s) ≡ cons_head c (split sep s)
unfolding split
split_other sep c s h = ground arith

split-ne-nil : (sep : Char) (s : String) → split sep s ≢ List.[]
unfolding split
split-ne-nil sep [] e = cc
split-ne-nil sep (c ∷ s) e = elim (ℕ_discrete (code c) (code sep)) [
  | yes p ↦ cc (split_same sep c s p)
  | no p ↦ cons_head-ne-nil c (split sep s) (sym (split_other sep c s p) ∙ e)
]

-- The pieces put together again are the text.
pub join-split : (sep : Char) (s : String) → join sep (split sep s) ≡ s
join-split sep [] = unfold split join in refl
join-split sep (c ∷ s) = elim (ℕ_discrete (code c) (code sep)) [
  | yes p ↦ rw (split_same sep c s p) (
      join-nil sep (split sep s) (split-ne-nil sep s)
      ∙ ap₂ String.◌∷◌ (sym (Char-path c sep p)) (join-split sep s))
  | no p ↦ rw (split_other sep c s p) (
      cons_head-join sep c (split sep s) (split-ne-nil sep s)
      ∙ ap (String.◌∷◌ c) (join-split sep s))
]

-- No piece holds the separator.
pub split-All-Lacks : (sep : Char) (s : String) → All (Lacks sep) (split sep s)
split-All-Lacks sep [] = unfold split in (tt, tt)
split-All-Lacks sep (c ∷ s) = elim (ℕ_discrete (code c) (code sep)) [
  | yes p ↦ rw (split_same sep c s p) (tt, split-All-Lacks sep s)
  | no p ↦
      rw (split_other sep c s p) (cons_head-All-Lacks sep c (split sep s) p (split-All-Lacks sep s))
]

-- `fields.join(separator)`, for a separator that is a text
unfoldable pub join_with : String → List String → String
join_with separator List.[] = ""
join_with separator (List.◌∷◌ field List.[]) = field
join_with separator (List.◌∷◌ field (List.◌∷◌ next fields)) =
    field ++ (separator ++ join_with separator (List.◌∷◌ next fields))
