-- ===== src/Ai/Pattern.antt =====
-- modules/ai/utils/campaign-splitter.ts: the pattern of acquisition campaigns.
use Prim.Native.Char.{Char, code}
use native.Mathlib.Decide.{ℕ_discrete}
use trafego_flow.Common.{
  ◌≡◌, ◌≢◌, refl, sym, ap, ◌∙◌, Bool, true, false, ◌&&◌, ◌||◌, ◌==◌, String, List, [], ◌∷◌, arith,
  if◌then◌else◌,
}
use trafego_flow.Common.Text.{split, split_same, split_other, cons_head}
use trafego_flow.Ai.{
  is_letter, ends_word, after_cap, after_ca, after_c, matches_here, search_pattern,
}

-- The words `CAP` and `CAPT`, in letters of either case.
abbrev is_empty : String → Bool
is_empty String.[] = true
is_empty (String.◌∷◌ c w) = false

abbrev ends_cap : String → Bool
ends_cap String.[] = true
ends_cap (String.◌∷◌ c w) = is_letter b'T' c && is_empty w

abbrev ends_p : String → Bool
ends_p String.[] = false
ends_p (String.◌∷◌ c w) = is_letter b'P' c && ends_cap w

abbrev ends_ap : String → Bool
ends_ap String.[] = false
ends_ap (String.◌∷◌ c w) = is_letter b'A' c && ends_p w

abbrev pub is_cap : String → Bool
is_cap String.[] = false
is_cap (String.◌∷◌ c w) = is_letter b'C' c && ends_ap w

abbrev pub some_cap : List String → Bool
some_cap [] = false
some_cap (w ∷ ws) = is_cap w || some_cap ws

-- the first word of a text
first_word : String → String
first_word String.[] = ""
first_word (String.◌∷◌ c s) = if code c == b'_' then "" else String.◌∷◌ c (first_word s)

first_same : (c : Char) (s : String) → code c ≡ b'_' → first_word (String.◌∷◌ c s) ≡ ""
unfolding first_word
first_same c s e = ground arith

first_other :
    (c : Char) (s : String)
    → code c ≢ b'_'
    → first_word (String.◌∷◌ c s) ≡ String.◌∷◌ c (first_word s)
unfolding first_word
first_other c s h = ground arith

ends_word-first : (s : String) → ends_word s ≡ is_empty (first_word s)
ends_word-first String.[] = unfold first_word in refl
ends_word-first (String.◌∷◌ c s) = elim (ℕ_discrete (code c) b'_') [
  | yes e ↦ rw (first_same c s e) (ground arith)
  | no h ↦ rw (first_other c s h) (ground (arith))
]

after_cap-first : (s : String) → after_cap s ≡ ends_cap (first_word s)
after_cap-first String.[] = unfold first_word in refl
after_cap-first (String.◌∷◌ c s) = elim (ℕ_discrete (code c) b'_') [
  | yes e ↦ rw (first_same c s e) (ground arith)
  | no h ↦ rw (first_other c s h) (ground (arith, ends_word-first s))
]

after_ca-first : (s : String) → after_ca s ≡ ends_p (first_word s)
after_ca-first String.[] = unfold first_word in refl
after_ca-first (String.◌∷◌ c s) = elim (ℕ_discrete (code c) b'_') [
  | yes e ↦ rw (first_same c s e) (ground arith)
  | no h ↦ rw (first_other c s h) (ground (arith, after_cap-first s))
]

after_c-first : (s : String) → after_c s ≡ ends_ap (first_word s)
after_c-first String.[] = unfold first_word in refl
after_c-first (String.◌∷◌ c s) = elim (ℕ_discrete (code c) b'_') [
  | yes e ↦ rw (first_same c s e) (ground arith)
  | no h ↦ rw (first_other c s h) (ground (arith, after_ca-first s))
]

matches_here-first : (s : String) → matches_here s ≡ is_cap (first_word s)
matches_here-first String.[] = unfold first_word in refl
matches_here-first (String.◌∷◌ c s) = elim (ℕ_discrete (code c) b'_') [
  | yes e ↦ rw (first_same c s e) (ground arith)
  | no h ↦ rw (first_other c s h) (ground (arith, after_c-first s))
]

-- The words after the first.
unfoldable later_words : String → List String
later_words String.[] = []
later_words (String.◌∷◌ c s) = if code c == b'_' then split "_" s else later_words s

split_words : (s : String) → split "_" s ≡ first_word s ∷ later_words s
split_words String.[] = unfold split first_word later_words in refl
split_words (String.◌∷◌ c s) = elim (ℕ_discrete (code c) b'_') [
  | yes e ↦ split_same "_" c s e ∙ unfold later_words in rw (first_same c s e) (ground arith)
  | no h ↦
      split_other "_" c s h
      ∙ ap (cons_head c) (split_words s)
      ∙ unfold later_words in rw (first_other c s h) (ground arith)
]

-- What a search finds, by the words: the first counts where it begins at a boundary.
abbrev in_words : Bool → String → Bool
in_words b s = (b && is_cap (first_word s)) || some_cap (later_words s)

search-same :
    (b : Bool) (c : Char) (s : String)
    → code c ≡ b'_'
    → search_pattern true s ≡ in_words true s
    → search_pattern b (String.◌∷◌ c s) ≡ in_words b (String.◌∷◌ c s)
unfolding search_pattern later_words
search-same b c s e h = ground (arith, matches_here-first (String.◌∷◌ c s), split_words s)

search-other :
    (b : Bool) (c : Char) (s : String)
    → code c ≢ b'_'
    → search_pattern false s ≡ in_words false s
    → search_pattern b (String.◌∷◌ c s) ≡ in_words b (String.◌∷◌ c s)
unfolding search_pattern later_words
search-other b c s e h = ground (arith, matches_here-first (String.◌∷◌ c s))

search_pattern_words : (b : Bool) (s : String) → search_pattern b s ≡ in_words b s
search_pattern_words b String.[] = unfold search_pattern first_word later_words in ground arith
search_pattern_words b (String.◌∷◌ c s) = elim (ℕ_discrete (code c) b'_') [
  | yes e ↦ search-same b c s e (search_pattern_words true s)
  | no h ↦ search-other b c s h (search_pattern_words false s)
]

-- The search for the pattern of acquisition campaigns from the start of a name succeeds exactly if
-- one of its words, parted by underscores, is CAP or CAPT in letters of either case.
pub search_pattern_iff : (s : String) → search_pattern true s ≡ some_cap (split "_" s)
search_pattern_iff s = search_pattern_words true s ∙ ap some_cap (sym (split_words s))
