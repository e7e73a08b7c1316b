-- ===== src/Settings/Glob.antt =====
-- settings/settings-glob.ts: segment-aware glob patterns. A row of the table holds, for each length
-- of a front part of the input, whether the pattern read so far matches it.
pub mod Matching
pub mod Cache
mod Tests
use nook_bridge.Common.{
  ℕ, ◌+◌, Bool, true, false, not, ◌&&◌, ◌||◌, Option, none, some, List, [], ◌∷◌, map, Text, leb,
  ltb, ◌==◌, if◌then◌else◌, length, any, code_points, split_slash,
}

-- On a code point; the source has it on a string of one.
unfoldable pub fold_ascii : ℕ → ℕ
fold_ascii c = if leb 0x41 c && leb c 0x5a then c + 0x20 else c

-- The inner loop for one pattern character: `left` is the entry just written, the rows are read
-- from the same place on. An entry that no branch writes keeps its initial `false`.
unfoldable pub entry : ℕ → Bool → Bool → Bool → ℕ → Bool
unfolding fold_ascii
entry c left above above_next x =
    if c == b'*'
    then above_next || left
    else if (c == b'?') || (fold_ascii c == fold_ascii x)
    then above
    else false

unfoldable pub row_rest : ℕ → Bool → List Bool → List ℕ → List Bool
row_rest c left (above ∷ above_next ∷ row) (x ∷ input) =
    let e = entry c left above above_next x in e ∷ row_rest c e (above_next ∷ row) input
row_rest c left row input = []

abbrev head_or : List Bool → Bool
head_or [] = false
head_or (b ∷ bs) = b

-- The outer loop's body: `table[patternIndex + 1]` from `table[patternIndex]`.
unfoldable pub next_row : ℕ → List Bool → List ℕ → List Bool
unfolding row_rest
next_row c row input =
    let first = if c == b'*' then head_or row else false in first ∷ row_rest c first row input

unfoldable pub rows : List ℕ → List Bool → List ℕ → List Bool
rows [] row input = row
rows (c ∷ pattern) row input = rows pattern (next_row c row input) input

abbrev blanks : List ℕ → List Bool
blanks [] = []
blanks (x ∷ xs) = false ∷ blanks xs

abbrev last_or : List Bool → Bool
last_or [] = false
last_or (b ∷ []) = b
last_or (b ∷ c ∷ bs) = last_or (c ∷ bs)

unfoldable pub segment_match : List ℕ → List ℕ → Bool
unfolding rows next_row
segment_match pattern input = last_or (rows pattern (true ∷ blanks input) input)

-- `pattern.includes("//")`.
abbrev pub has_double_slash : Text → Bool
has_double_slash [] = false
has_double_slash (a ∷ []) = false
has_double_slash (a ∷ b ∷ s) = (a == b'/' && b == b'/') || has_double_slash (b ∷ s)

abbrev pub is_printable : ℕ → Bool
is_printable c = leb 0x20 c && leb c 0x7e

-- `none` is the `TypeError`.
unfoldable pub validate_pattern : Text → Option (List Text)
validate_pattern pattern =
    if length pattern == 0
    then none
    else if any (λ c. not (is_printable c)) (code_points pattern)
    then none
    else if has_double_slash pattern
    then none
    else some (split_slash pattern)

-- `segments.every`, which does not look at input segments beyond the pattern's. A pattern's segment
-- without one of the input would throw in `Array.from`; the check on the lengths rules it out.
unfoldable pub match_segments : List (List ℕ) → List Text → Bool
match_segments [] ts = true
match_segments (p ∷ ps) [] = false
match_segments (p ∷ ps) (t ∷ ts) = segment_match p (code_points t) && match_segments ps ts

abbrev pub Matcher : Type 0
Matcher = Text → Bool

unfoldable pub matcher : List (List ℕ) → Matcher
matcher segments input =
    let inputs = split_slash input in
    if length inputs == length segments then match_segments segments inputs else false

abbrev pub with_segments : Option (List Text) → Option Matcher
with_segments none = none
with_segments (some segments) = some (matcher (map code_points segments))

-- A compilation with no cached matcher.
unfoldable pub compile_fresh : Text → Option Matcher
compile_fresh pattern = with_segments (validate_pattern pattern)
