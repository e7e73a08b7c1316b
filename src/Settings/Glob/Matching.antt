-- ===== src/Settings/Glob/Matching.antt =====
-- settings/settings-glob.ts: the table decides an independent description of wildcard matching.
use nook_bridge.Common.{
  ℕ, suc, length, map, some, Text, code_points, split_slash, ◌≡◌, ◌≢◌, ◌↔◌, inl, inr, refl, sym, ap,
  ◌∙◌, Bool, true, false, ◌&&◌, ◌||◌, List, [], ◌∷◌, arith, ◌==◌, if◌then◌else◌, Bool-cases,
  Option-cases, ==_iff,
}
use mathlib.Core.Path.{fun_ext}
use nook_bridge.Settings.Glob.{
  fold_ascii, entry, row_rest, next_row, rows, last_or, blanks, segment_match, match_segments,
  Matcher, matcher, compile_fresh, validate_pattern, with_segments,
}

-- One segment of a pattern matches one segment of a path: `*` stands for any characters, `?` for one,
-- and any other character for itself, in either case of the ASCII letters.
pub data Matches : List ℕ → List ℕ → Type 0 where
  done : Matches [] []
  star_none : {c : ℕ} {p s : List ℕ} → c ≡ b'*' → Matches p s → Matches (c ∷ p) s
  star_more : {c x : ℕ} {p s : List ℕ} → c ≡ b'*' → Matches (c ∷ p) s → Matches (c ∷ p) (x ∷ s)
  wild : {c x : ℕ} {p s : List ℕ} → c ≡ b'?' → Matches p s → Matches (c ∷ p) (x ∷ s)
  same :
      {c x : ℕ} {p s : List ℕ}
      → c ≢ b'*'
      → fold_ascii c ≡ fold_ascii x
      → Matches p s
      → Matches (c ∷ p) (x ∷ s)

-- The same by recursion.
star : (List ℕ → Bool) → List ℕ → Bool
star m [] = m []
star m (x ∷ s) = m (x ∷ s) || star m s

abbrev one : ℕ → (List ℕ → Bool) → List ℕ → Bool
one c m [] = false
one c m (x ∷ s) = ((c == b'?') || (fold_ascii c == fold_ascii x)) && m s

abbrev step : ℕ → (List ℕ → Bool) → List ℕ → Bool
step c m s = if c == b'*' then star m s else one c m s

is_nil : List ℕ → Bool
is_nil [] = true
is_nil (x ∷ s) = false

accepts : List ℕ → List ℕ → Bool
accepts [] s = is_nil s
accepts (c ∷ p) s = step c (accepts p) s

-- Some place of a row that holds, from which the rest of the input is accepted.
from_row : (List ℕ → Bool) → List Bool → List ℕ → Bool
from_row m [] s = false
from_row m (b ∷ row) [] = b && m []
from_row m (b ∷ row) (x ∷ s) = (b && m (x ∷ s)) || from_row m row s

data Fitting : List Bool → List ℕ → Type 0 where
  last : (b : Bool) → Fitting (b ∷ []) []
  more :
      {row : List Bool} {s : List ℕ} (b : Bool) (x : ℕ) → Fitting row s → Fitting (b ∷ row) (x ∷ s)

star_row :
    (m : List ℕ → Bool) (c : ℕ) (left above : Bool) (row : List Bool) (s : List ℕ)
    → (c == b'*') ≡ true
    → Fitting (above ∷ row) s
    → from_row m (left ∷ row_rest c left (above ∷ row) s) s ≡ from_row (star m) (left ∷ row) s
unfolding from_row row_rest entry star
star_row m c left above row s e (last b) = refl
star_row m c left above row s e (more b x (last b2)) = ground arith
star_row m c left above row s e (more b x (more {row = row'} {s = s'} b2 y f)) =
    ground (arith, star_row m c (entry c left above b2 x) b2 row' (y ∷ s') e (more b2 y f))

plain_row :
    (m : List ℕ → Bool) (c : ℕ) (left above : Bool) (row : List Bool) (s : List ℕ)
    → (c == b'*') ≡ false
    → Fitting (above ∷ row) s
    → from_row m (left ∷ row_rest c left (above ∷ row) s) s
      ≡ (left && m s || from_row (one c m) (above ∷ row) s)
unfolding from_row row_rest entry
plain_row m c left above row s e (last b) = ground arith
plain_row m c left above row s e (more b x (last b2)) = ground arith
plain_row m c left above row s e (more b x (more {row = row'} {s = s'} b2 y f)) =
    ground (arith, plain_row m c (entry c left above b2 x) b2 row' (y ∷ s') e (more b2 y f))

next_row_lem :
    (m : List ℕ → Bool) (c : ℕ) (row : List Bool) (s : List ℕ)
    → Fitting row s
    → from_row m (next_row c row s) s ≡ from_row (step c m) row s
unfolding next_row
next_row_lem m c [] s f = elim f [ ]
next_row_lem m c (above ∷ row) s f = elim (Bool-cases (c == b'*')) [
  | inl e ↦
      let as_star : step c m ≡ star m = fun_ext (λ t. rw e) in
      rw (as_star, e) (star_row m c above above row s e f)
  | inr e ↦
      let as_one : step c m ≡ one c m = fun_ext (λ t. rw e) in
      rw (as_one, e) (plain_row m c false above row s e f)
]

row_rest-Fitting :
    (c : ℕ) (left above : Bool) (row : List Bool) (s : List ℕ)
    → Fitting (above ∷ row) s
    → Fitting (left ∷ row_rest c left (above ∷ row) s) s
unfolding row_rest
row_rest-Fitting c left above row s (last b) = last left
row_rest-Fitting c left above row s (more b x (last b2)) =
    more left x (last (entry c left above b2 x))
row_rest-Fitting c left above row s (more b x (more {row = row'} {s = s'} b2 y f)) =
    more left x (row_rest-Fitting c (entry c left above b2 x) b2 row' (y ∷ s') (more b2 y f))

next_row-Fitting :
    (c : ℕ) (row : List Bool) (s : List ℕ) → Fitting row s → Fitting (next_row c row s) s
unfolding next_row
next_row-Fitting c [] s f = elim f [ ]
next_row-Fitting c (above ∷ row) s f = row_rest-Fitting c _ above row s f

last_row : (row : List Bool) (s : List ℕ) → Fitting row s → last_or row ≡ from_row is_nil row s
unfolding from_row is_nil
last_row row s (last b) = ground arith
last_row row s (more b x (last b2)) = ground arith
last_row row s (more b x (more {row = row'} {s = s'} b2 y f)) =
    ground (arith, last_row (b2 ∷ row') (y ∷ s') (more b2 y f))

rows_lem :
    (p : List ℕ) (row : List Bool) (s : List ℕ)
    → Fitting row s
    → last_or (rows p row s) ≡ from_row (accepts p) row s
unfolding rows accepts
rows_lem [] row s f = last_row row s f
rows_lem (c ∷ p) row s f =
    rows_lem p (next_row c row s) s (next_row-Fitting c row s f)
    ∙ next_row_lem (accepts p) c row s f

blanks-Fitting : (b : Bool) (s : List ℕ) → Fitting (b ∷ blanks s) s
blanks-Fitting b [] = last b
blanks-Fitting b (x ∷ s) = more b x (blanks-Fitting false s)

from_blanks : (m : List ℕ → Bool) (b : Bool) (s : List ℕ) → from_row m (b ∷ blanks s) s ≡ (b && m s)
unfolding from_row
from_blanks m b [] = refl
from_blanks m b (x ∷ s) = ground (arith, from_blanks m false s)

segment_match-accepts : (p s : List ℕ) → segment_match p s ≡ accepts p s
unfolding segment_match
segment_match-accepts p s =
    rows_lem p (true ∷ blanks s) s (blanks-Fitting true s) ∙ from_blanks (accepts p) true s

star_sound :
    (m : List ℕ → Bool) (c : ℕ) (p s : List ℕ)
    → ((t : List ℕ) → m t ≡ true → Matches p t)
    → c ≡ b'*'
    → star m s ≡ true
    → Matches (c ∷ p) s
unfolding star
star_sound m c p [] h e k = star_none e (h [] k)
star_sound m c p (x ∷ s) h e k = elim (Bool-cases (m (x ∷ s))) [
  | inl now ↦ star_none e (h (x ∷ s) now)
  | inr later ↦ star_more e (star_sound m c p s h e (ground arith))
]

one_sound :
    (m : List ℕ → Bool) (c : ℕ) (p s : List ℕ)
    → ((t : List ℕ) → m t ≡ true → Matches p t)
    → c ≢ b'*'
    → one c m s ≡ true
    → Matches (c ∷ p) s
one_sound m c p [] h ne k = cc
one_sound m c p (x ∷ s) h ne k = elim (Bool-cases (c == b'?')) [
  | inl q ↦ wild ((==_iff _ _).0 q) (h s (ground arith))
  | inr q ↦ same ne (ground arith) (h s (ground arith))
]

accepts_sound : (p s : List ℕ) → accepts p s ≡ true → Matches p s
unfolding accepts is_nil
accepts_sound [] [] h = done
accepts_sound [] (x ∷ s) h = cc
accepts_sound (c ∷ p) s h = elim (Bool-cases (c == b'*')) [
  | inl e ↦ star_sound (accepts p) c p s (accepts_sound p) ((==_iff _ _).0 e) (rw e at h)
  | inr e ↦ one_sound (accepts p) c p s (accepts_sound p) (ground arith) (rw e at h)
]

star_of : (m : List ℕ → Bool) (s : List ℕ) → m s ≡ true → star m s ≡ true
unfolding star
star_of m [] h = h
star_of m (x ∷ s) h = ground arith

star_step : (m : List ℕ → Bool) (x : ℕ) (s : List ℕ) → star m s ≡ true → star m (x ∷ s) ≡ true
unfolding star
star_step m x s h = ground arith

accepts_complete : {p s : List ℕ} → Matches p s → accepts p s ≡ true
unfolding accepts is_nil
accepts_complete done = refl
accepts_complete (star_none {c} {p} {s} e h) =
    let ih = star_of (accepts p) s (accepts_complete h) in ground arith
accepts_complete (star_more {c} {x} {p} {s} e h) =
    let ih = accepts_complete h in
    let shorter : star (accepts p) s ≡ true = ground arith in
    let longer = star_step (accepts p) x s shorter in ground arith
accepts_complete (wild e h) = let ih = accepts_complete h in ground arith
accepts_complete (same ne e h) = let ih = accepts_complete h in ground arith

-- The table answers true exactly if the pattern matches the input.
pub segment_match_iff : (p s : List ℕ) → (segment_match p s ≡ true) ↔ Matches p s
segment_match_iff p s = (
  λ h. accepts_sound p s (sym (segment_match-accepts p s) ∙ h),
  λ h. segment_match-accepts p s ∙ accepts_complete h,
)

-- A whole path: as many segments as the pattern, each matched by its own.
pub data AllMatch : List (List ℕ) → List Text → Type 0 where
  none_left : AllMatch [] []
  next :
      {p : List ℕ} {t : Text} {ps : List (List ℕ)} {ts : List Text}
      → Matches p (code_points t)
      → AllMatch ps ts
      → AllMatch (p ∷ ps) (t ∷ ts)

match_segments_sound :
    (ps : List (List ℕ)) (ts : List Text)
    → length ts ≡ length ps
    → match_segments ps ts ≡ true
    → AllMatch ps ts
unfolding match_segments
match_segments_sound [] [] alike h = none_left
match_segments_sound [] (t ∷ ts) alike h = absurd (omega arith)
match_segments_sound (p ∷ ps) [] alike h = absurd (omega arith)
match_segments_sound (p ∷ ps) (t ∷ ts) alike h =
    next ((segment_match_iff p (code_points t)).0 (ground arith))
      (match_segments_sound ps ts (omega arith) (ground arith))

match_segments_complete :
    {ps : List (List ℕ)} {ts : List Text} → AllMatch ps ts → match_segments ps ts ≡ true
unfolding match_segments
match_segments_complete none_left = refl
match_segments_complete (next {p} {t} m rest) =
    rw ((segment_match_iff p (code_points t)).1 m) (match_segments_complete rest)

AllMatch-length : {ps : List (List ℕ)} {ts : List Text} → AllMatch ps ts → length ts ≡ length ps
AllMatch-length none_left = refl
AllMatch-length (next m rest) = ap suc (AllMatch-length rest)

matcher_AllMatch :
    (segments : List (List ℕ)) (input : Text)
    → (matcher segments input ≡ true) ↔ AllMatch segments (split_slash input)
unfolding matcher
matcher_AllMatch segments input = (
  λ h. match_segments_sound segments (split_slash input) (ground arith) (ground arith),
  λ h. let complete = match_segments_complete h in let fits = AllMatch-length h in ground arith,
)

validate_pattern-some :
    (pattern : Text) (segments : List Text)
    → validate_pattern pattern ≡ some segments
    → segments ≡ split_slash pattern
unfolding validate_pattern
validate_pattern-some pattern segments h = ground arith

compile_fresh-some :
    (pattern : Text) (m : Matcher)
    → compile_fresh pattern ≡ some m
    → m ≡ matcher (map code_points (split_slash pattern))
unfolding compile_fresh
compile_fresh-some pattern m h = elim (Option-cases (validate_pattern pattern)) [
  | inl e ↦ cc (e, h)
  | inr (segments, e) ↦
      let same = validate_pattern-some pattern segments e in
      let built : some (matcher (map code_points segments)) ≡ some m = rw (e, with_segments) at h in
      cc
]

-- A compiled pattern accepts exactly the paths whose segments match the pattern's, one to one.
pub matcher_iff :
    (pattern : Text) (m : Matcher) (input : Text)
    → compile_fresh pattern ≡ some m
    → (m input ≡ true) ↔ AllMatch (map code_points (split_slash pattern)) (split_slash input)
matcher_iff pattern m input h =
    rw (compile_fresh-some pattern m h)
      (matcher_AllMatch (map code_points (split_slash pattern)) input)
