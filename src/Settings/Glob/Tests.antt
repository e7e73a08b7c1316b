-- ===== src/Settings/Glob/Tests.antt =====
-- settings/settings-glob.ts: the theorems on concrete patterns, and some runs.
use nook_bridge.Common.{
  ◌≡◌, ◌↔◌, refl, true, false, some, [], ◌∷◌, map, Text, codes, code_points, split_slash,
}
use nook_bridge.Settings.Glob.{
  Matcher, fold_ascii, entry, row_rest, next_row, rows, segment_match, validate_pattern, matcher,
  compile_fresh,
}
use nook_bridge.Settings.Glob.Matching.{Matches, segment_match_iff, AllMatch, matcher_iff}
use nook_bridge.Settings.Glob.Cache.{Cache}

segment_runs :
    (segment_match (codes "a*Z?") (codes "Abcz!") ≡ true)
    × (segment_match (codes "a*b") (codes "ac") ≡ false)
unfolding segment_match rows next_row row_rest entry fold_ascii
segment_runs = (refl, refl)

abbrev projects : Text
projects = codes "Projects/*"

abbrev projects_matcher : Matcher
projects_matcher = matcher (map code_points (split_slash projects))

projects_compile : compile_fresh projects ≡ some projects_matcher
unfolding compile_fresh validate_pattern code_points
projects_compile = refl

segment_match_iff_example :
    (segment_match (codes "a*") (codes "abc") ≡ true) ↔ Matches (codes "a*") (codes "abc")
segment_match_iff_example = segment_match_iff (codes "a*") (codes "abc")

matcher_iff_example :
    (projects_matcher (codes "projects/x") ≡ true)
    ↔ AllMatch (map code_points (split_slash projects)) (split_slash (codes "projects/x"))
matcher_iff_example = matcher_iff projects projects_matcher (codes "projects/x") projects_compile

abbrev warm : Cache
warm = (projects, projects_matcher) ∷ []
