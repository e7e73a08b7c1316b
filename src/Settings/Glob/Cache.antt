-- ===== src/Settings/Glob/Cache.antt =====
-- settings/settings-glob.ts: the cache of compiled patterns, and `globMatch`.
use nook_bridge.Common.{
  ◌≡◌, refl, sym, ◌∙◌, Bool, Option, none, some, List, [], ◌∷◌, Text, text_eq, text_eq_sound,
  if◌then◌else◌, All, Bool-cases, Option-cases, inl, inr,
}
use nook_bridge.Settings.Glob.{Matcher, compile_fresh}

abbrev pub Cache : Type 0
Cache = List (Text × Matcher)

unfoldable pub find : Text → Cache → Option Matcher
find pattern [] = none
find pattern ((p, m) ∷ cache) = if text_eq p pattern then some m else find pattern cache

abbrev pub remember : Cache → Text → Option Matcher → Cache × Option Matcher
remember cache pattern none = (cache, none)
remember cache pattern (some m) = ((pattern, m) ∷ cache, some m)

abbrev pub lookup_or_compile : Cache → Text → Option Matcher → Cache × Option Matcher
lookup_or_compile cache pattern none = remember cache pattern (compile_fresh pattern)
lookup_or_compile cache pattern (some m) = (cache, some m)

-- `compileGlob`: `none` is the error, and leaves the cache as it was.
unfoldable pub compile_glob : Cache → Text → Cache × Option Matcher
compile_glob cache pattern = lookup_or_compile cache pattern (find pattern cache)

abbrev pub apply_to : Text → Option Matcher → Option Bool
apply_to input none = none
apply_to input (some m) = some (m input)

unfoldable pub glob_match : Cache → Text → Text → Cache × Option Bool
glob_match cache pattern input =
    let (cache', m) = compile_glob cache pattern in (cache', apply_to input m)

-- Every cached matcher is the one that its pattern compiles to.
abbrev pub IsFaithful : Cache → Type 0
IsFaithful = All (λ e. compile_fresh e.0 ≡ some e.1)

find-compile_fresh :
    (pattern : Text) (cache : Cache) (m : Matcher)
    → IsFaithful cache
    → find pattern cache ≡ some m
    → compile_fresh pattern ≡ some m
unfolding find
find-compile_fresh pattern [] m f h = cc
find-compile_fresh pattern ((p, n) ∷ cache) m (here, f) h = elim (Bool-cases (text_eq p pattern)) [
  | inl e ↦ let hit : some n ≡ some m = rw e at h in rw (← text_eq_sound p pattern e) (here ∙ hit)
  | inr e ↦ find-compile_fresh pattern cache m f (rw e at h)
]

-- With any cache that earlier compilations left, a pattern compiles to what it compiles to afresh,
-- errors included, and the cache stays faithful.
pub compile_glob_transparent :
    (cache : Cache) (pattern : Text)
    → IsFaithful cache
    → ((compile_glob cache pattern).1 ≡ compile_fresh pattern)
      × IsFaithful (compile_glob cache pattern).0
unfolding compile_glob
compile_glob_transparent cache pattern f = elim (Option-cases (find pattern cache)) [
  | inl e ↦ rw e (elim (Option-cases (compile_fresh pattern)) [
    | inl c ↦ rw c (refl, f)
    | inr (m, c) ↦ rw c (refl, (c, f))
  ])
  | inr (m, e) ↦ rw e (sym (find-compile_fresh pattern cache m f e), f)
]
