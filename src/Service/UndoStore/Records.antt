-- ===== src/Service/UndoStore/Records.antt =====
-- service/notes-undo-store.ts: the map of records as a list of entries with distinct handles.
use nook_bridge.Common.{
  suc, is_some, ◌+◌, ◌≤◌, ◌≡◌, refl, sym, ap, ◌∙◌, true, false, Option, none, some, List, [], ◌∷◌,
  Text, text_eq, text_eq_sound, text_eq_refl, arith, Bool-cases, inl, inr, All, length,
  if◌then◌else◌,
}
use nook_bridge.Service.UndoStore.Types.{Entry, entry_of, put, drop, total_bytes}

pub text_eq_sym : (s t : Text) → text_eq s t ≡ text_eq t s
unfolding text_eq
text_eq_sym [] [] = refl
text_eq_sym [] (y ∷ t) = refl
text_eq_sym (x ∷ s) [] = refl
text_eq_sym (x ∷ s) (y ∷ t) = ground (arith, text_eq_sym s t)

abbrev pub Distinct : List Entry → Type 0
Distinct [] = Unit
Distinct (e ∷ es) = (entry_of e.operation.handle es ≡ none) × Distinct es

-- Equal handles find the same entry.
entry_of-eq : (a b : Text) (es : List Entry) → text_eq a b ≡ true → entry_of a es ≡ entry_of b es
entry_of-eq a b es h = ap (λ t. entry_of t es) (text_eq_sound a b h)

abbrev handle_or : Text → Option Entry → Text
handle_or h none = h
handle_or h (some e) = e.operation.handle

pub entry_of-handle :
    (h : Text) (es : List Entry) (e : Entry) → entry_of h es ≡ some e → e.operation.handle ≡ h
unfolding entry_of
entry_of-handle h [] e found = absurd (ground arith)
entry_of-handle h (x ∷ es) e found = elim (Bool-cases (text_eq x.operation.handle h)) [
  | inl same ↦
      ap (λ o. handle_or h o) (sym (rw same at found)) ∙ text_eq_sound x.operation.handle h same
  | inr other ↦ entry_of-handle h es e (rw other at found)
]

pub entry_of-put-none :
    (h : Text) (new : Entry) (es : List Entry)
    → text_eq new.operation.handle h ≡ false
    → entry_of h es ≡ none
    → entry_of h (put new es) ≡ none
unfolding entry_of put
entry_of-put-none h new [] apart gone = rw apart refl
entry_of-put-none h new (e ∷ es) apart gone =
    elim (Bool-cases (text_eq e.operation.handle new.operation.handle)) [
      | inl same ↦ rw (same, apart) (ground arith)
      | inr other ↦ rw other (ground (arith, entry_of-put-none h new es apart))
    ]

pub entry_of-drop-none :
    (h x : Text) (es : List Entry) → entry_of x es ≡ none → entry_of x (drop h es) ≡ none
unfolding entry_of drop
entry_of-drop-none h x [] gone = refl
entry_of-drop-none h x (e ∷ es) gone = ground (arith, entry_of-drop-none h x es)

pub entry_of-drop-other :
    (h x : Text) (es : List Entry) → text_eq x h ≡ false → entry_of x (drop h es) ≡ entry_of x es
unfolding entry_of drop
entry_of-drop-other h x [] apart = refl
entry_of-drop-other h x (e ∷ es) apart =
    let rest = entry_of-drop-other h x es apart in
    elim (Bool-cases (text_eq e.operation.handle h)) [
      | inl same ↦
          let passed_over : text_eq e.operation.handle x ≡ false =
            ap (λ t. text_eq t x) (text_eq_sound e.operation.handle h same)
            ∙ text_eq_sym h x
            ∙ apart in
          rw (same, passed_over) rest
      | inr other ↦ rw other (ground arith)
    ]

pub Distinct-put : (new : Entry) (es : List Entry) → Distinct es → Distinct (put new es)
unfolding put entry_of
Distinct-put new [] d = (refl, tt)
Distinct-put new (e ∷ es) (gone, d) =
    elim (Bool-cases (text_eq e.operation.handle new.operation.handle)) [
      | inl same ↦
          rw same (sym (entry_of-eq e.operation.handle new.operation.handle es same) ∙ gone, d)
      | inr other ↦ rw other (
        entry_of-put-none e.operation.handle new es
            (text_eq_sym new.operation.handle e.operation.handle ∙ other) gone,
        Distinct-put new es d,
      )
    ]

pub Distinct-drop : (h : Text) (es : List Entry) → Distinct es → Distinct (drop h es)
unfolding drop
Distinct-drop h [] d = tt
Distinct-drop h (e ∷ es) (gone, d) = elim (Bool-cases (text_eq e.operation.handle h)) [
  | inl same ↦ rw same (Distinct-drop h es d)
  | inr other ↦ rw other (entry_of-drop-none h e.operation.handle es gone, Distinct-drop h es d)
]

-- Each of some entries is found under its handle.
abbrev pub AreIn : List Entry → List Entry → Type 0
AreIn records = All (λ e. entry_of e.operation.handle records ≡ some e)

found_beside :
    (x : Entry) (records : List Entry) (e : Entry)
    → entry_of x.operation.handle records ≡ none
    → entry_of e.operation.handle records ≡ some e
    → text_eq x.operation.handle e.operation.handle ≡ false
found_beside x records e gone found =
    elim (Bool-cases (text_eq x.operation.handle e.operation.handle)) [
      | inl same ↦
          let clash =
            sym gone ∙ entry_of-eq x.operation.handle e.operation.handle records same ∙ found in
          absurd (ground arith)
      | inr other ↦ other
    ]

AreIn-more :
    (x : Entry) (records es : List Entry)
    → entry_of x.operation.handle records ≡ none
    → AreIn records es
    → AreIn (x ∷ records) es
unfolding entry_of
AreIn-more x records [] gone h = tt
AreIn-more x records (e ∷ es) gone (found, h) =
    (rw (found_beside x records e gone found) found, AreIn-more x records es gone h)

pub Distinct-AreIn : (es : List Entry) → Distinct es → AreIn es es
unfolding entry_of
Distinct-AreIn [] d = tt
Distinct-AreIn (e ∷ es) (gone, d) =
    (rw (text_eq_refl e.operation.handle) refl, AreIn-more e es es gone (Distinct-AreIn es d))

pub none_beside :
    (h : Text) (e : Entry) (es : List Entry)
    → entry_of h (e ∷ es) ≡ none
    → (text_eq e.operation.handle h ≡ false) × (entry_of h es ≡ none)
unfolding entry_of
none_beside h e es gone = (ground arith, ground arith)

-- Dropping one entry leaves the others found.
pub AreIn-drop :
    (h : Text) (records es : List Entry)
    → entry_of h es ≡ none
    → AreIn records es
    → AreIn (drop h records) es
AreIn-drop h records [] gone found = tt
AreIn-drop h records (e ∷ es) gone (here, found) =
    let (apart, rest) = none_beside h e es gone in
    (
      entry_of-drop-other h e.operation.handle records apart ∙ here,
      AreIn-drop h records es rest found,
    )

pub length-put :
    (new : Entry) (es : List Entry)
    → length (put new es)
      ≡ (if is_some (entry_of new.operation.handle es) then length es else suc (length es))
unfolding put entry_of
length-put new [] = refl
length-put new (e ∷ es) = ground (arith, length-put new es)

pub total_bytes-put-le :
    (new : Entry) (es : List Entry) → total_bytes (put new es) ≤ total_bytes es + new.bytes
unfolding put total_bytes
total_bytes-put-le new [] = omega arith
total_bytes-put-le new (e ∷ es) = ground (arith, total_bytes-put-le new es)

pub total_bytes-drop-le : (h : Text) (es : List Entry) → total_bytes (drop h es) ≤ total_bytes es
unfolding drop total_bytes
total_bytes-drop-le h [] = omega arith
total_bytes-drop-le h (e ∷ es) = ground (arith, total_bytes-drop-le h es)
