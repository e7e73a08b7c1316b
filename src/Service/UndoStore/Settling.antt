-- ===== src/Service/UndoStore/Settling.antt =====
-- service/notes-undo-store.ts: what holds after a step without an error, and the settling of the
-- writes in doubt.
use nook_bridge.Common.{
  ℕ, ◌≡◌, ◌≢◌, refl, sym, ap, subst, ◌∙◌, Bool, true, false, Option, none, some, List, [], ◌∷◌,
  Text, text_eq, text_eq_sound, arith, Bool-cases, inl, inr, if◌then◌else◌,
}
use nook_bridge.Service.UndoStore.Types.{
  committing, unresolved, Entry, same_state, Result, ok, err, Store, entry_of, put, drop,
}
use nook_bridge.Service.UndoStore.Records.{
  Distinct, Distinct-put, Distinct-drop, Distinct-AreIn, AreIn, none_beside, text_eq_sym,
  entry_of-drop-other,
}
use nook_bridge.Service.UndoStore.Life.{state_in, state_of, put_same, put_other, dropped_at}
use nook_bridge.Service.UndoStore.{and_then, after_io}

-- A property of the store after a step, if the step ended without an error.
abbrev pub OnOk {ℓ} : {D : Type 0} {A : Type ℓ} → (Store D → Type 0) → Store D × Result A → Type 0
OnOk P (s, ok a) = P s
OnOk P (s, err e) = Unit

pub and_then-OnOk {ℓ κ} :
    {D : Type 0} {A : Type ℓ} {B : Type κ} (P Q : Store D → Type 0) (p : Store D × Result A)
    (next : A → Store D → Store D × Result B)
    → OnOk P p
    → ((a : A) (s : Store D) → P s → OnOk Q (next a s))
    → OnOk Q (and_then p next)
and_then-OnOk P Q (s, ok a) next h f = f a s h
and_then-OnOk P Q (s, err e) next h f = tt

pub if_OnOk {ℓ} :
    {D : Type 0} {A : Type ℓ} (P : Store D → Type 0) (b : Bool) (x y : Store D × Result A)
    → (b ≡ true → OnOk P x)
    → (b ≡ false → OnOk P y)
    → OnOk P (if b then x else y)
if_OnOk P true x y f g = f refl
if_OnOk P false x y f g = g refl

pub io_then-OnOk {ℓ} :
    {D : Type 0} {B : Type ℓ} (P : Store D → Type 0) (s : Store D) (p : D × Bool)
    (next : Unit {0} → Store D → Store D × Result B)
    → ((disk : D) → OnOk P (next tt (record s { disk = disk })))
    → OnOk P (and_then (after_io s p) next)
io_then-OnOk P s (disk, true) next f = f disk
io_then-OnOk P s (disk, false) next f = tt

-- No handle that is not among some entries is in doubt, and those entries are there.
pub record Settling (es : List Entry) (records : List Entry) : Type 0 where
  pub beside : (h : Text) → entry_of h es ≡ none → state_of h records ≢ some committing
  pub there : AreIn records es
  pub unique : Distinct records

AreIn-put :
    (new : Entry) (records es : List Entry)
    → entry_of new.operation.handle es ≡ none
    → AreIn records es
    → AreIn (put new records) es
AreIn-put new records [] gone found = tt
AreIn-put new records (e ∷ es) gone (here, found) =
    let (apart, rest) = none_beside new.operation.handle e es gone in
    (
      put_other e.operation.handle new records
            (text_eq_sym new.operation.handle e.operation.handle ∙ apart)
          ∙ here,
      AreIn-put new records es rest found,
    )

none_on_top :
    (h : Text) (e : Entry) (es : List Entry)
    → text_eq e.operation.handle h ≡ false
    → entry_of h es ≡ none
    → entry_of h (e ∷ es) ≡ none
unfolding entry_of
none_on_top h e es away gone = rw away gone

not_in_doubt :
    (o : Option Entry) (e : Entry)
    → o ≡ some e
    → same_state e.operation.state committing ≡ false
    → state_in o ≢ some committing
unfolding same_state
not_in_doubt o e found other doubt =
    let clash : state_in (some e) ≡ some committing = ap state_in (sym found) ∙ doubt in
    ground arith

unresolved_is_other : same_state unresolved committing ≡ false
unfolding same_state
unresolved_is_other = refl

pub settle_put :
    (e : Entry) (es records : List Entry) (bytes : ℕ)
    → Distinct (e ∷ es)
    → Settling (e ∷ es) records
    → Settling es (
        put
          (record { operation = record e.operation { state = unresolved }; bytes = bytes })
          records)
settle_put e es records bytes (gone, d) h =
    let new : Entry = record {
      operation = record e.operation { state = unresolved };
      bytes = bytes;
    } in
    record {
      beside = λ x away. elim (Bool-cases (text_eq e.operation.handle x)) [
        | inl here ↦
            not_in_doubt (entry_of x (put new records)) new (put_same x new records here)
              unresolved_is_other
        | inr apart ↦
            subst (λ o. state_in o ≢ some committing) (sym (put_other x new records apart))
              (h.beside x (none_on_top x e es apart away))
      ];
      there = AreIn-put new records es gone h.there.1;
      unique = Distinct-put new records h.unique;
    }

pub settle_skip :
    (e : Entry) (es records : List Entry)
    → same_state e.operation.state committing ≡ false
    → Settling (e ∷ es) records
    → Settling es records
settle_skip e es records other h = record {
  beside = λ x away. elim (Bool-cases (text_eq e.operation.handle x)) [
    | inl here ↦
        not_in_doubt (entry_of x records) e
          (ap (λ t. entry_of t records) (sym (text_eq_sound e.operation.handle x here)) ∙ h.there.0)
          other
    | inr apart ↦ h.beside x (none_on_top x e es apart away)
  ];
  there = h.there.1;
  unique = h.unique;
}

pub Settling-drop :
    (a : Text) (records : List Entry) → Settling [] records → Settling [] (drop a records)
Settling-drop a records h = record {
  beside = λ x away. elim (Bool-cases (text_eq x a)) [
    | inl here ↦
        subst (λ o. state_in o ≢ some committing)
          (sym (dropped_at a x records (text_eq_sym a x ∙ here))) (λ doubt. absurd (ground arith))
    | inr apart ↦
        subst (λ o. state_in o ≢ some committing) (sym (entry_of-drop-other a x records apart))
          (h.beside x away)
  ];
  there = tt;
  unique = Distinct-drop a records h.unique;
}

pub Settling-start : (records : List Entry) → Distinct records → Settling records records
Settling-start records d = record {
  beside = λ x away.
      subst (λ o. state_in o ≢ some committing) (sym away) (λ doubt. absurd (ground arith));
  there = Distinct-AreIn records d;
  unique = d;
}
