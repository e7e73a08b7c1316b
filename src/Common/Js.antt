-- ===== src/Common/Js.antt =====
-- JavaScript values as the checks at the program's seams see them: what `JSON.parse` gives, and
-- functions. An object is its own enumerable data properties in order; accessors, symbol keys,
-- proxies and throwing getters are left out.
use Prim.Native.Nat.{ℕ}
use mathlib.Core.Path.{◌≡◌, refl}
use mathlib.Core.Bool.{Bool}
use mathlib.Core.Option.{Option, none, some}
use mathlib.Core.List.{List, [], ◌∷◌}
use nook_bridge.Common.Tests.{leb, if◌then◌else◌}
use nook_bridge.Common.Texts.{Text, text_eq}

-- `nat n` is n and `negative n` is -(n + 1); `inexact` is a fraction, a NaN or an infinity.
pub data JsNumber : Type 0 where
  nat negative : ℕ → JsNumber
  inexact : JsNumber

mutual
  pub data JsValue : Type 0 where
    undefined null function : JsValue
    boolean : Bool → JsValue
    number : JsNumber → JsValue
    string : Text → JsValue
    array : JsItems → JsValue
    object : JsFields → JsValue

  pub data JsItems : Type 0 where
    nil : JsItems
    cons : JsValue → JsItems → JsItems

  pub data JsFields : Type 0 where
    end : JsFields
    field : Text → JsValue → JsFields → JsFields

-- A missing property reads as `undefined`.
unfoldable pub property : Text → JsFields → JsValue
property key end = undefined
property key (field k v fs) = if text_eq k key then v else property key fs

-- `Reflect.ownKeys(value)`.
abbrev pub own_keys : JsFields → List Text
own_keys end = []
own_keys (field k v fs) = k ∷ own_keys fs

abbrev pub items : JsItems → List JsValue
items nil = []
items (cons v vs) = v ∷ items vs

abbrev pub from_items : List JsValue → JsItems
from_items [] = nil
from_items (v ∷ vs) = cons v (from_items vs)

pub items-from_items : (vs : List JsValue) → items (from_items vs) ≡ vs
items-from_items [] = refl
items-from_items (v ∷ vs) = λ i. v ∷ items-from_items vs i

-- `Number.MAX_SAFE_INTEGER`.
abbrev pub max_safe_integer : ℕ
max_safe_integer = 9007199254740991

-- A number that is a safe integer of at least `low`.
abbrev pub safe_from : ℕ → JsValue → Option ℕ
safe_from low (number (nat n)) =
    if leb low n then (if leb n max_safe_integer then some n else none) else none
safe_from low _ = none

abbrev pub text_of : JsValue → Option Text
text_of (string s) = some s
text_of _ = none
