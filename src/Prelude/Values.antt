-- ===== src/Prelude/Values.antt =====
-- The values of the dynamic language, as decoded JSON and as untyped arguments. A float has its value
-- where that is a whole number, and its text.
use Prim.Native.Nat.{ℕ, suc}
use Prim.Native.String.{String}
use mathlib.Core.Bool.{Bool, true, false, ◌&&◌}
use mathlib.Core.Option.{Option, none, some}
use mathlib.Core.List.{List, [], ◌∷◌}
use text.Mathlib.Text.{◌==◌ as str_eq}
use kapsl_integrations.Prelude.Tests.{◌==◌, if◌then◌else◌}

-- `negsuc n` is -(n + 1).
pub data ℤ : Type 0 where
  pos negsuc : ℕ → ℤ

mutual
  pub data Fields : Type 0 where
    no_fields : Fields
    entry : String → Value → Fields → Fields

  pub data Items : Type 0 where
    no_items : Items
    item : Value → Items → Items

  pub data Value : Type 0 where
    null : Value
    bool : Bool → Value
    int : ℤ → Value
    float : Option ℤ → String → Value
    str : String → Value
    obj : Fields → Value
    arr : Items → Value

-- `mapping.get(key)`: `None` for a missing key.
unfoldable pub get : Fields → String → Value
get no_fields key = null
get (entry name value rest) key = if str_eq name key then value else get rest key

-- `mapping.get(key, default)`, with `none` for a missing key.
unfoldable pub lookup : Fields → String → Option Value
lookup no_fields key = none
lookup (entry name value rest) key = if str_eq name key then some value else lookup rest key

-- The elements of a JSON array.
unfoldable pub elements : Items → List Value
elements no_items = []
elements (item value rest) = value ∷ elements rest

-- `set(mapping)`, as a list.
unfoldable pub keys : Fields → List String
keys no_fields = []
keys (entry name value rest) = name ∷ keys rest

-- `mapping.get(key, default)`
abbrev pub get_or : Fields → String → Value → Value
get_or fields key default = elim (lookup fields key) [ none ↦ default | some value ↦ value ]

abbrev pub same_integer : ℤ → ℤ → Bool
same_integer (pos m) (pos n) = m == n
same_integer (negsuc m) (negsuc n) = m == n
same_integer _ _ = false

-- The number that a value is equal to: `True == 1 == 1.0`.
abbrev pub number_of : Value → Option ℤ
number_of (int z) = some z
number_of (bool true) = some (pos 1)
number_of (bool false) = some (pos 0)
number_of (float whole text) = whole
number_of _ = none

abbrev pub same_number : Option ℤ → Option ℤ → Bool
same_number (some a) (some b) = same_integer a b
same_number _ _ = false

abbrev pub size : Fields → ℕ
size no_fields = 0
size (entry name value rest) = suc (size rest)

-- `==` of decoded values: of lists in order, of dictionaries in any order.
unfoldable mutual
  pub same_value : Value → Value → Bool
  same_value null null = true
  same_value (str s) (str t) = str_eq s t
  same_value (float none s) (float none t) = str_eq s t
  same_value (arr xs) (arr ys) = same_items xs ys
  same_value (obj f) (obj g) = size f == size g && same_fields f g
  same_value a b = same_number (number_of a) (number_of b)

  pub same_items : Items → Items → Bool
  same_items no_items no_items = true
  same_items (item a xs) (item b ys) = same_value a b && same_items xs ys
  same_items _ _ = false

  pub same_fields : Fields → Fields → Bool
  same_fields no_fields g = true
  same_fields (entry name value rest) g =
      elim (lookup g name) [ none ↦ false | some other ↦ same_value value other ]
      && same_fields rest g
