-- ===== src/Agents/Json.antt =====
-- The values that `JSON.parse` of the language gives, as far as src/agents/BaseAgent.ts reads them:
-- of a number it asks only whether it is zero.
use harp_ochestration.Prelude.{
  ℕ, String, Bool, true, false, not, List, [], ◌∷◌, Option, none, some, if◌then◌else◌, ◌==◌,
  string_eq,
}

mutual
  pub data Json : Type 0 where
    null : Json
    boolean : Bool → Json
    number : (is_zero : Bool) → Json
    string : String → Json
    array : Items → Json
    object : Fields → Json

  pub data Items : Type 0 where
    nil : Items
    cons : Json → Items → Items

  pub data Fields : Type 0 where
    end : Fields
    field : String → Json → Fields → Fields

-- `JSON.parse` on the code points of a text; `none` is a throw.
abbrev pub ParseJson : Type 0
ParseJson = List ℕ → Option Json

abbrev pub get_field : String → Fields → Option Json
get_field name end = none
get_field name (field key value rest) = if key == name then some value else get_field name rest

-- `value.name`: reading a field of `null` throws; `none` in the middle is `undefined`.
abbrev pub property : String → Json → Option Json
property name (object fields) = get_field name fields
property name _ = none

-- `value ? … : …`
abbrev pub is_truthy : Option Json → Bool
is_truthy none = false
is_truthy (some null) = false
is_truthy (some (boolean b)) = b
is_truthy (some (number is_zero)) = not is_zero
is_truthy (some (string s)) = if s == "" then false else true
is_truthy (some (array items)) = true
is_truthy (some (object fields)) = true

-- `value.filter((v) => typeof v === "string")`
abbrev pub strings : Items → List String
strings nil = []
strings (cons (string s) rest) = s ∷ strings rest
strings (cons null rest) = strings rest
strings (cons (boolean b) rest) = strings rest
strings (cons (number z) rest) = strings rest
strings (cons (array items) rest) = strings rest
strings (cons (object fields) rest) = strings rest
