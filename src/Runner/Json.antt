-- ===== src/Runner/Json.antt =====
-- The values of encoding/json that an `any` holds, and what the runner does with them.
use gocoon.Common.{ℕ, Bool, Bytes, List, [], ◌∷◌, Option, none, some, ◌≡◌, refl, ap}

-- A number is the bit pattern of a float64. A Go map has no order and no key twice; its order here
-- does not count.
mutual
  pub data Json : Type 0 where
    null : Json
    boolean : Bool → Json
    number : ℕ → Json
    string : Bytes → Json
    array : Items → Json
    object : Fields → Json

  pub data Items : Type 0 where
    nil : Items
    cons : Json → Items → Items

  pub data Fields : Type 0 where
    end : Fields
    field : Bytes → Json → Fields → Fields

-- `map[string]any`
abbrev pub Object : Type 0
Object = List (Bytes × Json)

abbrev pub items : Items → List Json
items nil = []
items (cons x xs) = x ∷ items xs

abbrev pub of_items : List Json → Items
of_items [] = nil
of_items (x ∷ xs) = cons x (of_items xs)

abbrev pub fields : Fields → Object
fields end = []
fields (field k v f) = (k, v) ∷ fields f

abbrev pub of_fields : Object → Fields
of_fields [] = end
of_fields ((k, v) ∷ o) = field k v (of_fields o)

abbrev pub map_json : Object → Json
map_json o = object (of_fields o)

abbrev pub list_json : List Json → Json
list_json xs = array (of_items xs)

-- The type assertions `v.(map[string]any)`, `v.([]any)` and `v.(string)`; the value of a missing
-- key is nil.
abbrev pub as_object : Option Json → Option Object
as_object (some (object f)) = some (fields f)
as_object _ = none

abbrev pub as_array : Option Json → Option (List Json)
as_array (some (array xs)) = some (items xs)
as_array _ = none

-- `s, _ := v.(string)`
abbrev pub string_or_empty : Option Json → Bytes
string_or_empty (some (string s)) = s
string_or_empty _ = []

pub fields-of_fields : (o : Object) → fields (of_fields o) ≡ o
fields-of_fields [] = refl
fields-of_fields ((k, v) ∷ o) = ap (λ (t : Object). (k, v) ∷ t) (fields-of_fields o)

pub items-of_items : (xs : List Json) → items (of_items xs) ≡ xs
items-of_items [] = refl
items-of_items (x ∷ xs) = ap (λ (t : List Json). x ∷ t) (items-of_items xs)

-- What the runner uses of encoding/json. `unmarshal_tools` is the length of the array that a struct
-- with a `tools` field gets, and `unmarshal_call` the name and the raw arguments.
pub record JsonLibrary : Type 0 where
  pub unmarshal : Bytes → Option Json
  pub marshal : Json → Option Bytes
  pub unmarshal_tools : Bytes → Option ℕ
  pub unmarshal_call : Bytes → Option (Bytes × Bytes)
