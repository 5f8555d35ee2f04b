-- ===== src/Validation.antt =====
-- kinetic_sdk/tool/validation.py: the arguments of a tool call against the tool's JSON schema. A
-- schema is the dict that tools declare, with the keywords that the code reads; numbers are compared
-- by a parameter, Python's `==` of two numerals.
pub mod Types
pub mod Empty
pub mod Laws
pub mod Arguments
use kinetic_sdk_agents.Prelude.{
  ℕ, ◌+◌, String, Bool, true, false, not, ◌&&◌, ◌||◌, ◌==◌, Option, none, some, List, [], ◌∷◌, ◌++◌,
  any, str_eq, if◌then◌else◌,
}
use kinetic_sdk_agents.Prelude.Json.{
  Json, null, bool, num, str, arr, obj, Items, nil, cons, Fields, end, field,
}
use Prim.Native.String.{◌++◌ as text_append}
use kinetic_sdk_agents.Prelude.Text.{decimal, occurs_in}

-- The value of `type`: one name, or a list of names.
pub data Expected : Type 0 where
  one : String → Expected
  any_of : List String → Expected

-- `anything` is what is no dict, or an empty one. The fields of `schema` are `enum`, `type`,
-- `properties`, `required`, `additionalProperties` where it is a Boolean, and `items`.
mutual
  pub data Schema : Type 0 where
    anything : Schema
    schema :
        Option (List Json)
        → Option Expected
        → Properties
        → List String
        → Option Bool
        → Schema
        → Schema

  pub data Properties : Type 0 where
    none_declared : Properties
    property : String → Schema → Properties → Properties

-- The messages, with their paths; the rest of their text is left out.
pub data Problem : Type 0 where
  not_in_enum missing unexpected missing_parameter unexpected_parameter : String → Problem
  wrong_type : (path got : String) → Problem
  not_an_object : (got : String) → Problem

-- `properties[key]`, where there is one
unfoldable pub property_of : String → Properties → Option Schema
property_of key none_declared = none
property_of key (property k s ps) = if str_eq k key then some s else property_of key ps

-- `value[key]`, where there is one
unfoldable pub find : String → Fields → Option Json
find key end = none
find key (field k x fs) = if str_eq k key then some x else find key fs

abbrev pub is_there : {A : Type 0} → Option A → Bool
is_there none = false
is_there (some a) = true

unfoldable pub size : Fields → ℕ
size end = 0
size (field k x fs) = 1 + size fs

unfoldable pub json_type : Json → String
json_type null = "null"
json_type (bool b) = "boolean"
json_type (num n) = "number"
json_type (str s) = "string"
json_type (arr xs) = "array"
json_type (obj fs) = "object"

-- `isinstance(value, int)` of a numeral
unfoldable pub is_integer : String → Bool
unfolding occurs_in
is_integer n = not (
    occurs_in "." n
    || (occurs_in "e" n || (occurs_in "E" n || (occurs_in "N" n || occurs_in "I" n))))

-- A name that is none of the known ones rejects nothing.
unfoldable pub is_known : String → Bool
is_known e =
    any (str_eq e) ("string" ∷ "boolean" ∷ "integer" ∷ "number" ∷ "array" ∷ "object" ∷ "null" ∷ [])

unfoldable pub matches_name : Json → String → Bool
unfolding json_type is_integer is_known
matches_name (num n) e =
    if str_eq e "integer" then is_integer n else (str_eq e "number" || not (is_known e))
matches_name v e = str_eq e (json_type v) || not (is_known e)

unfoldable pub type_matches : Json → Expected → Bool
unfolding matches_name
type_matches v (one e) = matches_name v e
type_matches v (any_of es) = any (matches_name v) es

unfoldable pub missing_from : (String → Problem) → List String → Fields → List Problem
unfolding find
missing_from problem [] fs = []
missing_from problem (k ∷ ks) fs =
    let rest = missing_from problem ks fs in if is_there (find k fs) then rest else problem k ∷ rest

-- f"{path}.{key}" and f"{path}[{i}]"
unfoldable pub path_key : String → String → String
path_key path key = text_append path (text_append "." key)

unfoldable pub path_index : String → ℕ → String
unfolding decimal
path_index path i = text_append path (text_append "[" (text_append (decimal i) "]"))

-- A Boolean counts as a number in Python's `==`.
abbrev pub bit : Bool → String
bit true = "1"
bit false = "0"

-- What the tests before the nested ones let through.
abbrev pub typed : Json → Option Expected → String → List Problem → List Problem
typed v none path nested = []
typed v (some e) path nested =
    if type_matches v e then nested else wrong_type path (json_type v) ∷ []

-- `expected == name`, which a list of names never is
abbrev pub is_type : String → Option Expected → Bool
is_type name none = false
is_type name (some (one e)) = str_eq e name
is_type name (some (any_of es)) = false

abbrev pub undeclared : Option Bool → String → List Problem → List Problem
undeclared (some false) path rest = unexpected path ∷ rest
undeclared (some true) path rest = rest
undeclared none path rest = rest

-- `if properties and additional is not True`
abbrev pub is_open : Properties → Option Bool → Bool
is_open none_declared additional = true
is_open (property k s ps) (some true) = true
is_open (property k s ps) (some false) = false
is_open (property k s ps) none = false

-- `schema.get("type", "object") != "object"`
abbrev pub is_object_type : Option Expected → Bool
is_object_type none = true
is_object_type (some e) = is_type "object" (some e)

module _ (same_number : String → String → Bool) where
  -- Python's `==`; two dicts may have their keys in any order.
  unfoldable mutual
    unfolding find size

    pub same : Json → Json → Bool
    same null null = true
    same (bool a) (bool b) = str_eq (bit a) (bit b)
    same (bool a) (num n) = same_number (bit a) n
    same (num m) (bool b) = same_number m (bit b)
    same (num m) (num n) = same_number m n
    same (str s) (str t) = str_eq s t
    same (arr xs) (arr ys) = same_items xs ys
    same (obj fs) (obj gs) = size fs == size gs && same_fields fs gs
    same v w = false

    pub same_items : Items → Items → Bool
    same_items nil nil = true
    same_items (cons x xs) (cons y ys) = same x y && same_items xs ys
    same_items xs ys = false

    pub same_fields : Fields → Fields → Bool
    same_fields end gs = true
    same_fields (field k x fs) gs =
        elim (find k gs) [ none ↦ false | some y ↦ same x y ] && same_fields fs gs

  -- `value not in schema["enum"]` is no problem
  abbrev pub in_enum : Json → Option (List Json) → Bool
  in_enum v none = true
  in_enum v (some vs) = any (same v) vs

  abbrev pub checked :
      Json → Option (List Json) → Option Expected → String → List Problem → List Problem
  checked v enum type path nested =
      if in_enum v enum then typed v type path nested else not_in_enum path ∷ []

  unfoldable mutual
    unfolding same type_matches property_of missing_from path_key path_index

    -- `_validate_value`
    pub validate_value : Json → Schema → String → List Problem
    validate_value v anything path = []
    validate_value (obj fs) (schema enum type ps required additional items) path =
        let nested =
          missing_from (λ k. missing (path_key path k)) required fs
          ++ validate_fields fs ps additional path in
        checked (obj fs) enum type path (if is_type "object" type then nested else [])
    validate_value (arr xs) (schema enum type ps required additional items) path =
        let nested = validate_items xs items path 0 in
        checked (arr xs) enum type path (if is_type "array" type then nested else [])
    validate_value v (schema enum type ps required additional items) path =
        checked v enum type path []

    pub validate_fields : Fields → Properties → Option Bool → String → List Problem
    validate_fields end ps additional path = []
    validate_fields (field k x fs) ps additional path =
        let rest = validate_fields fs ps additional path in
        elim (property_of k ps) [
          | none ↦ undeclared additional (path_key path k) rest
          | some s ↦ validate_value x s (path_key path k) ++ rest
        ]

    pub validate_items : Items → Schema → String → ℕ → List Problem
    validate_items nil s path i = []
    validate_items (cons x xs) s path i =
        validate_value x s (path_index path i) ++ validate_items xs s path (i + 1)

  unfoldable pub validate_arguments : Fields → Properties → Option Bool → List Problem
  unfolding property_of validate_value
  validate_arguments end ps additional = []
  validate_arguments (field k x fs) ps additional =
      let rest = validate_arguments fs ps additional in
      elim (property_of k ps) [
        | none ↦ if is_open ps additional then rest else unexpected_parameter k ∷ rest
        | some s ↦ validate_value x s k ++ rest
      ]

  abbrev pub of_object : Json → Properties → List String → Option Bool → List Problem
  of_object (obj fs) ps required additional =
      missing_from missing_parameter required fs ++ validate_arguments fs ps additional
  of_object v ps required additional = not_an_object (json_type v) ∷ []

  unfoldable pub validate_tool_input : Schema → Json → List Problem
  unfolding missing_from validate_arguments json_type
  validate_tool_input anything params = []
  validate_tool_input (schema enum type ps required additional items) params =
      if is_object_type type then of_object params ps required additional else []
