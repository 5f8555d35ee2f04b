-- ===== src/Tests/Validations.antt =====
-- Runs of kinetic_sdk/tool/validation.py.
use kinetic_sdk_agents.Prelude.{◌≡◌, refl, ◌↔◌, String, none, some, [], ◌∷◌, str_eq}
use kinetic_sdk_agents.Prelude.Json.{Json, num, str, arr, obj, cons, nil, end, field}
use kinetic_sdk_agents.Validation.{
  one, any_of, Schema, anything, schema, Properties, none_declared, property, missing,
  missing_parameter, unexpected_parameter, wrong_type, validate_value, validate_tool_input,
}
use kinetic_sdk_agents.Validation.Arguments.{Fits, validate_tool_input-Fits}

abbrev of_type : String → Schema
of_type t = schema none (some (one t)) none_declared [] none anything

abbrev edits : Properties
edits = property "path" (of_type "string") (
    property "lines" (schema none (some (one "array")) none_declared [] none (of_type "integer"))
      none_declared)

abbrev tool : Schema
tool = schema none (some (one "object")) edits ("path" ∷ []) none anything

abbrev good : Json
good = obj (field "path" (str "a.py") (field "lines" (arr (cons (num "3") nil)) end))

accepts : validate_tool_input str_eq tool good ≡ []
unfolding validate_tool_input
accepts = refl

rejects :
    validate_tool_input str_eq tool
      (obj (field "lines" (arr (cons (num "3") (cons (num "2.5") nil))) (field "force" good end)))
    ≡ missing_parameter "path" ∷ wrong_type "lines[1]" "number" ∷ unexpected_parameter "force" ∷ []
unfolding validate_tool_input
rejects = refl

-- Where the type is a list of names, nothing of the nested keywords is looked at.
nullable_unchecked :
    (validate_value str_eq
        (obj end)
        (schema none (some (one "object")) edits ("path" ∷ []) none anything)
        "$"
      ≡ missing "$.path" ∷ [])
    × (validate_value str_eq
          (obj end)
          (schema none (some (any_of ("object" ∷ "null" ∷ []))) edits ("path" ∷ []) none anything)
          "$"
        ≡ [])
unfolding validate_value
nullable_unchecked = (refl, refl)

validate_tool_input-Fits_example :
    (validate_tool_input str_eq tool good ≡ []) ↔ Fits str_eq tool good
validate_tool_input-Fits_example = validate_tool_input-Fits str_eq tool good
