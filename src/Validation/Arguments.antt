-- ===== src/Validation/Arguments.antt =====
-- When kinetic_sdk/tool/validation.py lets the arguments of a tool call through.
use kinetic_sdk_agents.Prelude.{
  ◌≡◌, refl, subst, ◌↔◌, String, Bool, true, Option, none, some, List, [], ◌∷◌, ◌++◌, All,
  if◌then◌else◌, Bool-cases, inl, inr,
}
use kinetic_sdk_agents.Prelude.Json.{Json, null, bool, num, str, arr, obj, Fields, end, field}
use kinetic_sdk_agents.Validation.{
  Schema, anything, schema, Properties, property_of, missing_parameter, unexpected_parameter,
  missing_from, is_open, is_object_type, validate_value, validate_arguments, of_object,
  validate_tool_input, json_type, not_an_object,
}
use kinetic_sdk_agents.Validation.Empty.{
  Has, Conforms, append-Empty, missing_from-Empty, absurd_Empty, gate-Empty,
}
use kinetic_sdk_agents.Validation.Laws.{validate_value-Conforms}

module _ (same_number : String → String → Bool) where
  -- Each argument is declared and conforms, or more arguments are welcome.
  abbrev pub Declared : Fields → Properties → Option Bool → Type 0
  Declared end ps additional = Unit
  Declared (field k x fs) ps additional =
      ((s : Schema) → property_of k ps ≡ some s → Conforms same_number x s)
      × (property_of k ps ≡ none → is_open ps additional ≡ true)
      × Declared fs ps additional

  abbrev pub IsCall : Json → Properties → List String → Option Bool → Type 0
  IsCall (obj fs) ps required additional = All (Has fs) required × Declared fs ps additional
  IsCall v ps required additional = ⊥

  -- The arguments fit: an object has all required ones, and of the others those that are allowed. A
  -- schema of another type than `object` asks for nothing.
  abbrev pub Fits : Schema → Json → Type 0
  Fits anything params = Unit
  Fits (schema enum type ps required additional items) params =
      is_object_type type ≡ true → IsCall params ps required additional

  validate_arguments-Declared :
      (fs : Fields) (ps : Properties) (additional : Option Bool)
      → (validate_arguments same_number fs ps additional ≡ []) ↔ Declared fs ps additional
  unfolding validate_arguments
  validate_arguments-Declared end ps additional = (λ e. tt, λ h. refl)
  validate_arguments-Declared (field k x fs) ps additional =
      go (property_of k ps) refl (validate_arguments-Declared fs ps additional)
    where
      go :
          (o : Option Schema)
          → property_of k ps ≡ o
          → ((validate_arguments same_number fs ps additional ≡ []) ↔ Declared fs ps additional)
          → (elim o [
            | none ↦
                if is_open ps additional
                then validate_arguments same_number fs ps additional
                else unexpected_parameter k ∷ validate_arguments same_number fs ps additional
            | some s ↦
                validate_value same_number x s k ++ validate_arguments same_number fs ps additional
          ]
              ≡ [])
            ↔ Declared (field k x fs) ps additional
      go none e rest = elim (Bool-cases (is_open ps additional)) [
        | inl open_ ↦ rw open_ (
          λ e'. (λ s there. let clash : ⊥ = cc in elim clash [ ], λ n. refl, rest.0 e'),
          λ (declared, o, h). rest.1 h,
        )
        | inr shut ↦ rw shut (
          λ e'.
              absurd_Empty (unexpected_parameter k)
                (validate_arguments same_number fs ps additional) e',
          λ (declared, o, h). let clash : ⊥ = (let f = o e in cc) in elim clash [ ],
        )
      ]
      go (some s) e rest =
          let (split, join) =
            append-Empty (validate_value same_number x s k)
              (validate_arguments same_number fs ps additional) in
          let (to, from) = validate_value-Conforms same_number x s k in
          (
            λ e'. (
              λ s' there.
                  let same_ : s ≡ s' = cc in
                  subst (λ y. Conforms same_number x y) same_ (to (split e').0),
              λ n. let clash : ⊥ = cc in elim clash [ ],
              rest.0 (split e').1,
            ),
            λ (declared, o, h). join (from (declared s e), rest.1 h),
          )

  of_object-IsCall :
      (params : Json) (ps : Properties) (required : List String) (additional : Option Bool)
      → (of_object same_number params ps required additional ≡ [])
        ↔ IsCall params ps required additional
  of_object-IsCall (obj fs) ps required additional =
      let (split, join) =
        append-Empty (missing_from missing_parameter required fs)
          (validate_arguments same_number fs ps additional) in
      let (to, from) = missing_from-Empty missing_parameter required fs in
      let (to', from') = validate_arguments-Declared fs ps additional in
      (λ e. (to (split e).0, to' (split e).1), λ (h, h'). join (from h, from' h'))
  of_object-IsCall null ps required additional =
      (λ e. absurd_Empty (not_an_object (json_type null)) [] e, λ h. elim h [ ])
  of_object-IsCall (bool b) ps required additional =
      (λ e. absurd_Empty (not_an_object (json_type (bool b))) [] e, λ h. elim h [ ])
  of_object-IsCall (num n) ps required additional =
      (λ e. absurd_Empty (not_an_object (json_type (num n))) [] e, λ h. elim h [ ])
  of_object-IsCall (str t) ps required additional =
      (λ e. absurd_Empty (not_an_object (json_type (str t))) [] e, λ h. elim h [ ])
  of_object-IsCall (arr xs) ps required additional =
      (λ e. absurd_Empty (not_an_object (json_type (arr xs))) [] e, λ h. elim h [ ])

  -- The check of a tool call's arguments reports no problem exactly where they fit the schema as the
  -- code reads it: nothing is asked where the schema's own type is another than `object`, and the parts
  -- of an argument are asked for only where its schema's type is the one name `object` or `array`.
  pub validate_tool_input-Fits :
      (s : Schema) (params : Json) → (validate_tool_input same_number s params ≡ []) ↔ Fits s params
  unfolding validate_tool_input
  validate_tool_input-Fits anything params = (λ e. tt, λ h. refl)
  validate_tool_input-Fits (schema enum type ps required additional items) params =
      let (to, from) =
        gate-Empty (is_object_type type) (of_object same_number params ps required additional) in
      let (to', from') = of_object-IsCall params ps required additional in
      (λ e h. to' (to e h), λ f. from (λ h. from' (f h)))
