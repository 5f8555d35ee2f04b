-- ===== src/Validation/Laws.antt =====
-- What kinetic_sdk/tool/validation.py accepts, said without lists of problems.
use kinetic_sdk_agents.Prelude.{
  ℕ, ◌+◌, ◌≡◌, refl, subst, ◌≢◌, ◌↔◌, String, Bool, true, false, Option, none, some, List, [], ◌++◌,
  if◌then◌else◌,
}
use kinetic_sdk_agents.Prelude.Json.{
  Json, null, bool, num, str, arr, obj, Items, nil, cons, Fields, end, field,
}
use kinetic_sdk_agents.Validation.{
  Expected, Schema, anything, schema, Properties, Problem, property_of, missing_from, type_matches,
  in_enum, is_type, typed, checked, validate_value, validate_fields, validate_items, undeclared,
  path_key, path_index, missing, unexpected, wrong_type, not_in_enum, json_type,
}
use kinetic_sdk_agents.Validation.Types.{type_matches-OfType}
use kinetic_sdk_agents.Validation.Empty.{
  Typed, Plain, Conforms, FieldsConform, ItemsConform, append-Empty, missing_from-Empty,
  absurd_Empty, guard-Empty, typed-Empty,
}

module _ (same_number : String → String → Bool) where
  -- The nested problems count where the type is the one that has parts.
  checked-Empty :
      {P : Type 0} (v : Json) (enum : Option (List Json)) (type : Option Expected)
      (path name : String) (nested : List Problem)
      → ((nested ≡ []) ↔ P)
      → (checked same_number v enum type path (if is_type name type then nested else []) ≡ [])
        ↔ (Plain same_number v enum type × (is_type name type ≡ true → P))
  checked-Empty v enum type path name nested h =
      let (to, from) =
        guard-Empty (in_enum same_number v enum)
          (typed v type path (if is_type name type then nested else [])) (not_in_enum path)
          (typed-Empty v type path name nested) in
      (
        λ e. (((to e).0, ((to e).1).0), λ t. h.0 (((to e).1).1 t)),
        λ ((a, b), c). from (a, (b, λ t. h.1 (c t))),
      )

  leaf_Empty :
      (v : Json) (enum : Option (List Json)) (type : Option Expected) (path : String)
      → (checked same_number v enum type path [] ≡ []) ↔ Plain same_number v enum type
  leaf_Empty v enum type path =
      guard-Empty (in_enum same_number v enum) (typed v type path []) (not_in_enum path) (go type)
    where
      go : (t : Option Expected) → (typed v t path [] ≡ []) ↔ Typed v t
      go none = (λ e. tt, λ h. refl)
      go (some e) =
          let same_ : ([] ≡ []) ↔ Unit = (λ e'. tt, λ h. refl) in
          let (to, from) =
            guard-Empty (type_matches v e) [] (wrong_type path (json_type v)) same_ in
          let (has, test) = type_matches-OfType v e in (λ e'. has (to e').0, λ h. from (test h, tt))

  undeclared-Empty :
      (additional : Option Bool) (path : String) (rest : List Problem)
      → (undeclared additional path rest ≡ []) ↔ ((additional ≢ some false) × (rest ≡ []))
  undeclared-Empty (some false) path rest =
      (λ e. absurd_Empty (unexpected path) rest e, λ (n, e). elim (n refl) [ ])
  undeclared-Empty (some true) path rest = (λ e. (λ h. cc, e), λ (n, e). e)
  undeclared-Empty none path rest = (λ e. (λ h. cc, e), λ (n, e). e)

  -- One field, declared or not.
  fields_step :
      (k : String) (x : Json) (fs : Fields) (ps : Properties) (additional : Option Bool)
      (path : String)
      → ((validate_fields same_number fs ps additional path ≡ [])
          ↔ FieldsConform same_number fs ps additional)
      → ((s : Schema)
          → (validate_value same_number x s (path_key path k) ≡ []) ↔ Conforms same_number x s)
      → (o : Option Schema) → property_of k ps ≡ o
      → (elim o [
        | none ↦
            undeclared additional
              (path_key path k)
              (validate_fields same_number fs ps additional path)
        | some s ↦
            validate_value same_number x s (path_key path k)
            ++ validate_fields same_number fs ps additional path
      ]
          ≡ [])
        ↔ FieldsConform same_number (field k x fs) ps additional
  unfolding Conforms
  fields_step k x fs ps additional path rest value none e =
      let (to, from) =
        undeclared-Empty additional (path_key path k)
          (validate_fields same_number fs ps additional path) in
      (
        λ e'. (λ s there. let clash : ⊥ = cc in elim clash [ ], λ n. (to e').0, rest.0 (to e').1),
        λ (declared, open_, h). from (open_ e, rest.1 h),
      )
  fields_step k x fs ps additional path rest value (some s) e =
      let (split, join) =
        append-Empty (validate_value same_number x s (path_key path k))
          (validate_fields same_number fs ps additional path) in
      (
        λ e'. (
          λ s' there.
              let same_ : s ≡ s' = cc in
              subst (λ y. Conforms same_number x y) same_ ((value s).0 (split e').0),
          λ n. let clash : ⊥ = cc in elim clash [ ],
          rest.0 (split e').1,
        ),
        λ (declared, open_, h). join ((value s).1 (declared s e), rest.1 h),
      )

  mutual
    unfolding validate_value Conforms

    pub validate_value-Conforms :
        (v : Json) (s : Schema) (path : String)
        → (validate_value same_number v s path ≡ []) ↔ Conforms same_number v s
    validate_value-Conforms v anything path = (λ e. tt, λ h. refl)
    validate_value-Conforms (obj fs) (schema enum type ps required additional items) path =
        let (split, join) =
          append-Empty (missing_from (λ k. missing (path_key path k)) required fs)
            (validate_fields same_number fs ps additional path) in
        let (to, from) = missing_from-Empty (λ k. missing (path_key path k)) required fs in
        let (to', from') = validate_fields-Conform fs ps additional path in
        checked-Empty (obj fs) enum type path "object"
          (missing_from (λ k. missing (path_key path k)) required fs
            ++ validate_fields same_number fs ps additional path)
          (λ e. (to (split e).0, to' (split e).1), λ (h, h'). join (from h, from' h'))
    validate_value-Conforms (arr xs) (schema enum type ps required additional items) path =
        checked-Empty (arr xs) enum type path "array" (validate_items same_number xs items path 0)
          (validate_items-Conform xs items path 0)
    validate_value-Conforms null (schema enum type ps required additional items) path =
        leaf_Empty null enum type path
    validate_value-Conforms (bool b) (schema enum type ps required additional items) path =
        leaf_Empty (bool b) enum type path
    validate_value-Conforms (num m) (schema enum type ps required additional items) path =
        leaf_Empty (num m) enum type path
    validate_value-Conforms (str t) (schema enum type ps required additional items) path =
        leaf_Empty (str t) enum type path

    validate_fields-Conform :
        (fs : Fields) (ps : Properties) (additional : Option Bool) (path : String)
        → (validate_fields same_number fs ps additional path ≡ [])
          ↔ FieldsConform same_number fs ps additional
    validate_fields-Conform end ps additional path = (λ e. tt, λ h. refl)
    validate_fields-Conform (field k x fs) ps additional path =
        fields_step k x fs ps additional path (validate_fields-Conform fs ps additional path)
          (λ s. validate_value-Conforms x s (path_key path k)) (property_of k ps) refl

    validate_items-Conform :
        (xs : Items) (s : Schema) (path : String) (i : ℕ)
        → (validate_items same_number xs s path i ≡ []) ↔ ItemsConform same_number xs s
    validate_items-Conform nil s path i = (λ e. tt, λ h. refl)
    validate_items-Conform (cons x xs) s path i =
        let (split, join) =
          append-Empty (validate_value same_number x s (path_index path i))
            (validate_items same_number xs s path (i + 1)) in
        let (to, from) = validate_value-Conforms x s (path_index path i) in
        let (to', from') = validate_items-Conform xs s path (i + 1) in
        (λ e. (to (split e).0, to' (split e).1), λ (h, h'). join (from h, from' h'))
