-- ===== src/Validation/Empty.antt =====
-- When the lists of problems of kinetic_sdk/tool/validation.py are empty, test by test.
use kinetic_sdk_agents.Prelude.{
  ◌≡◌, refl, ◌≢◌, ◌↔◌, String, Bool, true, false, Option, none, some, List, [], ◌∷◌, ◌++◌, All,
  if◌then◌else◌,
}
use kinetic_sdk_agents.Prelude.Json.{Json, arr, obj, Items, nil, cons, Fields, end, field}
use kinetic_sdk_agents.Validation.{
  Expected, Schema, anything, schema, Properties, Problem, property_of, find, is_there,
  missing_from, type_matches, in_enum, is_type, typed, wrong_type, json_type,
}
use kinetic_sdk_agents.Validation.Types.{OfType, type_matches-OfType}

-- The value of an object has a key.
abbrev pub Has : Fields → String → Type 0
Has fs k = (x : Json) × (find k fs ≡ some x)

-- The value has the type of the schema, or one of its types, where it states any.
abbrev pub Typed : Json → Option Expected → Type 0
Typed v none = Unit
Typed v (some e) = OfType v e

module _ (same_number : String → String → Bool) where
  abbrev pub Plain : Json → Option (List Json) → Option Expected → Type 0
  Plain v enum type = (in_enum same_number v enum ≡ true) × Typed v type

  unfoldable mutual
    -- A value conforms to a schema: it is in the enum, of the type, and where the type is the one
    -- name `object` or `array`, so do its parts. A schema with no type, or with a list of them, asks
    -- nothing of the parts.
    pub Conforms : Json → Schema → Type 0
    Conforms v anything = Unit
    Conforms (obj fs) (schema enum type ps required additional items) =
        Plain (obj fs) enum type
        × (is_type "object" type ≡ true → All (Has fs) required × FieldsConform fs ps additional)
    Conforms (arr xs) (schema enum type ps required additional items) =
        Plain (arr xs) enum type × (is_type "array" type ≡ true → ItemsConform xs items)
    Conforms v (schema enum type ps required additional items) = Plain v enum type

    -- Each field that is declared conforms, and the others are not ruled out.
    pub FieldsConform : Fields → Properties → Option Bool → Type 0
    FieldsConform end ps additional = Unit
    FieldsConform (field k x fs) ps additional =
        ((s : Schema) → property_of k ps ≡ some s → Conforms x s)
        × (property_of k ps ≡ none → additional ≢ some false)
        × FieldsConform fs ps additional

    pub ItemsConform : Items → Schema → Type 0
    ItemsConform nil s = Unit
    ItemsConform (cons x xs) s = Conforms x s × ItemsConform xs s

-- Two lists of problems are empty together, and so is one behind a test.
pub append-Empty : {A : Type 0} (xs ys : List A) → (xs ++ ys ≡ []) ↔ ((xs ≡ []) × (ys ≡ []))
append-Empty [] ys = (λ e. (refl, e), λ e. e.1)
append-Empty (x ∷ xs) ys =
    (λ e. let clash : ⊥ = cc in elim clash [ ], λ (e, e'). let clash : ⊥ = cc in elim clash [ ])

pub missing_from-Empty :
    (problem : String → Problem) (ks : List String) (fs : Fields)
    → (missing_from problem ks fs ≡ []) ↔ All (Has fs) ks
unfolding missing_from
missing_from-Empty problem [] fs = (λ e. tt, λ h. refl)
missing_from-Empty problem (k ∷ ks) fs = go (find k fs) refl (missing_from-Empty problem ks fs)
  where
    go :
        (o : Option Json)
        → find k fs ≡ o
        → ((missing_from problem ks fs ≡ []) ↔ All (Has fs) ks)
        → ((if is_there o
              then missing_from problem ks fs
              else problem k ∷ missing_from problem ks fs)
            ≡ [])
          ↔ (Has fs k × All (Has fs) ks)
    go none e ih = (
      λ e'. let clash : ⊥ = cc in elim clash [ ],
      λ ((x, there), h). let clash : ⊥ = cc in elim clash [ ],
    )
    go (some x) e ih = (λ e'. ((x, e), ih.0 e'), λ (h, hs). ih.1 hs)

pub absurd_Empty : {A : Type 0} {B : Type 0} (x : A) (xs : List A) → x ∷ xs ≡ [] → B
absurd_Empty x xs e = let clash : ⊥ = cc in elim clash [ ]

pub wrong : {B : Type 0} → false ≡ true → B
wrong e = let clash : ⊥ = cc in elim clash [ ]

pub gate-Empty :
    {A : Type 0} (b : Bool) (xs : List A) → ((if b then xs else []) ≡ []) ↔ (b ≡ true → xs ≡ [])
gate-Empty true xs = (λ e h. e, λ f. f refl)
gate-Empty false xs = (λ e h. wrong h, λ f. refl)

-- Behind a test that fails with a problem.
pub guard-Empty :
    {A : Type 0} {P : Type 0} (b : Bool) (xs : List A) (y : A)
    → ((xs ≡ []) ↔ P)
    → ((if b then xs else y ∷ []) ≡ []) ↔ ((b ≡ true) × P)
guard-Empty true xs y h = (λ e. (refl, h.0 e), λ (e, p). h.1 p)
guard-Empty false xs y h = (λ e. absurd_Empty y [] e, λ (e, p). wrong e)

pub typed-Empty :
    (v : Json) (type : Option Expected) (path name : String) (nested : List Problem)
    → (typed v type path (if is_type name type then nested else []) ≡ [])
      ↔ (Typed v type × (is_type name type ≡ true → nested ≡ []))
typed-Empty v none path name nested = (λ e. (tt, λ h. wrong h), λ h. refl)
typed-Empty v (some e) path name nested =
    let (to, from) = type_matches-OfType v e in
    let (to', from') =
      guard-Empty (type_matches v e) (if is_type name (some e) then nested else [])
        (wrong_type path (json_type v)) (gate-Empty (is_type name (some e)) nested) in
    (λ h. (to (to' h).0, (to' h).1), λ (h, h'). from' (from h, h'))
