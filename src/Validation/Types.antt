-- ===== src/Validation/Types.antt =====
-- The types of JSON schema that kinetic_sdk/tool/validation.py tests, said without its tests.
use kinetic_sdk_agents.Prelude.{
  ◌∙◌, if◌then◌else◌, ◌≡◌, refl, sym, ap, subst, ◌≢◌, ◌↔◌, ◌⊎◌, inl, inr, String, Bool, true, false,
  not, ◌||◌, List, [], ◌∷◌, All, any, str_eq, eq_iff, Bool-cases,
}
use kinetic_sdk_agents.Prelude.Json.{Json, null, bool, num, str, arr, obj}
use kinetic_sdk_agents.Validation.{
  Expected, one, any_of, is_integer, is_known, matches_name, type_matches, json_type,
}

-- A name that JSON schema does not know
abbrev pub Unknown : String → Type 0
Unknown e =
    All (λ k. e ≢ k)
      ("string" ∷ "boolean" ∷ "integer" ∷ "number" ∷ "array" ∷ "object" ∷ "null" ∷ [])

-- The value has the type of that name: a Boolean is no number, only a number can be an integer, and
-- every value has a type whose name is unknown.
abbrev pub HasName : Json → String → Type 0
HasName null e = (e ≡ "null") ⊎ Unknown e
HasName (bool b) e = (e ≡ "boolean") ⊎ Unknown e
HasName (num n) e = ((e ≡ "integer") × (is_integer n ≡ true)) ⊎ ((e ≡ "number") ⊎ Unknown e)
HasName (str s) e = (e ≡ "string") ⊎ Unknown e
HasName (arr xs) e = (e ≡ "array") ⊎ Unknown e
HasName (obj fs) e = (e ≡ "object") ⊎ Unknown e

-- Of the names, the value has one.
abbrev pub HasOne : Json → List String → Type 0
HasOne v [] = ⊥
HasOne v (e ∷ es) = HasName v e ⊎ HasOne v es

abbrev pub OfType : Json → Expected → Type 0
OfType v (one e) = HasName v e
OfType v (any_of es) = HasOne v es

no_match : (e : String) (ks : List String) → (not (any (str_eq e) ks) ≡ true) ↔ All (λ k. e ≢ k) ks
no_match e [] = (λ h. tt, λ h. refl)
no_match e (k ∷ ks) = elim (Bool-cases (str_eq e k)) [
  | inl same ↦ (
    λ h.
        let clash : ⊥ = (let p = ap (λ b. not (b || any (str_eq e) ks)) same in cc) in
        elim clash [ ],
    λ (h, hs). elim (h ((eq_iff e k).0 same)) [ ],
  )
  | inr other ↦
      let (to, from) = no_match e ks in
      let skip : not (str_eq e k || any (str_eq e) ks) ≡ not (any (str_eq e) ks) =
        ap (λ b. not (b || any (str_eq e) ks)) other in
      (
        λ h. (
          λ p. let clash : ⊥ = (let q = (eq_iff e k).1 p in cc) in elim clash [ ],
          to (sym skip ∙ h),
        ),
        λ (h, hs). skip ∙ from hs,
      )
]

or_true : (a b : Bool) → a || b ≡ true → (a ≡ true) ⊎ (b ≡ true)
or_true true b h = inl refl
or_true false b h = inr h

true_or : (a b : Bool) → (a ≡ true) ⊎ (b ≡ true) → a || b ≡ true
true_or true b h = refl
true_or false b (inl h) = let clash : ⊥ = cc in elim clash [ ]
true_or false b (inr h) = h

-- The test of a name that only one kind of value has
plain_name : (e k : String) → (str_eq e k || not (is_known e) ≡ true) ↔ ((e ≡ k) ⊎ Unknown e)
unfolding is_known
plain_name e k =
    let (to, from) =
      no_match e ("string" ∷ "boolean" ∷ "integer" ∷ "number" ∷ "array" ∷ "object" ∷ "null" ∷ []) in
    (
      λ h. elim (or_true (str_eq e k) (not (is_known e)) h) [
        | inl p ↦ inl ((eq_iff e k).0 p)
        | inr n ↦ inr (to n)
      ],
      λ h.
          true_or (str_eq e k) (not (is_known e))
            (elim h [ inl p ↦ inl ((eq_iff e k).1 p) | inr u ↦ inr (from u) ]),
    )

number_name : (n e : String) → (matches_name (num n) e ≡ true) ↔ HasName (num n) e
unfolding matches_name
number_name n e = go (str_eq e "integer") refl
  where
    other_name : (e : String) → str_eq e "integer" ≡ true → e ≡ "number" → ⊥
    other_name e h p =
        let q : str_eq "number" "integer" ≡ true = subst (λ x. str_eq x "integer" ≡ true) p h in
        let clash : ⊥ = cc in clash

    go :
        (b : Bool)
        → str_eq e "integer" ≡ b
        → ((if b then is_integer n else (str_eq e "number" || not (is_known e))) ≡ true)
          ↔ HasName (num n) e
    go true same = (
      λ h. inl ((eq_iff e "integer").0 same, h),
      λ h. elim h [
        | inl (p, i) ↦ i
        | inr (inl p) ↦ let clash : ⊥ = other_name e same p in elim clash [ ]
        | inr (inr u) ↦ elim (u.1.1.0 ((eq_iff e "integer").0 same)) [ ]
      ],
    )
    go false other =
        let (to, from) = plain_name e "number" in
        (
          λ h. inr (to h),
          λ h. elim h [
            | inl (p, i) ↦
                let clash : ⊥ = (let q = (eq_iff e "integer").1 p in cc) in elim clash [ ]
            | inr q ↦ from q
          ],
        )

matches_name-HasName : (v : Json) (e : String) → (matches_name v e ≡ true) ↔ HasName v e
unfolding matches_name json_type
matches_name-HasName null e = plain_name e "null"
matches_name-HasName (bool b) e = plain_name e "boolean"
matches_name-HasName (num n) e = number_name n e
matches_name-HasName (str s) e = plain_name e "string"
matches_name-HasName (arr xs) e = plain_name e "array"
matches_name-HasName (obj fs) e = plain_name e "object"

one_matches : (v : Json) (es : List String) → (any (matches_name v) es ≡ true) ↔ HasOne v es
one_matches v [] = (λ h. let clash : ⊥ = cc in clash, λ h. elim h [ ])
one_matches v (e ∷ es) =
    let (to, from) = matches_name-HasName v e in
    let (to', from') = one_matches v es in
    (
      λ h. elim (or_true (matches_name v e) (any (matches_name v) es) h) [
        | inl p ↦ inl (to p)
        | inr q ↦ inr (to' q)
      ],
      λ h.
          true_or (matches_name v e) (any (matches_name v) es)
            (elim h [ inl p ↦ inl (from p) | inr q ↦ inr (from' q) ]),
    )

-- The test of a value's type passes exactly for the values of the type.
pub type_matches-OfType : (v : Json) (e : Expected) → (type_matches v e ≡ true) ↔ OfType v e
unfolding type_matches
type_matches-OfType v (one e) = matches_name-HasName v e
type_matches-OfType v (any_of es) = one_matches v es
