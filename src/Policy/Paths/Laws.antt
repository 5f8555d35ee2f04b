-- ===== src/Policy/Paths/Laws.antt =====
-- The normal form of a path.
use kinetic_sdk_agents.Prelude.{
  ◌≡◌, refl, ap, ◌∙◌, ◌⊎◌, inl, inr, String, Bool, true, false, ◌||◌, Bool-cases, List, [], ◌∷◌,
  if◌then◌else◌, str_eq,
}
use kinetic_sdk_agents.Policy.Paths.{push_segment, pop, normal_segments}

-- A segment that names something: not empty, `.` or `..`.
pub record IsName (s : String) : Type 0 where
  pub nonempty : str_eq s "" ≡ false
  pub no_dot : str_eq s "." ≡ false
  pub no_parent : str_eq s ".." ≡ false

abbrev pub OnlyParents : List String → Type 0
OnlyParents [] = Unit
OnlyParents (s ∷ before) = (s ≡ "..") × OnlyParents before

-- Segments, the last first: only names in an absolute path, and names behind `..`s in a relative one.
abbrev pub IsNormal : Bool → List String → Type 0
IsNormal absolute [] = Unit
IsNormal true (s ∷ before) = IsName s × IsNormal true before
IsNormal false (s ∷ before) = (IsName s × IsNormal false before) ⊎ ((s ≡ "..") × OnlyParents before)

OnlyParents-IsNormal : (stack : List String) → OnlyParents stack → IsNormal false stack
OnlyParents-IsNormal [] h = tt
OnlyParents-IsNormal (s ∷ before) h = inr h

push_name-IsNormal :
    (absolute : Bool) (s : String) (stack : List String)
    → IsName s
    → IsNormal absolute stack
    → IsNormal absolute (s ∷ stack)
push_name-IsNormal true s stack n h = (n, h)
push_name-IsNormal false s stack n h = inl (n, h)

pop-IsNormal :
    (absolute : Bool) (stack : List String)
    → IsNormal absolute stack
    → IsNormal absolute (pop absolute stack)
pop-IsNormal true [] h = tt
pop-IsNormal false [] h = inr (refl, tt)
pop-IsNormal true (s ∷ before) h = let named : str_eq s ".." ≡ false = h.0.no_parent in rw named h.1
pop-IsNormal false (s ∷ before) (inl (n, h)) =
    let named : str_eq s ".." ≡ false = n.no_parent in rw named h
pop-IsNormal false (s ∷ before) (inr (e, h)) = rw e (inr (refl, (refl, h)))

push_segment-IsNormal :
    (absolute : Bool) (stack : List String) (s : String)
    → IsNormal absolute stack
    → IsNormal absolute (push_segment absolute stack s)
unfolding push_segment
push_segment-IsNormal absolute stack s h =
    go (Bool-cases (str_eq s "")) (Bool-cases (str_eq s ".")) (Bool-cases (str_eq s ".."))
  where
    go :
        (str_eq s "" ≡ true) ⊎ (str_eq s "" ≡ false)
        → (str_eq s "." ≡ true) ⊎ (str_eq s "." ≡ false)
        → (str_eq s ".." ≡ true) ⊎ (str_eq s ".." ≡ false)
        → IsNormal absolute (
            if str_eq s "" || str_eq s "."
            then stack
            else (if str_eq s ".." then pop absolute stack else s ∷ stack))
    go (inl a) b d = rw a h
    go (inr a) (inl b) d = rw (a, b) h
    go (inr a) (inr b) (inl d) = rw (a, b, d) (pop-IsNormal absolute stack h)
    go (inr a) (inr b) (inr d) =
        rw (a, b, d)
          (push_name-IsNormal absolute s stack (record { nonempty = a; no_dot = b; no_parent = d })
            h)

normal_segments-go :
    (absolute : Bool) (segments stack : List String)
    → IsNormal absolute stack
    → IsNormal absolute (normal_segments absolute stack segments)
unfolding normal_segments
normal_segments-go absolute [] stack h = h
normal_segments-go absolute (s ∷ segments) stack h =
    normal_segments-go absolute segments _ (push_segment-IsNormal absolute stack s h)

push_name :
    (absolute : Bool) (stack : List String) (s : String)
    → IsName s
    → push_segment absolute stack s ≡ s ∷ stack
unfolding push_segment
push_name absolute stack s n =
    let a : str_eq s "" ≡ false = n.nonempty in
    let b : str_eq s "." ≡ false = n.no_dot in
    let d : str_eq s ".." ≡ false = n.no_parent in rw (a, b, d) refl

push-normal :
    (absolute : Bool) (stack : List String) (s : String)
    → IsNormal absolute (s ∷ stack)
    → push_segment absolute stack s ≡ s ∷ stack
unfolding push_segment
push-normal true stack s h = push_name true stack s h.0
push-normal false stack s (inl (n, h)) = push_name false stack s n
push-normal false [] s (inr (e, h)) = rw e refl
push-normal false (t ∷ stack) s (inr (e, (f, h))) = rw (e, f) refl

below-IsNormal :
    (absolute : Bool) (s : String) (stack : List String)
    → IsNormal absolute (s ∷ stack)
    → IsNormal absolute stack
below-IsNormal true s stack h = h.1
below-IsNormal false s stack (inl (n, h)) = h
below-IsNormal false s stack (inr (e, h)) = OnlyParents-IsNormal stack h

-- The segments in their order, in front of others.
abbrev pub in_order : List String → List String → List String
in_order [] more = more
in_order (s ∷ before) more = in_order before (s ∷ more)

in_order-normal :
    (absolute : Bool) (stack more : List String)
    → IsNormal absolute stack
    → normal_segments absolute [] (in_order stack more) ≡ normal_segments absolute stack more
unfolding normal_segments
in_order-normal absolute [] more h = refl
in_order-normal absolute (s ∷ stack) more h =
    in_order-normal absolute stack (s ∷ more) (below-IsNormal absolute s stack h)
    ∙ ap (λ st. normal_segments absolute st more) (push-normal absolute stack s h)

-- Normalising the segments of a path leaves only names in an absolute path, so that no `..` climbs
-- out of it, and only names behind leading `..`s in a relative one; and normalising the result
-- once more changes nothing.
normal_segments-IsNormal :
    (absolute : Bool) (segments : List String)
    → IsNormal absolute (normal_segments absolute [] segments)
      × (normal_segments absolute [] (in_order (normal_segments absolute [] segments) [])
          ≡ normal_segments absolute [] segments)
unfolding normal_segments
normal_segments-IsNormal absolute segments =
    let normal = normal_segments-go absolute segments [] empty in
    (normal, in_order-normal absolute (normal_segments absolute [] segments) [] normal)
  where
    empty : IsNormal absolute []
    empty = tt
