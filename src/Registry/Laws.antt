-- ===== src/Registry/Laws.antt =====
-- A registry is a set of pairs.
use kinetic_sdk_agents.Prelude.{
  ◌≡◌, refl, sym, ap, subst, ◌∙◌, ◌⊎◌, inl, inr, String, true, false, ◌&&◌, ◌||◌, not, Bool-cases,
  Option, none, some, List, [], ◌∷◌, ◌++◌, if◌then◌else◌, str_eq, eq_iff, arith,
}
use kinetic_sdk_agents.Prelude.Dict.{get, put, get-put}
use kinetic_sdk_agents.Prelude.Sets.{has, has-append}
use kinetic_sdk_agents.Registry.{
  Registry, or_empty, entries, added, add, remove_first, dropped, discard,
}

abbrev pub Distinct : List String → Type 0
Distinct [] = Unit
Distinct (x ∷ xs) = (has x xs ≡ false) × Distinct xs

-- No key has an entry twice.
abbrev pub IsValid : Registry → Type 0
IsValid d = (key : String) → Distinct (entries key d)

entries-put :
    (key j : String) (xs : List String) (d : Registry)
    → entries j (put key xs d) ≡ (if str_eq key j then xs else entries j d)
unfolding entries
entries-put key j xs d = go (Bool-cases (str_eq key j))
  where
    go :
        (str_eq key j ≡ true) ⊎ (str_eq key j ≡ false)
        → or_empty (get j (put key xs d)) ≡ (if str_eq key j then xs else or_empty (get j d))
    go (inl e) =
        let found : get j (put key xs d) ≡ some xs = get-put key j xs d ∙ rw e refl in
        rw (found, e) refl
    go (inr e) =
        let found : get j (put key xs d) ≡ get j d = get-put key j xs d ∙ rw e refl in
        rw (found, e) refl

has-added : (y x : String) (xs : List String) → has y (added x xs) ≡ (str_eq x y || has y xs)
unfolding has
has-added y x xs = elim (Bool-cases (has x xs)) [
  | inl there ↦ rw there (known (Bool-cases (str_eq x y)) there)
  | inr new ↦ rw new (ground (arith, has-append y xs (x ∷ [])))
]
  where
    known :
        (str_eq x y ≡ true) ⊎ (str_eq x y ≡ false)
        → has x xs ≡ true
        → has y xs ≡ (str_eq x y || has y xs)
    known (inl e) there =
        let same : x ≡ y = (eq_iff x y).0 e in rw e (subst (λ z. has z xs ≡ true) same there)
    known (inr e) there = rw e refl

has-remove_first :
    (y x : String) (xs : List String)
    → Distinct xs
    → has y (remove_first x xs) ≡ (not (str_eq x y) && has y xs)
unfolding has remove_first
has-remove_first y x [] h = ground arith
has-remove_first y x (z ∷ zs) (fresh, rest) = elim (Bool-cases (str_eq x z)) [
  | inl e ↦ rw e (first (Bool-cases (str_eq x y)) ((eq_iff x z).0 e))
  | inr e ↦ rw e (ground (arith, has-remove_first y x zs rest, eq_iff x y, eq_iff z y, eq_iff x z))
]
  where
    first :
        (str_eq x y ≡ true) ⊎ (str_eq x y ≡ false)
        → x ≡ z
        → has y zs ≡ (not (str_eq x y) && (str_eq z y || has y zs))
    first (inl e) same =
        let own : z ≡ y = sym same ∙ (eq_iff x y).0 e in
        rw e (subst (λ w. has w zs ≡ false) own fresh)
    first (inr e) same =
        let other : str_eq z y ≡ false = subst (λ w. str_eq w y ≡ false) same e in
        rw (e, other) refl

Distinct-append :
    (xs : List String) (x : String) → Distinct xs → has x xs ≡ false → Distinct (xs ++ x ∷ [])
unfolding has
Distinct-append [] x h n = (refl, tt)
Distinct-append (z ∷ zs) x (fresh, rest) n = (
  ground (arith, has-append z zs (x ∷ []), eq_iff x z, eq_iff z x),
  Distinct-append zs x rest (ground arith),
)

Distinct-added : (x : String) (xs : List String) → Distinct xs → Distinct (added x xs)
Distinct-added x xs h = elim (Bool-cases (has x xs)) [
  | inl there ↦ rw there h
  | inr new ↦ rw new (Distinct-append xs x h new)
]

Distinct-remove_first : (x : String) (xs : List String) → Distinct xs → Distinct (remove_first x xs)
unfolding remove_first
Distinct-remove_first x [] h = tt
Distinct-remove_first x (z ∷ zs) (fresh, rest) = elim (Bool-cases (str_eq x z)) [
  | inl e ↦ rw e rest
  | inr e ↦
      let still : has z (remove_first x zs) ≡ false =
        ground (arith, has-remove_first z x zs rest) in
      rw e (still, Distinct-remove_first x zs rest)
]

-- Adding an entry keeps a registry free of duplicates, and puts in exactly that entry.
pub add-has :
    (key x : String) (d : Registry)
    → IsValid d
    → IsValid (add key x d)
      × ((j y : String)
          → has y (entries j (add key x d)) ≡ ((str_eq key j && str_eq x y) || has y (entries j d)))
unfolding add
add-has key x d h = (distinct, members)
  where
    at :
        (j : String)
        → entries j (add key x d) ≡ (if str_eq key j then added x (entries key d) else entries j d)
    at j = entries-put key j (added x (entries key d)) d

    distinct : IsValid (add key x d)
    distinct j = elim (Bool-cases (str_eq key j)) [
      | inl e ↦ rw (at j, e) (Distinct-added x (entries key d) (h key))
      | inr e ↦ rw (at j, e) (h j)
    ]

    members :
        (j y : String)
        → has y (entries j (add key x d)) ≡ ((str_eq key j && str_eq x y) || has y (entries j d))
    members j y = elim (Bool-cases (str_eq key j)) [
      | inl e ↦
          let same : key ≡ j = (eq_iff key j).0 e in
          rw (at j, e)
            (has-added y x (entries key d) ∙ ap (λ k. str_eq x y || has y (entries k d)) same)
      | inr e ↦ rw (at j, e) refl
    ]

-- Without duplicates, and with the entries of `d` but for `x` under `key`.
abbrev Discarded : String → String → Registry → Registry → Type 0
Discarded key x d r =
    IsValid r
    × ((j y : String)
        → has y (entries j r) ≡ (not (str_eq key j && str_eq x y) && has y (entries j d)))

absent-Discarded :
    (key x : String) (d : Registry)
    → IsValid d
    → has x (entries key d) ≡ false
    → Discarded key x d d
absent-Discarded key x d h absent =
    (h, λ j y. members j y (Bool-cases (str_eq key j)) (Bool-cases (str_eq x y)))
  where
    members :
        (j y : String)
        → (str_eq key j ≡ true) ⊎ (str_eq key j ≡ false)
        → (str_eq x y ≡ true) ⊎ (str_eq x y ≡ false)
        → has y (entries j d) ≡ (not (str_eq key j && str_eq x y) && has y (entries j d))
    members j y (inl a) (inl b) =
        let gone : has y (entries j d) ≡ false =
          subst (λ k. has y (entries k d) ≡ false) ((eq_iff key j).0 a)
            (subst (λ z. has z (entries key d) ≡ false) ((eq_iff x y).0 b) absent) in
        rw (a, b) gone
    members j y (inl a) (inr b) = rw (a, b) refl
    members j y (inr a) b = rw a refl

removed-Discarded :
    (key x : String) (d : Registry)
    → IsValid d
    → Discarded key x d (put key (remove_first x (entries key d)) d)
removed-Discarded key x d h = (distinct, λ j y. members j y (Bool-cases (str_eq key j)))
  where
    left : List String
    left = remove_first x (entries key d)

    distinct : IsValid (put key left d)
    distinct j = elim (Bool-cases (str_eq key j)) [
      | inl e ↦ rw (entries-put key j left d, e) (Distinct-remove_first x (entries key d) (h key))
      | inr e ↦ rw (entries-put key j left d, e) (h j)
    ]

    members :
        (j y : String)
        → (str_eq key j ≡ true) ⊎ (str_eq key j ≡ false)
        → has y (entries j (put key left d))
          ≡ (not (str_eq key j && str_eq x y) && has y (entries j d))
    members j y (inl e) =
        rw (entries-put key j left d, e)
          (has-remove_first y x (entries key d) (h key)
            ∙ ap (λ k. not (str_eq x y) && has y (entries k d)) ((eq_iff key j).0 e))
    members j y (inr e) = rw (entries-put key j left d, e) refl

-- Discarding an entry keeps a registry free of duplicates, and takes out exactly that entry.
discard-has :
    (key x : String) (d : Registry)
    → IsValid d
    → IsValid (discard key x d)
      × ((j y : String)
          → has y (entries j (discard key x d))
            ≡ (not (str_eq key j && str_eq x y) && has y (entries j d)))
unfolding discard entries has
discard-has key x d h = go (get key d) refl (Bool-cases (has x (entries key d)))
  where
    go :
        (o : Option (List String))
        → get key d ≡ o
        → (has x (entries key d) ≡ true) ⊎ (has x (entries key d) ≡ false)
        → Discarded key x d (dropped key x d o)
    go none e (inl there) = absent-Discarded key x d h (ap (λ o. has x (or_empty o)) e)
    go none e (inr absent) = absent-Discarded key x d h absent
    go (some xs) e (inl there) =
        let same : entries key d ≡ xs = ap or_empty e in
        let found : has x xs ≡ true = subst (λ z. has x z ≡ true) same there in
        rw found (
          subst (λ z. Discarded key x d (put key (remove_first x z) d)) same
            (removed-Discarded key x d h))
    go (some xs) e (inr absent) =
        let same : entries key d ≡ xs = ap or_empty e in
        let missing : has x xs ≡ false = subst (λ z. has x z ≡ false) same absent in
        rw missing (absent-Discarded key x d h absent)
