-- ===== src/Todo/Plans.antt =====
-- What kinetic_sdk/todo/tool.py accepts as a plan, described without counting.
use kinetic_sdk_agents.Prelude.{
  ℕ, suc, ◌≤◌, ◌≡◌, refl, ap, ◌∙◌, ◌⊎◌, inl, inr, ◌↔◌, String, Bool, true, false, ◌||◌, not, List,
  [], ◌∷◌, ◌++◌, all, All, length, ◌==◌, if◌then◌else◌, Bool-cases, arith,
}
use kinetic_sdk_agents.Prelude.Sets.{has}
use kinetic_sdk_agents.Todo.{Status, pending, in_progress, completed, TodoItem, TodoList}
use kinetic_sdk_agents.Todo.Tool.{
  distinct_count, ids_of, is_completed, is_pending, is_in_progress, in_progress_count, is_focused,
  is_nonempty,
}

-- No text stands twice.
abbrev pub Distinct : List String → Type 0
Distinct [] = Unit
Distinct (x ∷ xs) = (has x xs ≡ false) × Distinct xs

abbrev pub Has : Status → TodoItem → Type 0
Has status item = item.status ≡ status

abbrev pub HasNot : Status → TodoItem → Type 0
HasNot status item = ¬ (item.status ≡ status)

abbrev pub OneInProgress : TodoList → Type 0
OneInProgress items =
    (before : TodoList) × (item : TodoItem) × (after : TodoList) × (items ≡ before ++ item ∷ after)
    × Has in_progress item
    × All (HasNot in_progress) before
    × All (HasNot in_progress) after

-- No item, completed ones only, pending ones only, or one that is in progress.
abbrev pub IsFocus : TodoList → Type 0
IsFocus items =
    (items ≡ []) ⊎ (All (Has completed) items ⊎ (All (Has pending) items ⊎ OneInProgress items))

abbrev pub IsPlan : TodoList → Type 0
IsPlan items = Distinct (ids_of items) × IsFocus items

distinct_count-le : (xs : List String) → distinct_count xs ≤ length xs
unfolding distinct_count
distinct_count-le [] = omega arith
distinct_count-le (x ∷ xs) = elim (Bool-cases (has x xs)) [
  | inl e ↦ ground (arith, distinct_count-le xs)
  | inr e ↦ ground (arith, distinct_count-le xs)
]

pub distinct_count-Distinct : (xs : List String) → distinct_count xs ≡ length xs → Distinct xs
unfolding distinct_count
distinct_count-Distinct [] h = tt
distinct_count-Distinct (x ∷ xs) h = go (has x xs) refl h (distinct_count-Distinct xs)
  where
    go :
        (b : Bool)
        → has x xs ≡ b
        → (if b then distinct_count xs else suc (distinct_count xs)) ≡ suc (length xs)
        → (distinct_count xs ≡ length xs → Distinct xs)
        → Distinct (x ∷ xs)
    go true e k rest = let clash : ⊥ = omega (arith, distinct_count-le xs) in elim clash [ ]
    go false e k rest = (e, rest (omega arith))

pub Distinct-count : (xs : List String) → Distinct xs → distinct_count xs ≡ length xs
unfolding distinct_count
Distinct-count [] h = refl
Distinct-count (x ∷ xs) (h, hs) =
    ap (λ b. if b then distinct_count xs else suc (distinct_count xs)) h
    ∙ ap suc (Distinct-count xs hs)

module _ {A : Type 0} (test : A → Bool) (P : A → Type 0) where
  all-All : ((a : A) → test a ≡ true → P a) → (xs : List A) → all test xs ≡ true → All P xs
  all-All each [] h = tt
  all-All each (x ∷ xs) h = (each x (ground arith), all-All each xs (ground arith))

  All-all : ((a : A) → P a → test a ≡ true) → (xs : List A) → All P xs → all test xs ≡ true
  All-all each [] h = refl
  All-all each (x ∷ xs) (h, hs) =
      let here : test x ≡ true = each x h in
      let rest : all test xs ≡ true = All-all each xs hs in ground arith

completed_iff : (s : Status) → (is_completed s ≡ true) ↔ (s ≡ completed)
completed_iff pending = (λ h. cc, λ h. cc)
completed_iff in_progress = (λ h. cc, λ h. cc)
completed_iff completed = (λ h. refl, λ h. refl)

pending_iff : (s : Status) → (is_pending s ≡ true) ↔ (s ≡ pending)
pending_iff pending = (λ h. refl, λ h. refl)
pending_iff in_progress = (λ h. cc, λ h. cc)
pending_iff completed = (λ h. cc, λ h. cc)

in_progress_iff : (s : Status) → (is_in_progress s ≡ true) ↔ (s ≡ in_progress)
in_progress_iff pending = (λ h. cc, λ h. cc)
in_progress_iff in_progress = (λ h. refl, λ h. refl)
in_progress_iff completed = (λ h. cc, λ h. cc)

not_in_progress : (s : Status) → is_in_progress s ≡ false → ¬ (s ≡ in_progress)
not_in_progress s h e = let clash : ⊥ = cc ((in_progress_iff s).1 e) in clash

in_progress_count-none :
    (items : TodoList) → in_progress_count items ≡ 0 → All (HasNot in_progress) items
unfolding in_progress_count
in_progress_count-none [] h = tt
in_progress_count-none (item ∷ items) h =
    go (is_in_progress item.status) refl h (in_progress_count-none items)
  where
    go :
        (b : Bool)
        → is_in_progress item.status ≡ b
        → (if b then suc (in_progress_count items) else in_progress_count items) ≡ 0
        → (in_progress_count items ≡ 0 → All (HasNot in_progress) items)
        → All (HasNot in_progress) (item ∷ items)
    go true e k rest = let clash : ⊥ = omega arith in elim clash [ ]
    go false e k rest = (not_in_progress item.status e, rest k)

in_progress_count-one : (items : TodoList) → in_progress_count items ≡ 1 → OneInProgress items
unfolding in_progress_count
in_progress_count-one [] h = let clash : ⊥ = omega arith in elim clash [ ]
in_progress_count-one (item ∷ items) h =
    go (is_in_progress item.status) refl h (in_progress_count-one items)
  where
    go :
        (b : Bool)
        → is_in_progress item.status ≡ b
        → (if b then suc (in_progress_count items) else in_progress_count items) ≡ 1
        → (in_progress_count items ≡ 1 → OneInProgress items)
        → OneInProgress (item ∷ items)
    go true e k rest = (
      [],
      item,
      items,
      refl,
      (in_progress_iff item.status).0 e,
      tt,
      in_progress_count-none items (omega arith),
    )
    go false e k rest =
        let (before, one, after, split, here, none_before, none_after) = rest k in
        (
          item ∷ before,
          one,
          after,
          ap (λ xs. item ∷ xs) split,
          here,
          (not_in_progress item.status e, none_before),
          none_after,
        )

count_skips :
    (item : TodoItem) (items : TodoList)
    → HasNot in_progress item
    → in_progress_count (item ∷ items) ≡ in_progress_count items
unfolding in_progress_count
count_skips item items h = elim (Bool-cases (is_in_progress item.status)) [
  | inl e ↦ elim (h ((in_progress_iff item.status).0 e)) [ ]
  | inr e ↦ ap (λ b. if b then suc (in_progress_count items) else in_progress_count items) e
]

none-in_progress_count :
    (items : TodoList) → All (HasNot in_progress) items → in_progress_count items ≡ 0
unfolding in_progress_count
none-in_progress_count [] h = refl
none-in_progress_count (item ∷ items) (h, hs) =
    count_skips item items h ∙ none-in_progress_count items hs

one-in_progress_count :
    (before : TodoList) (item : TodoItem) (after : TodoList)
    → Has in_progress item
    → All (HasNot in_progress) before
    → All (HasNot in_progress) after
    → in_progress_count (before ++ item ∷ after) ≡ 1
unfolding in_progress_count
one-in_progress_count [] item after h hb ha =
    ap (λ b. if b then suc (in_progress_count after) else in_progress_count after)
      ((in_progress_iff item.status).1 h)
    ∙ ap suc (none-in_progress_count after ha)
one-in_progress_count (first ∷ before) item after h (hf, hb) ha =
    count_skips first (before ++ item ∷ after) hf ∙ one-in_progress_count before item after h hb ha

all_completed : TodoList → Bool
all_completed items = all (λ item. is_completed item.status) items

all_pending : TodoList → Bool
all_pending items = all (λ item. is_pending item.status) items

last_of_three : (a b : Bool) (n : ℕ) → (a || b || n == 1) ≡ true → a ≡ false → b ≡ false → n ≡ 1
last_of_three true b n h e f = cc
last_of_three false true n h e f = cc
last_of_three false false n h e f = ground arith

one_of_three :
    (a b c : Bool) (n : ℕ) → (b ≡ true) ⊎ ((c ≡ true) ⊎ (n ≡ 1)) → (a || b || c || n == 1) ≡ true
one_of_three true b c n h = refl
one_of_three false true c n h = refl
one_of_three false false true n h = refl
one_of_three false false false n (inl e) = cc
one_of_three false false false n (inr (inl e)) = cc
one_of_three false false false n (inr (inr e)) = ground arith

pub is_focused-IsFocus : (items : TodoList) → is_focused items ≡ true → IsFocus items
unfolding is_focused all_completed all_pending
is_focused-IsFocus [] h = inl refl
is_focused-IsFocus (item ∷ items) h = elim (Bool-cases (all_completed (item ∷ items))) [
  | inl c ↦ inr (
      inl (
        all-All (λ i. is_completed i.status) (Has completed) (λ i. (completed_iff i.status).0)
          (item ∷ items) c))
  | inr c ↦ elim (Bool-cases (all_pending (item ∷ items))) [
    | inl p ↦ inr (
        inr (
          inl (
            all-All (λ i. is_pending i.status) (Has pending) (λ i. (pending_iff i.status).0)
              (item ∷ items) p)))
    | inr p ↦ inr (
        inr (
          inr (
            in_progress_count-one (item ∷ items) (
              last_of_three (all_completed (item ∷ items)) (all_pending (item ∷ items))
                (in_progress_count (item ∷ items)) h c p))))
  ]
]

pub IsFocus-is_focused : (items : TodoList) → IsFocus items → is_focused items ≡ true
unfolding is_focused all_completed all_pending
IsFocus-is_focused items (inl e) = ap is_focused e
IsFocus-is_focused items (inr (inl c)) =
    let here : all (λ i. is_completed i.status) items ≡ true =
      All-all (λ i. is_completed i.status) (Has completed) (λ i. (completed_iff i.status).1) items
        c in
    one_of_three (not (is_nonempty items)) (all_completed items) (all_pending items)
      (in_progress_count items) (inl here)
IsFocus-is_focused items (inr (inr (inl p))) =
    let here : all (λ i. is_pending i.status) items ≡ true =
      All-all (λ i. is_pending i.status) (Has pending) (λ i. (pending_iff i.status).1) items p in
    one_of_three (not (is_nonempty items)) (all_completed items) (all_pending items)
      (in_progress_count items) (inr (inl here))
IsFocus-is_focused items (inr (inr (inr (before, item, after, split, here, hb, ha)))) =
    let one : in_progress_count items ≡ 1 =
      ap in_progress_count split ∙ one-in_progress_count before item after here hb ha in
    one_of_three (not (is_nonempty items)) (all_completed items) (all_pending items)
      (in_progress_count items) (inr (inr one))
