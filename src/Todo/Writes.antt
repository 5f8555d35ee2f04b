-- ===== src/Todo/Writes.antt =====
-- What the tools of kinetic_sdk/todo/tool.py keep in a store.
use kinetic_sdk_agents.Prelude.{
  ℕ, suc, ◌≡◌, refl, ap, subst, String, Bool, true, false, not, Option, none, some, [], ◌∷◌, All,
  length, length-map, ◌==◌, str_eq, eq_iff, if◌then◌else◌, Result, ok, err, arith,
}
use kinetic_sdk_agents.Prelude.Json.{Json, null, bool, num, str, arr, obj, Items, nil, cons, Fields}
use kinetic_sdk_agents.Validation.{find}
use kinetic_sdk_agents.FileLock.Acquire.{is_blank}
use kinetic_sdk_agents.Todo.{
  Status, pending, in_progress, completed, TodoItem, TodoList, TodoStore, loaded, print_status,
  filled_text, status_of,
}
use kinetic_sdk_agents.Todo.Tool.{
  Problem, Reply, output, failed, not_loaded, not_unique, not_focused, or_position, checked_item,
  read_item, item_before, read_items, distinct_count, ids_of, is_focused, render, after_save,
  checked_list, write,
}
use kinetic_sdk_agents.Todo.RoundTrip.{IsItem}
use kinetic_sdk_agents.Todo.Plans.{IsPlan, Distinct, distinct_count-Distinct, is_focused-IsFocus}
use kinetic_sdk_agents.Todo.Stores.{Saved, IsStore}

-- An item as the model gave it; one without an id has its position as its id.
abbrev pub Given : ℕ → Fields → TodoItem → Type 0
Given position fields item =
    (find "content" fields ≡ some (str item.content))
    × (find "status" fields ≡ some (str (print_status item.status)))
    × (or_position position (find "id" fields) ≡ some (str item.id))

abbrev pub Sent : ℕ → Items → TodoList → Type 0
Sent position nil [] = Unit
Sent position (cons (obj fields) todos) (item ∷ items) =
    Given position fields item × Sent (suc position) todos items
Sent position todos items = ⊥

abbrev Filled : Option Json → Option String → Type 0
Filled o none = Unit
Filled o (some s) = (o ≡ some (str s)) × (is_blank s ≡ false)

filled_text-Filled : (o : Option Json) → Filled o (filled_text o)
filled_text-Filled none = tt
filled_text-Filled (some (str s)) = go (is_blank s) refl
  where
    go : (b : Bool) → is_blank s ≡ b → Filled (some (str s)) (if b then none else some s)
    go true e = tt
    go false e = (refl, e)
filled_text-Filled (some null) = tt
filled_text-Filled (some (bool b)) = tt
filled_text-Filled (some (num n)) = tt
filled_text-Filled (some (arr xs)) = tt
filled_text-Filled (some (obj fs)) = tt

abbrev Stated : Option Json → Option Status → Type 0
Stated o none = Unit
Stated o (some status) = o ≡ some (str (print_status status))

status_of-Stated : (o : Option Json) → Stated o (status_of o)
status_of-Stated none = tt
status_of-Stated (some (str s)) =
    go (str_eq s "pending") (str_eq s "in_progress") (str_eq s "completed") refl refl refl
  where
    go :
        (a b c : Bool)
        → str_eq s "pending" ≡ a
        → str_eq s "in_progress" ≡ b
        → str_eq s "completed" ≡ c
        → Stated (some (str s)) (
            if a
            then some pending
            else (if b then some in_progress else (if c then some completed else none)))
    go true b c e f g = ap (λ t. some (str t)) ((eq_iff s "pending").0 e)
    go false true c e f g = ap (λ t. some (str t)) ((eq_iff s "in_progress").0 f)
    go false false true e f g = ap (λ t. some (str t)) ((eq_iff s "completed").0 g)
    go false false false e f g = tt
status_of-Stated (some null) = tt
status_of-Stated (some (bool b)) = tt
status_of-Stated (some (num n)) = tt
status_of-Stated (some (arr xs)) = tt
status_of-Stated (some (obj fs)) = tt

abbrev ItemRead : ℕ → Json → Result Problem TodoItem → Type 0
ItemRead position (obj fields) (ok item) = Given position fields item × IsItem item
ItemRead position raw_item (ok item) = ⊥
ItemRead position raw_item (err p) = Unit

read_item-ItemRead :
    (position : ℕ) (raw_item : Json) → ItemRead position raw_item (read_item position raw_item)
unfolding read_item
read_item-ItemRead position (obj fields) =
    go (filled_text (find "content" fields)) (status_of (find "status" fields))
      (filled_text (or_position position (find "id" fields)))
      (filled_text-Filled (find "content" fields)) (status_of-Stated (find "status" fields))
      (filled_text-Filled (or_position position (find "id" fields)))
  where
    go :
        (c : Option String) (st : Option Status) (i : Option String)
        → Filled (find "content" fields) c
        → Stated (find "status" fields) st
        → Filled (or_position position (find "id" fields)) i
        → ItemRead position (obj fields) (checked_item position c st i)
    go none st i hc hs hi = tt
    go (some c) none i hc hs hi = tt
    go (some c) (some st) none hc hs hi = tt
    go (some c) (some st) (some i) (hc, bc) hs (hi, bi) = ((hc, hs, hi), (bi, bc))
read_item-ItemRead position null = tt
read_item-ItemRead position (bool b) = tt
read_item-ItemRead position (num n) = tt
read_item-ItemRead position (str s) = tt
read_item-ItemRead position (arr xs) = tt

abbrev ListRead : ℕ → Items → Result Problem TodoList → Type 0
ListRead position todos (ok items) = Sent position todos items × All IsItem items
ListRead position todos (err p) = Unit

read_items-ListRead :
    (position : ℕ) (todos : Items) → ListRead position todos (read_items position todos)
unfolding read_items
read_items-ListRead position nil = (tt, tt)
read_items-ListRead position (cons raw_item todos) =
    go raw_item (read_item position raw_item) (read_items (suc position) todos)
      (read_item-ItemRead position raw_item) (read_items-ListRead (suc position) todos)
  where
    go :
        (raw : Json) (r : Result Problem TodoItem) (rest : Result Problem TodoList)
        → ItemRead position raw r
        → ListRead (suc position) todos rest
        → ListRead position (cons raw todos) (item_before r rest)
    go raw (err p) rest h hs = tt
    go raw (ok item) (err p) h hs = tt
    go (obj fields) (ok item) (ok items) (h, valid) (hs, valids) = ((h, hs), (valid, valids))
    go null (ok item) (ok items) h hs = elim h [ ]
    go (bool b) (ok item) (ok items) h hs = elim h [ ]
    go (num n) (ok item) (ok items) h hs = elim h [ ]
    go (str s) (ok item) (ok items) h hs = elim h [ ]
    go (arr xs) (ok item) (ok items) h hs = elim h [ ]

-- The same of any value; only a list is a list of todos.
abbrev pub SentAs : Json → TodoList → Type 0
SentAs (arr todos) items = Sent 1 todos items
SentAs todos items = ⊥

module _ {S : Type 0} (t : TodoStore S) where
  -- What one call of `todo_write` did.
  abbrev pub Written : Json → S → S × Reply → Type 0
  Written todos s (s', output text) =
      (items : TodoList) × SentAs todos items
      × IsPlan items
      × (t.load s' ≡ loaded items)
      × (text ≡ render items)
  Written todos s (s', failed p) = t.load s' ≡ t.load s
  Written todos s (s', not_loaded) = ⊥

  checked_list-Written :
      (todos : Json) (r : Result Problem TodoList) (s : S)
      → ((items : TodoList) (u : S) → All IsItem items → Saved t items u (t.save items u))
      → ((items : TodoList) → r ≡ ok items → SentAs todos items × All IsItem items)
      → Written todos s (checked_list t r s)
  checked_list-Written todos (err p) s saves h = refl
  checked_list-Written todos (ok items) s saves h =
      go (distinct_count (ids_of items) == length items) (is_focused items) refl refl (h items refl)
    where
      distinct : (distinct_count (ids_of items) == length items) ≡ true → Distinct (ids_of items)
      distinct e =
          let same : length (ids_of items) ≡ length items = length-map (λ i. i.id) items in
          distinct_count-Distinct (ids_of items) (ground arith)

      stored :
          SentAs todos items
          → IsPlan items
          → (r : S × Bool) → Saved t items s r
          → Written todos s (after_save t items r)
      stored sent plan (s', true) e = (items, sent, plan, e, refl)
      stored sent plan (s', false) e = e

      go :
          (a b : Bool)
          → (distinct_count (ids_of items) == length items) ≡ a
          → is_focused items ≡ b
          → SentAs todos items × All IsItem items
          → Written todos s (
              if not a
              then (s, failed not_unique)
              else (if b then after_save t items (t.save items s) else (s, failed not_focused)))
      go false b e f g = refl
      go true false e f g = refl
      go true true e f (sent, valid) =
          stored sent (distinct e, is_focused-IsFocus items f) (t.save items s)
            (saves items s valid)

  -- Over a store that keeps its promises, a write that returns a checklist stored the list that was
  -- sent, with every content, status and id, or the position as a missing id. That list is a plan: no
  -- two ids are the same, and the items, if there are any, are all completed, all pending, or one of
  -- them and no other is in progress. A write that returns an error leaves the stored list.
  pub write-Written :
      (promise : IsStore t) (todos : Json) (s : S) → Written todos s (write t todos s)
  unfolding write
  write-Written promise (arr todos) s =
      checked_list-Written (arr todos) (read_items 1 todos) s promise.0
        (λ items e. subst (ListRead 1 todos) e (read_items-ListRead 1 todos))
  write-Written promise null s = refl
  write-Written promise (bool b) s = refl
  write-Written promise (num n) s = refl
  write-Written promise (str text) s = refl
  write-Written promise (obj fields) s = refl
