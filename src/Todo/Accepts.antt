-- ===== src/Todo/Accepts.antt =====
-- Plans that are sent to kinetic_sdk/todo/tool.py as they were stored.
use kinetic_sdk_agents.Prelude.{
  ℕ, suc, ◌≡◌, refl, sym, ap, ◌∙◌, subst, Bool, true, false, not, none, some, [], ◌∷◌, All, length,
  length-map, ◌==◌, if◌then◌else◌, ok, arith,
}
use kinetic_sdk_agents.Prelude.Json.{arr}
use kinetic_sdk_agents.Validation.{find}
use kinetic_sdk_agents.FileLock.Acquire.{is_blank}
use kinetic_sdk_agents.Todo.{
  TodoItem, TodoList, TodoStore, loaded, print_status, parse_status, item_to_dict, items_to_list,
}
use kinetic_sdk_agents.Todo.Tool.{
  Reply, output, failed, not_loaded, not_unique, not_focused, not_saved, checked_item, read_item,
  item_before, read_items, distinct_count, ids_of, is_focused, render, after_save, checked_list,
  write, shown, read,
}
use kinetic_sdk_agents.Todo.RoundTrip.{IsItem, parse_status-print_status}
use kinetic_sdk_agents.Todo.Plans.{IsPlan, Distinct-count, IsFocus-is_focused}
use kinetic_sdk_agents.Todo.Stores.{Saved, IsStore}

read_item-item_to_dict :
    (position : ℕ) (item : TodoItem)
    → IsItem item
    → read_item position (item_to_dict item) ≡ ok item
unfolding read_item item_to_dict find
read_item-item_to_dict position item (h, k) =
    ap
      (λ b.
        checked_item position (if is_blank item.content then none else some item.content)
          (parse_status (print_status item.status)) (if b then none else some item.id))
      h
    ∙ ap
        (λ b.
          checked_item position (if b then none else some item.content)
            (parse_status (print_status item.status)) (some item.id))
        k
    ∙ ap (λ o. checked_item position (some item.content) o (some item.id))
        (parse_status-print_status item.status)

read_items-items_to_list :
    (position : ℕ) (items : TodoList)
    → All IsItem items
    → read_items position (items_to_list items) ≡ ok items
unfolding read_items items_to_list
read_items-items_to_list position [] h = refl
read_items-items_to_list position (item ∷ items) (h, hs) =
    ap (λ r. item_before r (read_items (suc position) (items_to_list items)))
      (read_item-item_to_dict position item h)
    ∙ ap (item_before (ok item)) (read_items-items_to_list (suc position) items hs)

module _ {S : Type 0} (t : TodoStore S) where
  -- A plan was stored as it is and is what a read shows next, or the store refused it.
  abbrev pub Accepted : TodoList → S → S × Reply → Type 0
  Accepted items s (s', output text) =
      (text ≡ render items) × (t.load s' ≡ loaded items) × (read t s' ≡ shown t (loaded items))
  Accepted items s (s', failed p) = (p ≡ not_saved) × (t.load s' ≡ t.load s)
  Accepted items s (s', not_loaded) = ⊥

  -- A plan of items that are not blank, sent as `to_dict` gives them, is accepted whatever is in the
  -- store: its checklist comes back, and a read shows the same list; or the store refuses it, and
  -- what was in it stays.
  pub write-Accepted :
      (promise : IsStore t) (items : TodoList) (s : S)
      → All IsItem items
      → IsPlan items
      → Accepted items s (write t (arr (items_to_list items)) s)
  unfolding write read
  write-Accepted promise items s valid (distinct, focus) =
      subst (λ r. Accepted items s (checked_list t r s))
        (sym (read_items-items_to_list 1 items valid))
        (go (distinct_count (ids_of items) == length items) (is_focused items) unique
          (IsFocus-is_focused items focus))
    where
      unique : (distinct_count (ids_of items) == length items) ≡ true
      unique =
          let count : distinct_count (ids_of items) ≡ length (ids_of items) =
            Distinct-count (ids_of items) distinct in
          let same : length (ids_of items) ≡ length items = length-map (λ i. i.id) items in
          ground arith

      stored : (r : S × Bool) → Saved t items s r → Accepted items s (after_save t items r)
      stored (s', true) e = (refl, e, ap (shown t) e)
      stored (s', false) e = (refl, e)

      go :
          (a b : Bool)
          → a ≡ true
          → b ≡ true
          → Accepted items s (
              if not a
              then (s, failed not_unique)
              else (if b then after_save t items (t.save items s) else (s, failed not_focused)))
      go true true e f = stored (t.save items s) (promise.0 items s valid)
      go true false e f = let clash : ⊥ = cc in elim clash [ ]
      go false b e f = let clash : ⊥ = cc in elim clash [ ]
