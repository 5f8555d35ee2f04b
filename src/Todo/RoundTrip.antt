-- ===== src/Todo/RoundTrip.antt =====
-- The dictionaries of kinetic_sdk/todo/models.py, printed and parsed.
use kinetic_sdk_agents.Prelude.{
  ℕ, suc, ◌≡◌, refl, ap, ◌∙◌, true, false, none, some, [], ◌∷◌, All, length, ◌==◌, if◌then◌else◌,
  arith,
}
use kinetic_sdk_agents.Validation.{find}
use kinetic_sdk_agents.FileLock.Acquire.{is_blank}
use kinetic_sdk_agents.Todo.{
  Status, pending, in_progress, completed, TodoItem, TodoList, print_status, parse_status,
  item_to_dict, item_from_dict, made_item, item_then, items_to_list, list_to_dict, parsed_items,
  items_count, as_many, list_from_dict,
}

-- What `TodoItem.__post_init__` asks for.
abbrev pub IsItem : TodoItem → Type 0
IsItem item = (is_blank item.id ≡ false) × (is_blank item.content ≡ false)

pub parse_status-print_status : (status : Status) → parse_status (print_status status) ≡ some status
parse_status-print_status pending = refl
parse_status-print_status in_progress = refl
parse_status-print_status completed = refl

pub item_from_dict-item_to_dict :
    (item : TodoItem) → IsItem item → item_from_dict (item_to_dict item) ≡ some item
unfolding item_from_dict item_to_dict find
item_from_dict-item_to_dict item (h, k) =
    ap
      (λ b.
        made_item (if b then none else some item.id)
          (if is_blank item.content then none else some item.content)
          (parse_status (print_status item.status)))
      h
    ∙ ap
        (λ b.
          made_item (some item.id) (if b then none else some item.content)
            (parse_status (print_status item.status)))
        k
    ∙ ap (made_item (some item.id) (some item.content)) (parse_status-print_status item.status)

parsed_items-items_to_list :
    (items : TodoList) → All IsItem items → parsed_items (items_to_list items) ≡ some items
unfolding parsed_items items_to_list item_to_dict
parsed_items-items_to_list [] h = refl
parsed_items-items_to_list (item ∷ items) (h, hs) =
    ap (λ o. item_then o (parsed_items (items_to_list items))) (item_from_dict-item_to_dict item h)
    ∙ ap (item_then (some item)) (parsed_items-items_to_list items hs)

items_count-items_to_list : (items : TodoList) → items_count (items_to_list items) ≡ length items
unfolding items_count items_to_list
items_count-items_to_list [] = refl
items_count-items_to_list (item ∷ items) = ap suc (items_count-items_to_list items)

same_length : (items : TodoList) (n : ℕ) → n ≡ length items → as_many n (some items) ≡ some items
same_length items n h =
    let same : (length items == n) ≡ true = ground arith in
    ap (λ b. if b then some items else none) same

pub list_from_dict-list_to_dict :
    (items : TodoList) → All IsItem items → list_from_dict (list_to_dict items) ≡ some items
unfolding list_from_dict list_to_dict find
list_from_dict-list_to_dict items h =
    ap (as_many (items_count (items_to_list items))) (parsed_items-items_to_list items h)
    ∙ same_length items (items_count (items_to_list items)) (items_count-items_to_list items)
