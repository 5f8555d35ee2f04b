-- ===== src/Todo/Tool.antt =====
-- kinetic_sdk/todo/tool.py: `TodoWriteTool` and `TodoReadTool`, over any store.
use Prim.Native.String.{◌++◌ as text_append}
use kinetic_sdk_agents.Prelude.{
  ℕ, suc, String, Bool, true, false, ◌||◌, not, Option, none, some, List, [], ◌∷◌, map, all, length,
  ◌==◌, if◌then◌else◌, Result, ok, err,
}
use kinetic_sdk_agents.Prelude.Json.{Json, str, arr, obj, Items, nil, cons}
use kinetic_sdk_agents.Prelude.Sets.{has}
use kinetic_sdk_agents.Prelude.Text.{decimal}
use kinetic_sdk_agents.Validation.{find}
use kinetic_sdk_agents.FileLock.Acquire.{is_blank}
use kinetic_sdk_agents.Todo.{
  Status, pending, in_progress, completed, TodoItem, TodoList, TodoStore, Loaded, unreadable,
  no_list, loaded, filled_text, status_of,
}

pub data Problem : Type 0 where
  not_a_list not_unique not_focused not_saved : Problem
  not_an_object bad_content bad_status bad_id : (position : ℕ) → Problem

-- The result of a tool: its output, or its error.
pub data Reply : Type 0 where
  output : String → Reply
  failed : Problem → Reply
  not_loaded : Reply

abbrev pub or_position : ℕ → Option Json → Option Json
or_position position none = some (str (decimal position))
or_position position (some v) = some v

abbrev pub checked_item :
    ℕ → Option String → Option Status → Option String → Result Problem TodoItem
checked_item position none status id = err (bad_content position)
checked_item position (some content) none id = err (bad_status position)
checked_item position (some content) (some status) none = err (bad_id position)
checked_item position (some content) (some status) (some id) =
    ok (record { id = id; content = content; status = status })

unfoldable pub read_item : ℕ → Json → Result Problem TodoItem
unfolding find is_blank decimal
read_item position (obj fields) =
    checked_item position (filled_text (find "content" fields)) (status_of (find "status" fields))
      (filled_text (or_position position (find "id" fields)))
read_item position raw_item = err (not_an_object position)

abbrev pub item_before : Result Problem TodoItem → Result Problem TodoList → Result Problem TodoList
item_before (err p) rest = err p
item_before (ok item) (err p) = err p
item_before (ok item) (ok items) = ok (item ∷ items)

unfoldable pub read_items : ℕ → Items → Result Problem TodoList
unfolding read_item
read_items position nil = ok []
read_items position (cons raw_item items) =
    item_before (read_item position raw_item) (read_items (suc position) items)

-- `len({item.id for item in items})`
unfoldable pub distinct_count : List String → ℕ
unfolding has
distinct_count [] = 0
distinct_count (x ∷ xs) = let rest = distinct_count xs in if has x xs then rest else suc rest

abbrev pub ids_of : TodoList → List String
ids_of items = map (λ item. item.id) items

abbrev pub is_pending : Status → Bool
is_pending pending = true
is_pending in_progress = false
is_pending completed = false

abbrev pub is_in_progress : Status → Bool
is_in_progress pending = false
is_in_progress in_progress = true
is_in_progress completed = false

abbrev pub is_completed : Status → Bool
is_completed pending = false
is_completed in_progress = false
is_completed completed = true

unfoldable pub in_progress_count : TodoList → ℕ
in_progress_count [] = 0
in_progress_count (item ∷ items) =
    let rest = in_progress_count items in if is_in_progress item.status then suc rest else rest

abbrev pub is_nonempty : TodoList → Bool
is_nonempty [] = false
is_nonempty (item ∷ items) = true

unfoldable pub is_focused : TodoList → Bool
unfolding in_progress_count
is_focused items =
    not (is_nonempty items)
    || all (λ item. is_completed item.status) items
    || all (λ item. is_pending item.status) items
    || in_progress_count items == 1

abbrev pub marker : Status → String
marker completed = "[x]"
marker in_progress = "[~]"
marker pending = "[ ]"

abbrev pub row : TodoItem → String
row item =
    text_append (marker item.status)
      (text_append " " (text_append item.id (text_append ". " item.content)))

-- `"\n".join(rows)`
unfoldable pub render : TodoList → String
render [] = ""
render (item ∷ []) = row item
render (item ∷ item' ∷ items) = text_append (row item) (text_append "\n" (render (item' ∷ items)))

module _ {S : Type 0} (t : TodoStore S) where
  abbrev pub after_save : TodoList → S × Bool → S × Reply
  after_save items (s, true) = (s, output (render items))
  after_save items (s, false) = (s, failed not_saved)

  abbrev pub checked_list : Result Problem TodoList → S → S × Reply
  checked_list (err p) s = (s, failed p)
  checked_list (ok items) s =
      if not (distinct_count (ids_of items) == length items)
      then (s, failed not_unique)
      else (if is_focused items then after_save items (t.save items s) else (s, failed not_focused))

  -- `TodoWriteTool.execute`
  unfoldable pub write : Json → S → S × Reply
  unfolding read_items distinct_count is_focused render
  write (arr todos) s = checked_list (read_items 1 todos) s
  write todos s = (s, failed not_a_list)

  abbrev pub shown : Loaded → Reply
  shown unreadable = not_loaded
  shown no_list = output "No todos yet."
  shown (loaded []) = output "No todos yet."
  shown (loaded (item ∷ items)) = output (render (item ∷ items))

  -- `TodoReadTool.execute`
  unfoldable pub read : S → Reply
  unfolding render
  read s = shown (t.load s)
