-- ===== src/Todo.antt =====
-- kinetic_sdk/todo: the items and lists of models.py, the stores of store.py as one interface with
-- two implementations, and the two tools of tool.py. The three texts of `TODO_STATUSES` are a data
-- type; a record that a definition makes here has passed the checks of `TodoItem.__post_init__`.
-- A deletion of a file that fails is left out.
pub mod Tool
pub mod RoundTrip
pub mod Plans
pub mod Stores
pub mod Writes
pub mod Accepts
use Prim.Native.String.{◌++◌ as text_append}
use kinetic_sdk_agents.Prelude.{
  ℕ, zero, suc, ◌+◌, String, Bool, true, false, ◌&&◌, not, Option, none, some, List, [], ◌∷◌, map,
  all, length, ◌==◌, str_eq, if◌then◌else◌, Result, ok, err,
}
use kinetic_sdk_agents.Prelude.Json.{
  Json, null, bool, num, str, arr, obj, Items, nil, cons, Fields, end, field,
}
use kinetic_sdk_agents.Prelude.Dict.{Dict, get, put, remove}
use kinetic_sdk_agents.Prelude.Sets.{has}
use kinetic_sdk_agents.Prelude.Text.{decimal}
use kinetic_sdk_agents.Validation.{find}
use kinetic_sdk_agents.FileLock.Acquire.{is_blank}

pub data Status : Type 0 where
  pending in_progress completed : Status

pub record TodoItem : Type 0 where
  pub id : String
  pub content : String
  pub status : Status

abbrev pub TodoList : Type 0
TodoList = List TodoItem

abbrev pub print_status : Status → String
print_status pending = "pending"
print_status in_progress = "in_progress"
print_status completed = "completed"

abbrev pub parse_status : String → Option Status
parse_status s =
    if str_eq s "pending"
    then some pending
    else (if str_eq s "in_progress"
        then some in_progress
        else (if str_eq s "completed" then some completed else none))

-- `TodoItem.to_dict`
unfoldable pub item_to_dict : TodoItem → Json
item_to_dict item = obj (
    field "id" (str item.id)
      (field "content" (str item.content) (field "status" (str (print_status item.status)) end)))

-- A text that is not blank, and one of the statuses.
abbrev pub filled_text : Option Json → Option String
filled_text (some (str s)) = if is_blank s then none else some s
filled_text o = none

abbrev pub status_of : Option Json → Option Status
status_of (some (str s)) = parse_status s
status_of o = none

abbrev pub made_item : Option String → Option String → Option Status → Option TodoItem
made_item (some id) (some content) (some status) =
    some (record { id = id; content = content; status = status })
made_item id content status = none

-- `TodoItem.from_dict`; `none` is a ValueError.
unfoldable pub item_from_dict : Json → Option TodoItem
unfolding find is_blank
item_from_dict (obj fields) =
    made_item (filled_text (find "id" fields)) (filled_text (find "content" fields))
      (status_of (find "status" fields))
item_from_dict data_ = none

unfoldable pub items_to_list : TodoList → Items
unfolding item_to_dict
items_to_list [] = nil
items_to_list (item ∷ items) = cons (item_to_dict item) (items_to_list items)

-- `TodoList.to_dict`
unfoldable pub list_to_dict : TodoList → Json
unfolding items_to_list
list_to_dict items = obj (field "items" (arr (items_to_list items)) end)

abbrev pub item_then : Option TodoItem → Option TodoList → Option TodoList
item_then none items = none
item_then (some item) none = none
item_then (some item) (some items) = some (item ∷ items)

-- Only the dictionaries are parsed, and then counted.
unfoldable pub parsed_items : Items → Option TodoList
unfolding item_from_dict
parsed_items nil = some []
parsed_items (cons (obj fields) items) =
    item_then (item_from_dict (obj fields)) (parsed_items items)
parsed_items (cons data_ items) = parsed_items items

unfoldable pub items_count : Items → ℕ
items_count nil = 0
items_count (cons data_ items) = suc (items_count items)

abbrev pub as_many : ℕ → Option TodoList → Option TodoList
as_many n none = none
as_many n (some items) = if length items == n then some items else none

abbrev pub items_of : Option Json → Option TodoList
items_of (some (arr items)) = as_many (items_count items) (parsed_items items)
items_of o = none

-- `TodoList.from_dict`
unfoldable pub list_from_dict : Json → Option TodoList
unfolding find parsed_items items_count
list_from_dict (obj fields) = items_of (find "items" fields)
list_from_dict data_ = none

-- What `load` finds: an exception, or a list or none.
pub data Loaded : Type 0 where
  unreadable no_list : Loaded
  loaded : TodoList → Loaded

-- `TodoStore`; `save` says whether it returned, and otherwise raised.
pub record TodoStore (S : Type 0) : Type 0 where
  pub save : TodoList → S → S × Bool
  pub load : S → Loaded
  pub delete : S → S

-- `InMemoryTodoStore` keeps and gives copies, made by way of dictionaries.
abbrev pub copied : Option TodoList → Option TodoList → Option TodoList × Bool
copied (some copy) s = (some copy, true)
copied none s = (s, false)

abbrev pub loaded_copy : Option TodoList → Loaded
loaded_copy none = unreadable
loaded_copy (some copy) = loaded copy

abbrev pub memory_load : Option TodoList → Loaded
memory_load none = no_list
memory_load (some items) = loaded_copy (list_from_dict (list_to_dict items))

unfoldable pub in_memory : TodoStore (Option TodoList)
unfolding list_to_dict list_from_dict
in_memory = record {
  save = λ items s. copied (list_from_dict (list_to_dict items)) s;
  load = memory_load;
  delete = λ s. none;
}

-- What `JsonFileTodoStore` asks of json, tempfile and os, for texts of a type `T`; each call may do
-- anything to a world `W`.
pub record Disk (T W : Type 0) : Type 0 where
  pub dumps : Json → T
  pub loads : T → Option Json
  pub empty : T
  -- `mkdir` and `mkstemp`: the name of a new file, where they raise nothing
  pub make_temp : Dict T → W → W × Option String
  -- `fdopen` and `json.dump`: what the file holds where they raise, which may be a part of the text
  pub dump : T → W → W × Option T
  -- `os.replace`, `os.unlink` and the reading of the file: whether they raise nothing
  pub replace : W → W × Bool
  pub unlink : W → W × Bool
  pub readable : W → Bool
  -- the literals of numbers that are equal to 1
  pub is_one : String → Bool

-- The files, by their names, and the world.
pub record Folder (T W : Type 0) : Type 0 where
  pub files : Dict T
  pub world : W

unfoldable pub payload_of : TodoList → Json
unfolding list_to_dict
payload_of items = obj (field "schema_version" (num "1") (field "todos" (list_to_dict items) end))

abbrev pub todos_of : Option Json → Loaded
todos_of (some (obj fields)) = loaded_copy (list_from_dict (obj fields))
todos_of o = unreadable

module _ {T W : Type 0} (d : Disk T W) where
  -- `except BaseException`: the temporary file is unlinked, where that raises nothing.
  abbrev pub cleaned : String → W × Bool → Dict T → Folder T W × Bool
  cleaned tmp (w, true) files = (record { files = remove tmp files; world = w }, false)
  cleaned tmp (w, false) files = (record { files = files; world = w }, false)

  -- `os.replace`, where it raises nothing: the file of one name gets another.
  abbrev pub renamed : String → String → Option T → Dict T → Dict T
  renamed tmp path none files = files
  renamed tmp path (some text) files = put path text (remove tmp files)

  abbrev pub put_in_place : String → String → W × Bool → Dict T → Folder T W × Bool
  put_in_place tmp path (w, true) files =
      (record { files = renamed tmp path (get tmp files) files; world = w }, true)
  put_in_place tmp path (w, false) files = cleaned tmp (d.unlink w) files

  abbrev pub dumped : String → String → T → W × Option T → Dict T → Folder T W × Bool
  dumped tmp path text (w, none) files = put_in_place tmp path (d.replace w) (put tmp text files)
  dumped tmp path text (w, some part) files = cleaned tmp (d.unlink w) (put tmp part files)

  abbrev pub saved_as : String → T → W × Option String → Dict T → Folder T W × Bool
  saved_as path text (w, none) files = (record { files = files; world = w }, false)
  saved_as path text (w, some tmp) files =
      dumped tmp path text (d.dump text w) (put tmp d.empty files)

  -- `== 1`, which also holds of `true`
  abbrev pub is_version : Option Json → Bool
  is_version (some (num n)) = d.is_one n
  is_version (some (bool b)) = b
  is_version o = false

  abbrev pub read_payload : Option Json → Loaded
  read_payload (some (obj fields)) =
      if is_version (find "schema_version" fields)
      then todos_of (find "todos" fields)
      else unreadable
  read_payload o = unreadable

  abbrev pub file_load : Option T → W → Loaded
  file_load none w = no_list
  file_load (some text) w = if d.readable w then read_payload (d.loads text) else unreadable

  unfoldable pub json_file : String → TodoStore (Folder T W)
  unfolding payload_of list_from_dict find get put remove
  json_file path = record {
    save =
        λ items s. saved_as path (d.dumps (payload_of items)) (d.make_temp s.files s.world) s.files;
    load = λ s. file_load (get path s.files) s.world;
    delete = λ s. record s { files = remove path s.files };
  }
