-- ===== src/Tests/Todos.antt =====
-- Runs of kinetic_sdk/todo.
use kinetic_sdk_agents.Prelude.{
  ◌≡◌, refl, inr, String, Bool, true, false, if◌then◌else◌, none, some, All, [], ◌∷◌,
}
use kinetic_sdk_agents.Prelude.Json.{Json, str, arr, obj, nil, cons, Fields, end, field}
use kinetic_sdk_agents.Prelude.Sets.{has}
use kinetic_sdk_agents.FileLock.Acquire.{is_blank}
use kinetic_sdk_agents.Todo.{
  in_progress, completed, TodoList, in_memory, Disk, json_file, items_to_list,
}
use kinetic_sdk_agents.Todo.Tool.{output, failed, not_unique, not_focused, bad_status, write, read}
use kinetic_sdk_agents.Todo.RoundTrip.{IsItem}
use kinetic_sdk_agents.Todo.Plans.{IsPlan}
use kinetic_sdk_agents.Todo.Stores.{IsStore, in_memory-IsStore, json_file-IsStore}
use kinetic_sdk_agents.Todo.Writes.{Written, write-Written}
use kinetic_sdk_agents.Todo.Accepts.{Accepted, write-Accepted}

abbrev todo : String → String → Fields
todo content status = field "content" (str content) (field "status" (str status) end)

abbrev started : Json
started = arr (
    cons (obj (todo "Inspect tests" "completed"))
      (cons (obj (field "id" (str "b") (todo "Implement fix" "in_progress"))) nil))

started_run : (write in_memory started none).1 ≡ output "[x] 1. Inspect tests\n[~] b. Implement fix"
unfolding write in_memory
started_run = refl

read_run :
    read in_memory (write in_memory started none).0
    ≡ output "[x] 1. Inspect tests\n[~] b. Implement fix"
unfolding write read in_memory
read_run = refl

-- The position that stands for a missing id may be another item's id.
same_id_run :
    (write in_memory
      (arr (
        cons
          (obj (field "id" (str "2") (todo "a" "pending")))
          (cons (obj (todo "b" "pending")) nil)))
      none).1
    ≡ failed not_unique
unfolding write in_memory
same_id_run = refl

unfocused_run :
    (write in_memory
      (arr (cons (obj (todo "a" "completed")) (cons (obj (todo "b" "pending")) nil)))
      none).1
    ≡ failed not_focused
unfolding write in_memory
unfocused_run = refl

unknown_run :
    (write in_memory (arr (cons (obj (todo "a" "done")) nil)) none).1 ≡ failed (bad_status 1)
unfolding write in_memory
unknown_run = refl

-- A disk that keeps JSON values as they are. Where it is full it writes a part of the text and raises.
abbrev disk : Disk Json Bool
disk = record {
  dumps = λ v. v;
  loads = λ v. some v;
  empty = str "";
  make_temp = λ files w. (w, some "todos.json.x.tmp");
  dump = λ v w. (w, if w then some (str "{") else none);
  replace = λ w. (w, true);
  unlink = λ w. (w, true);
  readable = λ w. true;
  is_one = λ n. true;
}

json_file-IsStore_example : IsStore (json_file disk "todos.json")
json_file-IsStore_example =
    json_file-IsStore disk "todos.json"
      (λ files w w' tmp e same.
        let name : tmp ≡ "todos.json.x.tmp" = cc in let clash : ⊥ = cc in elim clash [ ])
      (λ v. refl) (λ w. refl) refl

full_disk_run :
    (json_file disk "todos.json").save [] (record { files = []; world = true })
    ≡ (record { files = []; world = true }, false)
unfolding json_file
full_disk_run = refl

write-Written_example : Written in_memory started none (write in_memory started none)
write-Written_example = write-Written in_memory in_memory-IsStore started none

abbrev plan : TodoList
plan =
    record { id = "a"; content = "Inspect tests"; status = completed }
    ∷ record { id = "b"; content = "Implement fix"; status = in_progress }
    ∷ []

plan_items : All IsItem plan
unfolding is_blank
plan_items = ((refl, refl), ((refl, refl), tt))

plan-IsPlan : IsPlan plan
unfolding has
plan-IsPlan = (
  (refl, (refl, tt)),
  inr (
      inr (
        inr (
          record { id = "a"; content = "Inspect tests"; status = completed } ∷ [],
          record { id = "b"; content = "Implement fix"; status = in_progress },
          [],
          refl,
          refl,
          (λ e. cc, tt),
          tt,
        ))),
)

write-Accepted_example :
    Accepted in_memory plan none (write in_memory (arr (items_to_list plan)) none)
write-Accepted_example = write-Accepted in_memory in_memory-IsStore plan none plan_items plan-IsPlan
