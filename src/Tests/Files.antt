-- ===== src/Tests/Files.antt =====
-- Runs of kinetic_sdk/files/tool.py.
use kinetic_sdk_agents.Prelude.{
  ℕ, suc, ◌≡◌, refl, String, Bool, true, false, none, some, List, [], ◌∷◌,
}
use kinetic_sdk_agents.Prelude.Int.{pos}
use kinetic_sdk_agents.FileTool.{Backend, State, done, file_not_found, matches_many}
use kinetic_sdk_agents.FileTool.Actions.{
  edited, rewrite, refuse, replacement_of, insertion_of, create, str_replace, insert, undo_edit,
}
use kinetic_sdk_agents.FileTool.View.{Params, execute}
use kinetic_sdk_agents.FileTool.Undo.{UndoneAfter, edits-UndoneAfter}

-- A backend whose lock is always given. The world counts the leases.
abbrev backend : Backend ℕ
backend = record {
  resolves = λ path. true;
  missing = λ path w. file_not_found;
  list_directory = λ path w. none;
  lock = λ path w. (none, suc w);
  unlock = λ path w. (false, w);
  snapshot = λ path content w. (none, w);
  refuses = λ path w. (none, w);
}

-- `difflib` finds no two texts similar.
abbrev dissimilar : List String → List String → Bool
dissimilar olds candidate = false

abbrev on_disk : State ℕ
on_disk = record { files = ("a.txt", "one\ntwo\ntwo\n") ∷ []; undo = []; world = 0 }

abbrev params : Params
params = record {
  file_text = some "x";
  old_str = some "one";
  new_str = some "1";
  replace_all = false;
  insert_line = none;
  view_range = none;
}

replaced_run : execute backend dissimilar 10 "str_replace" "a.txt" params on_disk ≡ (
  record {
    files = ("a.txt", "1\ntwo\ntwo\n") ∷ [];
    undo = ("a.txt", some "one\ntwo\ntwo\n") ∷ [];
    world = 1;
  },
  done (edited 1),
)
unfolding execute str_replace
replaced_run = refl

twice : replacement_of dissimilar false "two" "2" "one\ntwo\ntwo\n" ≡ refuse matches_many
unfolding replacement_of
twice = refl

-- One line whose indentation differs is found, and the new one has the file's.
loose :
    replacement_of dissimilar false "  x = 1\n  y = 2" "  x = 1\n  y = 3"
      "if a:\n\tx = 1\n\ty = 2\n"
    ≡ rewrite "if a:\n\tx = 1\n\ty = 3\n" 1
unfolding replacement_of
loose = refl

-- Behind a last line that has no ending, the new text is joined to it.
joined : insertion_of 1 "b" "a" ≡ rewrite "ab\n" 1
unfolding insertion_of
joined = refl

-- A file of "\r\n" endings has another one behind an insertion.
mixed : insertion_of 1 "b" "a\r\nc\r\n" ≡ rewrite "a\r\nb\nc\r\n" 1
unfolding insertion_of
mixed = refl

-- A replaced file that is deleted meanwhile comes back by an undo; a second undo leaves an empty one.
abbrev gone : State ℕ
gone = record { files = []; undo = ("a.txt", some "one") ∷ []; world = 0 }

emptied :
    (undo_edit backend dissimilar "a.txt" (undo_edit backend dissimilar "a.txt" gone).0).0.files
    ≡ ("a.txt", "") ∷ []
unfolding undo_edit
emptied = refl

edits-UndoneAfter_example :
    UndoneAfter backend dissimilar "a.txt" on_disk
      (create backend dissimilar "a.txt" (some "x") on_disk)
    × UndoneAfter backend dissimilar "a.txt" on_disk
        (str_replace backend dissimilar "a.txt" (some "two") (some "new") true on_disk)
    × UndoneAfter backend dissimilar "a.txt" on_disk
        (insert backend dissimilar "a.txt" (some (pos 1)) (some "new") on_disk)
edits-UndoneAfter_example =
    edits-UndoneAfter backend dissimilar "a.txt" (some "x") (some "two") (some "new") true
      (some (pos 1)) on_disk
