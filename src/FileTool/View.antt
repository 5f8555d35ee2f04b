-- ===== src/FileTool/View.antt =====
-- kinetic_sdk/files/tool.py, `_view` and `execute`.
use Prim.Native.String.{◌++◌ as text_append}
use kinetic_sdk_agents.Prelude.{
  ℕ, zero, suc, ◌+◌, ◌-◌, String, Bool, ◌&&◌, ◌||◌, not, Option, none, some, List, [], ◌∷◌, map,
  take, drop, length, leb, ltb, str_eq, if◌then◌else◌,
}
use kinetic_sdk_agents.Prelude.Int.{ℤ, pos, negsuc}
use kinetic_sdk_agents.Prelude.Text.{text_length, text_take}
use kinetic_sdk_agents.Prelude.Lines.{split_lines}
use kinetic_sdk_agents.FileTool.{
  Backend, State, Read, text_of, rejected, missing_as, file_not_found, is_directory, unreadable,
  Reply, done, failed, unknown_action, reserved_path, path_rejected, filesystem, no_such_file,
  bad_range, read_text, is_internal_snapshot_path,
}
use kinetic_sdk_agents.FileTool.Actions.{
  Output, viewed, listed, str_replace, insert, create, undo_edit,
}

-- A line without its ending, as `splitlines()` gives it: one ending character, or "\r\n".
unfoldable pub without_last : String → String
without_last String.[] = ""
without_last (String.◌∷◌ c String.[]) = ""
without_last (String.◌∷◌ c (String.◌∷◌ d s)) =
    if str_eq (String.◌∷◌ c (String.◌∷◌ d s)) "\r\n"
    then ""
    else String.◌∷◌ c (without_last (String.◌∷◌ d s))

-- `[start, end]`, 1-based, where the range is valid; -1 is the last line.
abbrev pub ends_at : ℕ → ℤ → Option ℕ
ends_at total (pos n) = some n
ends_at total (negsuc zero) = some total
ends_at total (negsuc (suc n)) = none

abbrev pub checked_range : ℤ → Option ℕ → Option (ℕ × ℕ)
checked_range (pos start) (some end_) =
    if ltb start 1 || ltb end_ start then none else some (start, end_)
checked_range (pos start) none = none
checked_range (negsuc n) end_ = none

abbrev pub range_of : ℕ → Option (List ℤ) → Option (ℕ × ℕ)
range_of total none = some (1, total)
range_of total (some (start ∷ end_ ∷ [])) = checked_range start (ends_at total end_)
range_of total (some ls) = none

unfoldable pub truncate_view_line : String → String
unfolding text_length text_take
truncate_view_line line =
    if leb (text_length line) 500 then line else text_append (text_take 500 line) "...(cut)"

unfoldable pub numbered : ℕ → List String → List (ℕ × String)
unfolding truncate_view_line
numbered i [] = []
numbered i (line ∷ ls) = (i, truncate_view_line line) ∷ numbered (suc i) ls

-- At most `max_view_lines` lines, and where a next view goes on if there are more.
unfoldable pub view_lines : ℕ → ℕ × ℕ → List String → Output
unfolding numbered
view_lines max_view_lines (start, end_) ls =
    let sliced = take (suc end_ - start) (drop (start - 1) ls) in
    viewed (numbered start (take max_view_lines sliced))
      (if ltb max_view_lines (length sliced) then some (start + max_view_lines) else none)

abbrev pub view_range_of : ℕ → Option (ℕ × ℕ) → List String → Reply Output
view_range_of max_view_lines none ls = failed bad_range
view_range_of max_view_lines (some range) ls = done (view_lines max_view_lines range ls)

-- `entry.rstrip("/") != ".kinetic"`
unfoldable pub strip_slash : String → String
strip_slash String.[] = ""
strip_slash (String.◌∷◌ c s) =
    let rest = strip_slash s in
    if str_eq rest "" && str_eq (String.◌∷◌ c "") "/" then "" else String.◌∷◌ c rest

unfoldable pub visible : List String → List String
unfolding strip_slash
visible [] = []
visible (e ∷ es) =
    let rest = visible es in if str_eq (strip_slash e) ".kinetic" then rest else e ∷ rest

abbrev pub view_directory : Option (List String) → Reply Output
view_directory none = failed no_such_file
view_directory (some entries) = done (listed (visible entries))

module _ {W : Type 0} (b : Backend W) (max_view_lines : ℕ) where
  abbrev pub view_read : String → Option (List ℤ) → Read → W → Reply Output
  view_read path range (text_of content) w =
      let ls = map without_last (split_lines content) in
      view_range_of max_view_lines (range_of (length ls) range) ls
  view_read path range rejected w = failed path_rejected
  view_read path range (missing_as unreadable) w = failed filesystem
  view_read path range (missing_as file_not_found) w = view_directory (b.list_directory path w)
  view_read path range (missing_as is_directory) w = view_directory (b.list_directory path w)

  unfoldable pub view : String → Option (List ℤ) → State W → Reply Output
  unfolding read_text split_lines without_last view_lines visible
  view path range s = view_read path range (read_text b path s) s.world

-- The parameters of a call; those that an action does not name are passed over.
pub record Params : Type 0 where
  pub file_text : Option String
  pub old_str : Option String
  pub new_str : Option String
  pub replace_all : Bool
  pub insert_line : Option ℤ
  pub view_range : Option (List ℤ)

module _ {W : Type 0} (b : Backend W) (similar : List String → List String → Bool)
    (max_view_lines : ℕ) where
  abbrev pub dispatch : String → String → Params → State W → State W × Reply Output
  dispatch action path params s =
      if str_eq action "view"
      then (s, view b max_view_lines path params.view_range s)
      else (if str_eq action "create"
          then create b similar path params.file_text s
          else (if str_eq action "str_replace"
              then str_replace b similar path params.old_str params.new_str params.replace_all s
              else (if str_eq action "insert"
                  then insert b similar path params.insert_line params.new_str s
                  else undo_edit b similar path s)))

  abbrev pub is_action : String → Bool
  is_action action =
      str_eq action "view"
      || str_eq action "create"
      || str_eq action "str_replace"
      || str_eq action "insert"
      || str_eq action "undo_edit"

  unfoldable pub execute : String → String → Params → State W → State W × Reply Output
  unfolding is_internal_snapshot_path view create str_replace insert undo_edit
  execute action path params s =
      if not (is_action action)
      then (s, failed unknown_action)
      else (if is_internal_snapshot_path path
          then (s, failed reserved_path)
          else dispatch action path params s)
