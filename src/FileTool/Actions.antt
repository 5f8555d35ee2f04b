-- ===== src/FileTool/Actions.antt =====
-- kinetic_sdk/files/tool.py, the actions of `FileTool` that write, and `execute`.
use Prim.Native.String.{◌++◌ as text_append}
use kinetic_sdk_agents.Prelude.{
  ℕ, zero, suc, String, Bool, true, false, ◌&&◌, not, Option, none, some, List, [], ◌∷◌, ◌++◌, take,
  drop, length, leb, str_eq, if◌then◌else◌,
}
use kinetic_sdk_agents.Prelude.Dict.{get, put, remove}
use kinetic_sdk_agents.Prelude.Int.{ℤ, pos, negsuc}
use kinetic_sdk_agents.Prelude.Text.{text_take, text_drop}
use kinetic_sdk_agents.Prelude.Lines.{split_lines, join_lines, occurrences, replace}
use kinetic_sdk_agents.Patch.{ends_with_eol}
use kinetic_sdk_agents.FileTool.{
  Backend, State, Read, text_of, rejected, missing_as, Missing, file_not_found, is_directory,
  unreadable, Reply, failed, Failure, path_rejected, filesystem, missing_arguments, already_exists,
  no_such_file, matches_many, not_found, fuzzy_many, fuzzy_rejected, replace_all_fuzzy,
  bad_indentation, out_of_range, nothing_to_undo, read_text, write_locked, then_undo, write_text,
  delete_file,
}
use kinetic_sdk_agents.FileTool.Match.{
  Found, trimmed, indentation, anchored, anchored_rejected, unfound, fuzzy_find_details,
  preserve_newline_style,
}
use kinetic_sdk_agents.FileTool.Match.Indent.{reindent_fuzzy_replacement}

-- The outputs, without the path and the marker texts.
pub data Output : Type 0 where
  created reverted undid_create : Output
  edited : (count : ℕ) → Output
  inserted : (line : ℕ) → Output
  -- numbered lines, and where the next ones begin if some were cut; a directory's entries
  viewed : (lines : List (ℕ × String)) (next : Option ℕ) → Output
  listed : List String → Output

-- A text that an edit is about to write, or why it does not.
pub data Edit : Type 0 where
  rewrite : (content : String) (count : ℕ) → Edit
  refuse : Failure → Edit

-- `content[:start] + replacement + content[end:]`
unfoldable pub splice_text : String → ℕ × ℕ → String → String
unfolding text_take text_drop
splice_text content (start, end_) replacement =
    text_append (text_take start content) (text_append replacement (text_drop end_ content))

-- `content[start:end]`
unfoldable pub slice_text : String → ℕ × ℕ → String
unfolding text_take text_drop
slice_text content (start, end_) = text_drop start (text_take end_ content)

abbrev pub or_indentation : String → ℕ × ℕ → Option String → Edit
or_indentation content span none = refuse bad_indentation
or_indentation content span (some replacement) = rewrite (splice_text content span replacement) 1

-- With `replace_all`, a text that was found but not exactly is refused.
abbrev pub fuzzy_edit : Bool → String → String → String → Found → Edit
fuzzy_edit all content old_str new_str anchored_rejected = refuse fuzzy_rejected
fuzzy_edit all content old_str new_str (unfound []) = refuse not_found
fuzzy_edit all content old_str new_str (unfound (span ∷ spans)) = refuse fuzzy_many
fuzzy_edit true content old_str new_str (trimmed span) = refuse replace_all_fuzzy
fuzzy_edit true content old_str new_str (indentation span) = refuse replace_all_fuzzy
fuzzy_edit true content old_str new_str (anchored span) = refuse replace_all_fuzzy
fuzzy_edit false content old_str new_str (trimmed span) =
    rewrite (splice_text content span (preserve_newline_style new_str content)) 1
fuzzy_edit false content old_str new_str (anchored span) =
    rewrite (splice_text content span (preserve_newline_style new_str content)) 1
fuzzy_edit false content old_str new_str (indentation span) = or_indentation content span (
    reindent_fuzzy_replacement old_str (preserve_newline_style new_str content)
      (slice_text content span))

-- `occurrences`, and the case of none; only `replace_all` replaces several.
abbrev pub exact_edit : ℕ → Bool → String → String → String → Edit → Edit
exact_edit zero all content old_str new_str fuzzy = fuzzy
exact_edit (suc zero) all content old_str new_str fuzzy =
    rewrite (replace old_str (preserve_newline_style new_str content) 1 content) 1
exact_edit (suc (suc n)) false content old_str new_str fuzzy = refuse matches_many
exact_edit (suc (suc n)) true content old_str new_str fuzzy =
    rewrite (replace old_str (preserve_newline_style new_str content) (suc (suc n)) content)
      (suc (suc n))

unfoldable pub replacement_of :
    (List String → List String → Bool) → Bool → String → String → String → Edit
unfolding occurrences replace preserve_newline_style fuzzy_find_details splice_text slice_text
    reindent_fuzzy_replacement
replacement_of similar all old_str new_str content =
    exact_edit (occurrences old_str 0 content) all content old_str new_str
      (fuzzy_edit all content old_str new_str (fuzzy_find_details similar content old_str))

-- `new_lines[-1] += "\n"`
abbrev pub end_last : List String → List String
end_last [] = []
end_last (line ∷ []) = text_append line "\n" ∷ []
end_last (line ∷ line' ∷ ls) = line ∷ end_last (line' ∷ ls)

unfoldable pub inserted_lines : String → List String
unfolding split_lines ends_with_eol
inserted_lines new_str =
    if not (str_eq new_str "") && not (ends_with_eol new_str)
    then end_last (split_lines new_str)
    else split_lines new_str

unfoldable pub insertion_of : ℕ → String → String → Edit
unfolding inserted_lines preserve_newline_style split_lines join_lines
insertion_of line new_str content =
    let ls = split_lines content in
    let new_lines = inserted_lines (preserve_newline_style new_str content) in
    if leb line (length ls)
    then rewrite (join_lines (take line ls ++ (new_lines ++ drop line ls))) 1
    else refuse out_of_range

-- The errors of `read_text` for the actions that want a text.
abbrev pub not_read : Missing → Failure
not_read file_not_found = no_such_file
not_read is_directory = filesystem
not_read unreadable = filesystem

module _ {W : Type 0} (b : Backend W) (similar : List String → List String → Bool) where
  -- An edit of a text that was read: the lease, the snapshot, the write, and the undo entry.
  abbrev pub edit_with : String → (ℕ → Output) → String → Edit → State W → State W × Reply Output
  edit_with path answer content (refuse e) s = (s, failed e)
  edit_with path answer content (rewrite new_content n) s =
      then_undo b (put path (some content)) (answer n)
        (write_locked b path (some content) (write_text new_content) s)

  abbrev pub edit_read :
      String → (ℕ → Output) → (String → Edit) → Read → State W → State W × Reply Output
  edit_read path answer edit (text_of content) s = edit_with path answer content (edit content) s
  edit_read path answer edit rejected s = (s, failed path_rejected)
  edit_read path answer edit (missing_as m) s = (s, failed (not_read m))

  unfoldable pub str_replace :
      String → Option String → Option String → Bool → State W → State W × Reply Output
  unfolding read_text write_locked put replacement_of
  str_replace path (some old_str) (some new_str) all s =
      edit_read path edited (replacement_of similar all old_str new_str) (read_text b path s) s
  str_replace path old_str new_str all s = (s, failed missing_arguments)

  -- `not 0 <= insert_line <= len(lines)`
  abbrev pub insert_at : ℤ → String → String → Edit
  insert_at (pos line) new_str content = insertion_of line new_str content
  insert_at (negsuc n) new_str content = refuse out_of_range

  abbrev pub line_answer : ℤ → ℕ → Output
  line_answer (pos line) n = inserted line
  line_answer (negsuc m) n = inserted 0

  unfoldable pub insert : String → Option ℤ → Option String → State W → State W × Reply Output
  unfolding read_text write_locked put insertion_of
  insert path (some line) (some new_str) s =
      edit_read path (line_answer line) (insert_at line new_str) (read_text b path s) s
  insert path line new_str s = (s, failed missing_arguments)

  abbrev pub create_read : String → String → Read → State W → State W × Reply Output
  create_read path file_text (text_of content) s = (s, failed already_exists)
  create_read path file_text rejected s = (s, failed path_rejected)
  create_read path file_text (missing_as is_directory) s = (s, failed filesystem)
  create_read path file_text (missing_as unreadable) s = (s, failed filesystem)
  create_read path file_text (missing_as file_not_found) s =
      then_undo b (put path none) created (write_locked b path none (write_text file_text) s)

  unfoldable pub create : String → Option String → State W → State W × Reply Output
  unfolding read_text write_locked put
  create path none s = (s, failed missing_arguments)
  create path (some file_text) s = create_read path file_text (read_text b path s) s

  abbrev pub revert : String → String → String → State W → State W × Reply Output
  revert path previous current s =
      then_undo b (put path (some current)) reverted
        (write_locked b path none (write_text previous) s)

  -- A file that is gone counts as an empty one.
  abbrev pub revert_read : String → String → Read → State W → State W × Reply Output
  revert_read path previous (text_of current) s = revert path previous current s
  revert_read path previous rejected s = (s, failed path_rejected)
  revert_read path previous (missing_as file_not_found) s = revert path previous "" s
  revert_read path previous (missing_as is_directory) s = (s, failed filesystem)
  revert_read path previous (missing_as unreadable) s = (s, failed filesystem)

  abbrev pub undo_entry : String → Option (Option String) → State W → State W × Reply Output
  undo_entry path none s = (s, failed nothing_to_undo)
  undo_entry path (some none) s =
      then_undo b (remove path) undid_create (write_locked b path none delete_file s)
  undo_entry path (some (some previous)) s = revert_read path previous (read_text b path s) s

  unfoldable pub undo_edit : String → State W → State W × Reply Output
  unfolding read_text write_locked put remove get
  undo_edit path s = undo_entry path (get path s.undo) s
