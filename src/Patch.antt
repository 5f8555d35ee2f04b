-- ===== src/Patch.antt =====
-- kinetic_sdk/files/patch.py, `ApplyPatchTool`: the application of one file's hunks. A file is the
-- list of its lines with their endings (`splitlines(keepends=True)`).
pub mod Diff
pub mod Laws
pub mod Execute
use kinetic_sdk_agents.Prelude.Text.{occurs_in}
use kinetic_sdk_agents.Prelude.Lines.{split_lines, join_lines}
use Prim.Native.Char.{Char}
use Prim.Native.String.{◌++◌ as str_append}
use kinetic_sdk_agents.Prelude.{
  ℕ, zero, suc, ◌+◌, ◌-◌, min, String, Bool, true, false, ◌&&◌, ◌||◌, List, [], ◌∷◌, ◌++◌, ltb, leb,
  if◌then◌else◌, length, take, drop, str_eq, Result, ok, err,
}

-- A line of a hunk: its first character, and the rest with its ending.
pub data HunkLine : Type 0 where
  kept removed added : (line : String) → HunkLine

pub record Hunk : Type 0 where
  pub old_start : ℕ
  pub old_count : ℕ
  pub new_start : ℕ
  pub new_count : ℕ
  pub lines : List HunkLine

-- The messages of PatchApplyError in `_apply_file_patch`.
pub data ApplyError : Type 0 where
  outside_file no_match many_matches : ApplyError

abbrev pub is_eol : Char → Bool
is_eol c = str_eq (String.◌∷◌ c String.[]) "\n" || str_eq (String.◌∷◌ c String.[]) "\r"

-- `line.rstrip("\r\n")`
unfoldable pub strip_eol : String → String
strip_eol String.[] = ""
strip_eol (String.◌∷◌ c s) =
    let rest = strip_eol s in if str_eq rest "" && is_eol c then "" else String.◌∷◌ c rest

-- `line.endswith(("\n", "\r"))`
unfoldable pub ends_with_eol : String → Bool
ends_with_eol String.[] = false
ends_with_eol (String.◌∷◌ c String.[]) = is_eol c
ends_with_eol (String.◌∷◌ c (String.◌∷◌ d s)) = ends_with_eol (String.◌∷◌ d s)

unfoldable pub file_newline : String → String → String
unfolding strip_eol ends_with_eol
file_newline newline line = str_append (strip_eol line) (if ends_with_eol line then newline else "")

-- `[file_newline(line[1:]) for line in hunk.lines if line[0] in " -"]`, and for " +".
abbrev pub expected : String → List HunkLine → List String
expected newline [] = []
expected newline (kept line ∷ ls) = file_newline newline line ∷ expected newline ls
expected newline (removed line ∷ ls) = file_newline newline line ∷ expected newline ls
expected newline (added line ∷ ls) = expected newline ls

abbrev pub replacement : String → List HunkLine → List String
replacement newline [] = []
replacement newline (kept line ∷ ls) = file_newline newline line ∷ replacement newline ls
replacement newline (removed line ∷ ls) = replacement newline ls
replacement newline (added line ∷ ls) = file_newline newline line ∷ replacement newline ls

unfoldable pub same_lines : List String → List String → Bool
same_lines [] [] = true
same_lines [] (y ∷ ys) = false
same_lines (x ∷ xs) [] = false
same_lines (x ∷ xs) (y ∷ ys) = str_eq x y && same_lines xs ys

-- `lines[start:start + len(expected)] == expected`
abbrev pub matches_at : List String → List String → ℕ → Bool
matches_at lines want start = same_lines (take (length want) (drop start lines)) want

-- `[c for c in range(lower, upper + 1) if ...]`, over `n` positions from `lower` on.
unfoldable pub candidates : List String → List String → ℕ → ℕ → List ℕ
unfolding same_lines
candidates lines want lower zero = []
candidates lines want lower (suc n) =
    let rest = candidates lines want (suc lower) n in
    if matches_at lines want lower then lower ∷ rest else rest

-- How many positions lie between the bounds; a file that is too short has none.
abbrev pub positions : ℕ → ℕ → ℕ → ℕ
positions have want start =
    if ltb have want then 0 else suc (min (have - want) (start + 20)) - (start - 20)

abbrev pub only : List ℕ → Result ApplyError ℕ
only [] = err no_match
only (c ∷ []) = ok c
only (c ∷ d ∷ ds) = err many_matches

-- Where a hunk goes that should stand at `start`.
unfoldable pub seek : List String → List String → ℕ → Result ApplyError ℕ
unfolding same_lines candidates
seek lines want start =
    let nearby =
      candidates lines want (start - 20) (positions (length lines) (length want) start) in
    if matches_at lines want start then ok start else only nearby

-- What `old_start` is more than the index that it means.
abbrev pub base : ℕ → ℕ
base zero = 0
base (suc count) = 1

-- `lines[start:end] = replacement`
abbrev pub splice : List String → ℕ → ℕ → List String → List String
splice lines start n new_lines = take start lines ++ (new_lines ++ drop (start + n) lines)

-- The offset is an integer, kept as a difference `plus - minus`. The rest of the hunks follows.
abbrev pub placed :
    String
    → Hunk
    → List String
    → Result ApplyError ℕ
    → (ℕ → ℕ → List String → Result ApplyError (List String))
    → Result ApplyError (List String)
placed newline h lines (err e) rest = err e
placed newline h lines (ok start) rest =
    let want : List String = expected newline h.lines in
    let new_lines : List String = replacement newline h.lines in
    rest (start + length new_lines + base h.old_count) (h.old_start + length want)
      (splice lines start (length want) new_lines)

unfoldable pub apply_hunks :
    String → List Hunk → ℕ → ℕ → List String → Result ApplyError (List String)
unfolding seek file_newline
apply_hunks newline [] plus minus lines = ok lines
apply_hunks newline (h ∷ hs) plus minus lines =
    let start : ℕ = (h.old_start + plus) - (base h.old_count + minus) in
    if ltb (h.old_start + plus) (base h.old_count + minus) || ltb (length lines) start
    then err outside_file
    else placed newline h lines (seek lines (expected newline h.lines) start)
        (apply_hunks newline hs)

-- `newline`, from the text that the hunks are applied to
abbrev pub newline_of : String → String
newline_of original = if occurs_in "\r\n" original then "\r\n" else "\n"

abbrev pub joined : Result ApplyError (List String) → Result ApplyError String
joined (ok lines) = ok (join_lines lines)
joined (err e) = err e

-- `_apply_file_patch`
unfoldable pub apply_file_patch : List Hunk → String → Result ApplyError String
unfolding apply_hunks split_lines join_lines occurs_in
apply_file_patch hunks original =
    joined (apply_hunks (newline_of original) hunks 0 0 (split_lines original))
