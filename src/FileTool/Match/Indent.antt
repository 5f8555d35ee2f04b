-- ===== src/FileTool/Match/Indent.antt =====
-- kinetic_sdk/files/tool.py, `_reindent_fuzzy_replacement`: the indentation of a replacement mapped
-- onto that of the lines it replaces.
use Prim.Native.String.{◌++◌ as text_append}
use kinetic_sdk_agents.Prelude.{
  ℕ, zero, suc, ◌+◌, ◌*◌, ◌/◌, min, String, Bool, true, false, ◌&&◌, ◌||◌, not, Option, none, some,
  List, [], ◌∷◌, map, any, length, ◌==◌, str_eq, if◌then◌else◌,
}
use kinetic_sdk_agents.Prelude.Text.{text_length, text_drop, occurs_in}
use kinetic_sdk_agents.Prelude.Lines.{split_lines, join_lines}
use kinetic_sdk_agents.FileTool.Match.{indent, is_char}

-- `len(text.expandtabs(4))` of a text of spaces and tabs, from a column on.
unfoldable pub expanded_width : ℕ → String → ℕ
expanded_width column String.[] = column
expanded_width column (String.◌∷◌ c s) =
    expanded_width (if is_char "\t" c then (column / 4 + 1) * 4 else column + 1) s

-- `text * n`
unfoldable pub repeated : ℕ → String → String
repeated zero s = ""
repeated (suc n) s = text_append s (repeated n s)

abbrev pub some_text : String → Bool
some_text s = not (str_eq s "")

-- `min(widths)` of the indents that are not empty, or 0
unfoldable pub least_width : List String → ℕ
unfolding text_length
least_width [] = 0
least_width (t ∷ ts) =
    let rest = least_width ts in
    if str_eq t "" then rest else (if rest == 0 then text_length t else min (text_length t) rest)

-- One line's new indentation, where its depth changed; `none` where no width is known.
abbrev pub new_depth : Bool → List String → String → Option String
new_depth true targets new_indent = some (repeated (expanded_width 0 new_indent / 4) "\t")
new_depth false targets new_indent =
    if least_width targets == 0
    then none
    else some (repeated (least_width targets * (text_length new_indent / 4)) " ")

abbrev pub with_indent : String → String → Option String → Option String
with_indent new_line new_indent none = none
with_indent new_line new_indent (some to) =
    some (text_append to (text_drop (text_length new_indent) new_line))

abbrev pub reindented_line : Bool → List String → String → String → String → Option String
reindented_line tabs targets old_line new_line target =
    if str_eq (indent new_line) ""
    then some new_line
    else with_indent new_line (indent new_line) (
        if str_eq (indent new_line) (indent old_line)
        then some target
        else new_depth tabs targets (indent new_line))

abbrev pub cons_both : Option String → Option (List String) → Option (List String)
cons_both none ls = none
cons_both (some l) none = none
cons_both (some l) (some ls) = some (l ∷ ls)

-- `zip(old_lines, new_lines, target_indents)`
unfoldable pub reindented :
    Bool → List String → List String → List String → List String → Option (List String)
unfolding indent expanded_width repeated least_width text_length text_drop
reindented tabs targets (o ∷ os) (n ∷ ns) (t ∷ ts) =
    cons_both (reindented_line tabs targets o n t) (reindented tabs targets os ns ts)
reindented tabs targets os ns ts = some []

abbrev pub joined_lines : Option (List String) → Option String
joined_lines none = none
joined_lines (some ls) = some (join_lines ls)

-- By the indents of the matched lines: none at all, mixed ones, or as many lines on all sides.
abbrev pub by_targets : String → List String → List String → List String → Option String
by_targets new_str olds news targets =
    let tabs = any (occurs_in "\t") targets in
    if not (any some_text targets)
    then (if any some_text (map indent news) then none else some new_str)
    else (if (tabs && any (occurs_in " ") targets)
          || not (length news == length olds)
          || not (length targets == length olds)
        then none
        else joined_lines (reindented tabs targets olds news targets))

-- `None` where the indentation cannot be inferred.
unfoldable pub reindent_fuzzy_replacement : String → String → String → Option String
unfolding split_lines join_lines indent occurs_in reindented
reindent_fuzzy_replacement old_str new_str matched =
    if str_eq new_str ""
    then some new_str
    else by_targets new_str (split_lines old_str) (split_lines new_str)
        (map indent (split_lines matched))
