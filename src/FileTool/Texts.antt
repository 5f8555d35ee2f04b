-- ===== src/FileTool/Texts.antt =====
-- The texts that `str_replace` and `insert` of kinetic_sdk/files/tool.py write.
use Prim.Native.String.{◌++◌ as text_append}
use kinetic_sdk_agents.Prelude.{
  ℕ, suc, ◌≤◌, ◌≡◌, ◌⊎◌, String, Bool, true, false, ◌&&◌, not, str_eq, ◌++◌, take, length,
  if◌then◌else◌,
}
use kinetic_sdk_agents.Prelude.Lines.{occurrences, Replaced, split_lines, join_lines}
use kinetic_sdk_agents.FileTool.{matches_many, out_of_range}
use kinetic_sdk_agents.Patch.{ends_with_eol}
use kinetic_sdk_agents.FileTool.Match.{preserve_newline_style}
use kinetic_sdk_agents.FileTool.Actions.{Edit, rewrite, refuse}

-- A text that occurs: all of its occurrences are replaced, or it occurs several times and only one
-- was to be replaced, which is refused.
abbrev pub Exact : Bool → String → String → String → Edit → Type 0
Exact all old_str new_str content (rewrite t n) =
    (n ≡ occurrences old_str 0 content)
    × ((all ≡ true) ⊎ (n ≡ 1))
    × Replaced old_str (preserve_newline_style new_str content) n content t
Exact all old_str new_str content (refuse e) =
    (e ≡ matches_many) × (all ≡ false) × (2 ≤ occurrences old_str 0 content)

-- A text with a line ending behind it, unless it is empty or has one.
abbrev pub ended : String → String
ended s = if not (str_eq s "") && not (ends_with_eol s) then text_append s "\n" else s

-- The file is cut in two, and the new text stands between the parts; or the line is behind the last.
abbrev pub Inserted : ℕ → String → String → Edit → Type 0
Inserted line new_str content (refuse e) =
    (e ≡ out_of_range) × (suc (length (split_lines content)) ≤ line)
Inserted line new_str content (rewrite t n) =
    (before : String) × (after : String) × (before ≡ join_lines (take line (split_lines content)))
    × (content ≡ text_append before after)
    × (t ≡ text_append before (text_append (ended (preserve_newline_style new_str content)) after))
