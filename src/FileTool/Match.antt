-- ===== src/FileTool/Match.antt =====
-- kinetic_sdk/files/tool.py, `_fuzzy_find_details` and `_preserve_newline_style`: where a text that
-- does not occur exactly may stand. `difflib`'s ratio of two lists of lines, compared with 0.6, is a
-- parameter.
pub mod Indent
use Prim.Native.Char.{Char}
use Prim.Native.String.{count}
use kinetic_sdk_agents.Prelude.{
  ℕ, zero, suc, ◌+◌, ◌-◌, ◌*◌, ◌/◌, max, String, Bool, true, false, ◌&&◌, ◌||◌, not, Option, none,
  some, List, [], ◌∷◌, ◌++◌, map, length, leb, ltb, str_eq, if◌then◌else◌,
}
use kinetic_sdk_agents.Prelude.Text.{text_length, occurs_in}
use kinetic_sdk_agents.Prelude.Lines.{split_lines, occurrences, replace}
use kinetic_sdk_agents.Patch.{strip_eol, ends_with_eol}

-- A line without its ending, and the offsets of its start, of the end of its body, and of its end.
pub record Line : Type 0 where
  pub body : String
  pub start : ℕ
  pub body_end : ℕ
  pub full_end : ℕ

unfoldable pub line_spans : ℕ → List String → List Line
unfolding text_length strip_eol
line_spans offset [] = []
line_spans offset (line ∷ ls) =
    record {
      body = strip_eol line;
      start = offset;
      body_end = offset + text_length (strip_eol line);
      full_end = offset + text_length line;
    }
    ∷ line_spans (offset + text_length line) ls

abbrev pub is_char : String → Char → Bool
is_char s c = str_eq (String.◌∷◌ c String.[]) s

-- `line.strip(" ")`
unfoldable pub strip_left : String → String
strip_left String.[] = ""
strip_left (String.◌∷◌ c s) =
    let rest = strip_left s in if is_char " " c then rest else String.◌∷◌ c s

unfoldable pub strip_right : String → String
strip_right String.[] = ""
strip_right (String.◌∷◌ c s) =
    let rest = strip_right s in if str_eq rest "" && is_char " " c then "" else String.◌∷◌ c rest

unfoldable pub trim_spaces : String → String
unfolding strip_left strip_right
trim_spaces line = strip_right (strip_left line)

abbrev pub is_indent : Char → Bool
is_indent c = is_char " " c || is_char "\t" c

-- `line[:index]` and `line[index:]` at the end of the leading spaces and tabs
unfoldable pub indent : String → String
indent String.[] = ""
indent (String.◌∷◌ c s) = let rest = indent s in if is_indent c then String.◌∷◌ c rest else ""

unfoldable pub unindented : String → String
unindented String.[] = ""
unindented (String.◌∷◌ c s) =
    let rest = unindented s in if is_indent c then rest else String.◌∷◌ c s

unfoldable pub normalise_indentation : String → String
unfolding indent unindented
normalise_indentation line =
    if str_eq (indent line) "" then unindented line else String.◌∷◌ " " (unindented line)

-- The last of the lines that these bodies match, in order.
abbrev pub or_last : Option Line → Line → Option Line
or_last none line = none
or_last (some last) line = some last

unfoldable pub match_here : (String → String) → List String → List Line → Option Line
match_here transform [] ls = none
match_here transform (o ∷ os) [] = none
match_here transform (o ∷ []) (line ∷ ls) =
    if str_eq (transform line.body) (transform o) then some line else none
match_here transform (o ∷ o' ∷ os) (line ∷ ls) =
    let rest = match_here transform (o' ∷ os) ls in
    if str_eq (transform line.body) (transform o) then rest else none

abbrev pub end_of : Bool → Line → ℕ
end_of include_final_newline last = if include_final_newline then last.full_end else last.body_end

abbrev pub with_match : Option Line → Bool → Line → List (ℕ × ℕ) → List (ℕ × ℕ)
with_match none newline first rest = rest
with_match (some last) newline first rest = (first.start, end_of newline last) ∷ rest

unfoldable pub contiguous_matches :
    (String → String) → Bool → List String → List Line → List (ℕ × ℕ)
unfolding match_here
contiguous_matches transform newline olds [] = []
contiguous_matches transform newline olds (line ∷ ls) =
    with_match (match_here transform olds (line ∷ ls)) newline line
      (contiguous_matches transform newline olds ls)

-- Both lists of `anchored_block`: the matches, and whether a candidate was rejected.
abbrev pub Anchored : Type 0
Anchored = List (ℕ × ℕ) × Bool

abbrev pub both : Anchored → Anchored → Anchored
both (xs, a) (ys, b) = (xs ++ ys, a || b)

abbrev pub weighed : Bool → ℕ × ℕ → Anchored → Anchored
weighed true span (spans, rejected) = (spans, true)
weighed false span (spans, rejected) = (span ∷ spans, rejected)

-- How a text was found; `unfound` keeps the candidates that were no match.
pub data Found : Type 0 where
  trimmed indentation anchored : ℕ × ℕ → Found
  anchored_rejected : Found
  unfound : List (ℕ × ℕ) → Found

abbrev pub last_of : String → List String → String
last_of o [] = o
last_of o (o' ∷ os) = last_of o' os

abbrev pub judged_anchors : Anchored → Found
judged_anchors (span ∷ [], rejected) = anchored span
judged_anchors ([], true) = anchored_rejected
judged_anchors ([], false) = unfound []
judged_anchors (span ∷ span' ∷ spans, rejected) = unfound (span ∷ span' ∷ spans)

abbrev pub or_next : (ℕ × ℕ → Found) → List (ℕ × ℕ) → Found → Found
or_next found [] other = other
or_next found (span ∷ []) other = found span
or_next found (span ∷ span' ∷ spans) other = other

module _ (similar : List String → List String → Bool) where
  -- `abs(len(candidate) - len(old)) > allowed_delta`, or a ratio that is too small
  unfoldable pub too_different : List String → List String → Bool
  too_different olds candidate =
      let allowed = max 2 (length olds / 5) in
      ltb allowed (length candidate - length olds)
      || ltb allowed (length olds - length candidate)
      || not (similar olds candidate)

  -- The last lines for one first line; `before` are the lines of the candidate so far.
  unfoldable pub last_anchors :
      Bool → List String → String → Line → List String → List Line → Anchored
  unfolding too_different
  last_anchors newline olds last first before [] = ([], false)
  last_anchors newline olds last first before (line ∷ ls) =
      let rest = last_anchors newline olds last first (before ++ line.body ∷ []) ls in
      if str_eq line.body last
      then weighed (too_different olds (before ++ line.body ∷ []))
          (first.start, end_of newline line) rest
      else rest

  unfoldable pub anchored_matches : Bool → List String → String → String → List Line → Anchored
  unfolding last_anchors
  anchored_matches newline olds head last [] = ([], false)
  anchored_matches newline olds head last (line ∷ ls) =
      let here = last_anchors newline olds last line (line.body ∷ []) ls in
      let rest = anchored_matches newline olds head last ls in
      if str_eq line.body head then both here rest else rest

  abbrev pub by_anchors : Bool → List String → List Line → Found
  by_anchors newline [] ls = unfound []
  by_anchors newline (o ∷ os) ls =
      if leb 3 (length (o ∷ os))
      then judged_anchors (anchored_matches newline (o ∷ os) o (last_of o os) ls)
      else unfound []

  abbrev pub tried_in_turn : Bool → List String → List Line → Found
  tried_in_turn newline [] ls = unfound []
  tried_in_turn newline (o ∷ os) ls =
      or_next trimmed (contiguous_matches trim_spaces newline (o ∷ os) ls) (
        or_next indentation (contiguous_matches normalise_indentation newline (o ∷ os) ls)
          (by_anchors newline (o ∷ os) ls))

  unfoldable pub fuzzy_find_details : String → String → Found
  unfolding line_spans split_lines ends_with_eol trim_spaces normalise_indentation
      contiguous_matches anchored_matches strip_eol
  fuzzy_find_details content old_str =
      tried_in_turn (ends_with_eol old_str) (map strip_eol (split_lines old_str))
        (line_spans 0 (split_lines content))

unfoldable pub replace_all : String → String → String → String
unfolding occurrences replace
replace_all p new s = replace p new (occurrences p 0 s) s

-- Line endings of an inserted text, where the file has "\r\n".
unfoldable pub preserve_newline_style : String → String → String
unfolding occurs_in replace_all
preserve_newline_style value reference =
    if occurs_in "\r\n" reference
    then replace_all "\n" "\r\n" (replace_all "\r" "\n" (replace_all "\r\n" "\n" value))
    else value
