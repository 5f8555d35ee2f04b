-- ===== src/Policy/Paths.antt =====
-- kinetic_sdk/security/policy.py, `_path_matches_prefix`, with the parts of the standard library's
-- `posixpath` that it uses: `normpath` and `isabs`.
pub mod Laws
use Prim.Native.Char.{Char}
use Prim.Native.String.{◌++◌ as str_append}
use kinetic_sdk_agents.Prelude.{
  ℕ, zero, suc, String, Bool, true, false, ◌&&◌, ◌||◌, not, List, [], ◌∷◌, if◌then◌else◌, str_eq,
  starts_with, ◌≡◌, refl,
}

abbrev pub is_slash : Char → Bool
is_slash c = str_eq (String.◌∷◌ c String.[]) "/"

-- `path.split("/")`: the first segment and the others.
unfoldable pub split : String → String × List String
split String.[] = ("", [])
split (String.◌∷◌ c s) =
    let (first, rest) = split s in
    if is_slash c then ("", first ∷ rest) else (String.◌∷◌ c first, rest)

-- One segment pushed on the normal form so far, which is kept with its last segment first.
abbrev pub pop : Bool → List String → List String
pop absolute [] = if absolute then [] else ".." ∷ []
pop absolute (last ∷ before) = if str_eq last ".." then ".." ∷ last ∷ before else before

unfoldable pub push_segment : Bool → List String → String → List String
push_segment absolute stack segment =
    if str_eq segment "" || str_eq segment "."
    then stack
    else (if str_eq segment ".." then pop absolute stack else segment ∷ stack)

unfoldable pub normal_segments : Bool → List String → List String → List String
unfolding push_segment
normal_segments absolute stack [] = stack
normal_segments absolute stack (segment ∷ segments) =
    normal_segments absolute (push_segment absolute stack segment) segments

-- `"/".join(...)` of segments that stand with the last first.
unfoldable pub join_back : String → List String → String
join_back tail [] = tail
join_back tail (segment ∷ before) = join_back (str_append segment (str_append "/" tail)) before

abbrev pub join : List String → String
join [] = ""
join (last ∷ before) = join_back last before

unfoldable pub isabs : String → Bool
isabs path = starts_with path "/"

-- Exactly two leading slashes stay two.
abbrev pub root_of : String → String
root_of path =
    if isabs path
    then (if starts_with path "//" && not (starts_with path "///") then "//" else "/")
    else ""

abbrev pub or_dot : String → String
or_dot path = if str_eq path "" then "." else path

abbrev pub segments_of : String → List String
segments_of path = let (first, rest) = split path in first ∷ rest

unfoldable pub normpath : String → String
unfolding isabs split normal_segments join_back
normpath path =
    or_dot (str_append (root_of path) (join (normal_segments (isabs path) [] (segments_of path))))

-- `path.lstrip("/")`
unfoldable pub strip_slashes : String → String
strip_slashes String.[] = ""
strip_slashes (String.◌∷◌ c s) =
    let stripped = strip_slashes s in if is_slash c then stripped else String.◌∷◌ c s

-- A path with two leading slashes is taken as one rooted at `/`.
abbrev pub one_root : String → String
one_root path = if starts_with path "//" then str_append "/" (strip_slashes path) else path

unfoldable pub logical : String → String
unfolding normpath strip_slashes
logical path = one_root (normpath path)

abbrev pub inside : String → String → Bool
inside path prefix =
    if str_eq prefix "/"
    then isabs path
    else if str_eq prefix "."
    then not (starts_with path "..")
    else str_eq path prefix || starts_with path (str_append prefix "/")

unfoldable pub path_matches_prefix : String → String → Bool
unfolding logical isabs
path_matches_prefix path prefix =
    if (isabs (logical path) && not (isabs (logical prefix)))
      || (not (isabs (logical path)) && isabs (logical prefix))
    then false
    else inside (logical path) (logical prefix)
