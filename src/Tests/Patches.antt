-- ===== src/Tests/Patches.antt =====
-- Runs of kinetic_sdk/files/patch.py.
use kinetic_sdk_agents.Prelude.{
  ℕ, zero, suc, ◌+◌, ◌≡◌, refl, String, Bool, true, false, some, List, [], ◌∷◌, ok, err,
}
use kinetic_sdk_agents.Prelude.Dict.{Dict, get}
use kinetic_sdk_agents.Prelude.Lines.{split_lines}
use kinetic_sdk_agents.Prelude.Text.{occurs_in}
use kinetic_sdk_agents.Patch.{
  newline_of, Hunk, HunkLine, removed, added, many_matches, file_newline, apply_file_patch,
}
use kinetic_sdk_agents.Patch.Diff.{Diff, unchanged, change, AllEndAlike, reverse, hunk_at}
use kinetic_sdk_agents.Patch.Laws.{apply_file_patch-Diff}
use kinetic_sdk_agents.Patch.Execute.{FilePatch, Workspace, State, rolled_back, execute}
use kinetic_sdk_agents.Patch.Execute.Atomic.{Atomic}

abbrev old_text : String
old_text = "a\nb\nc\n"

abbrev new_text : String
new_text = "a\nx\ny\nc\n"

abbrev change_b : List HunkLine
change_b = removed "b\n" ∷ added "x\n" ∷ added "y\n" ∷ []

abbrev hunks : List Hunk
hunks = hunk_at 1 1 change_b ∷ []

old-new-Diff : Diff 0 0 (split_lines old_text) (split_lines new_text) hunks
unfolding split_lines
old-new-Diff =
    change 0 0 ("a\n" ∷ []) change_b ("c\n" ∷ []) ("c\n" ∷ []) [] (unchanged 2 3 ("c\n" ∷ []))

hunks-AllEndAlike :
    AllEndAlike (newline_of old_text) hunks × AllEndAlike (newline_of new_text) hunks
unfolding file_newline occurs_in
hunks-AllEndAlike = (((refl, (refl, (refl, tt))), tt), ((refl, (refl, (refl, tt))), tt))

apply_file_patch-Diff_example :
    (apply_file_patch hunks old_text ≡ ok new_text)
    × (apply_file_patch (reverse hunks) new_text ≡ ok old_text)
apply_file_patch-Diff_example =
    apply_file_patch-Diff old_text new_text hunks old-new-Diff hunks-AllEndAlike.0
      hunks-AllEndAlike.1

-- A patch that takes the last "\r\n" out of a text is not undone by its reverse.
last_ending :
    (apply_file_patch (hunk_at 0 0 (removed "a\r\n" ∷ added "b" ∷ []) ∷ []) "a\r\n" ≡ ok "b")
    × (apply_file_patch (reverse (hunk_at 0 0 (removed "a\r\n" ∷ added "b" ∷ []) ∷ [])) "b"
        ≡ ok "a\n")
unfolding apply_file_patch
last_ending = (refl, refl)

-- A hunk that stands elsewhere is found if only one place nearby fits.
moved_hunk : apply_file_patch (hunk_at 0 0 change_b ∷ []) old_text ≡ ok new_text
unfolding apply_file_patch
moved_hunk = refl

ambiguous_hunk : apply_file_patch (hunk_at 0 0 change_b ∷ []) "a\nb\nb\n" ≡ err many_matches
unfolding apply_file_patch
ambiguous_hunk = refl

-- Each file has one line, and the third write is refused.
abbrev workspace : Workspace ℕ
workspace = record {
  resolves = λ path. true;
  refuses = λ path n. (third n, n + 1);
  release_raises = λ path n. (false, n);
}
  where
    third : ℕ → Bool
    third zero = false
    third (suc zero) = false
    third (suc (suc zero)) = true
    third (suc (suc (suc n))) = false

abbrev files : Dict String
files = ("p", "1\n") ∷ ("q", "1\n") ∷ ("r", "1\n") ∷ []

abbrev state : State ℕ
state = record { files = files; undo = []; world = 0 }

abbrev one_to_two : String → FilePatch
one_to_two path = record {
  path = path;
  hunks = hunk_at 0 0 (removed "1\n" ∷ added "2\n" ∷ []) ∷ [];
}

abbrev patches : List FilePatch
patches = one_to_two "p" ∷ one_to_two "q" ∷ one_to_two "r" ∷ []

refused_patch :
    ((execute workspace patches state).1 ≡ rolled_back [])
    × ((execute workspace patches state).0.files ≡ files)
unfolding execute
refused_patch = (refl, refl)

-- A lease that cannot be released behind the first write: the rollback leaves that file changed.
abbrev expiring : Workspace ℕ
expiring = record {
  resolves = λ path. true;
  refuses = λ path n. (false, n);
  release_raises = λ path n. (true, n);
}

late_patch :
    ((execute expiring patches state).1 ≡ rolled_back [])
    × (get "p" (execute expiring patches state).0.files ≡ some "2\n")
unfolding execute
late_patch = (refl, refl)
