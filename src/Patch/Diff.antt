-- ===== src/Patch/Diff.antt =====
-- What a list of hunks means: two files that agree but for the hunks.
use kinetic_sdk_agents.Prelude.{ℕ, zero, suc, ◌+◌, ◌≡◌, String, List, [], ◌∷◌, ◌++◌, length}
use kinetic_sdk_agents.Patch.{Hunk, HunkLine, kept, removed, added, file_newline}

-- The lines that a hunk takes out of the old file and those it puts in the new one.
abbrev pub olds : List HunkLine → List String
olds [] = []
olds (kept line ∷ ls) = line ∷ olds ls
olds (removed line ∷ ls) = line ∷ olds ls
olds (added line ∷ ls) = olds ls

abbrev pub news : List HunkLine → List String
news [] = []
news (kept line ∷ ls) = line ∷ news ls
news (removed line ∷ ls) = news ls
news (added line ∷ ls) = line ∷ news ls

-- A side with lines is numbered by its first one, and an empty one by the line before it.
abbrev pub first_line : ℕ → ℕ
first_line zero = 0
first_line (suc count) = 1

-- The hunk of these lines behind `i` lines of the old file and `j` of the new one.
abbrev pub hunk_at : ℕ → ℕ → List HunkLine → Hunk
hunk_at i j ls = record {
  old_start = i + first_line (length (olds ls));
  old_count = length (olds ls);
  new_start = j + first_line (length (news ls));
  new_count = length (news ls);
  lines = ls;
}

-- From line `i` of the old file and line `j` of the new one on, the files differ by these hunks.
pub data Diff : ℕ → ℕ → List String → List String → List Hunk → Type 0 where
  unchanged : (i j : ℕ) (rest : List String) → Diff i j rest rest []
  change :
      (i j : ℕ) (skip : List String) (ls : List HunkLine) (old new : List String) (hs : List Hunk)
      → Diff (i + length skip + length (olds ls)) (j + length skip + length (news ls)) old new hs
      → Diff i j
          (skip ++ (olds ls ++ old))
          (skip ++ (news ls ++ new))
          (hunk_at (i + length skip) (j + length skip) ls ∷ hs)

-- Every line of the hunks ends as the file's lines do, or has no ending.
abbrev pub EndAlike : String → List HunkLine → Type 0
EndAlike newline [] = Unit
EndAlike newline (kept line ∷ ls) = (file_newline newline line ≡ line) × EndAlike newline ls
EndAlike newline (removed line ∷ ls) = (file_newline newline line ≡ line) × EndAlike newline ls
EndAlike newline (added line ∷ ls) = (file_newline newline line ≡ line) × EndAlike newline ls

abbrev pub AllEndAlike : String → List Hunk → Type 0
AllEndAlike newline [] = Unit
AllEndAlike newline (h ∷ hs) = EndAlike newline h.lines × AllEndAlike newline hs

-- The hunks that undo these.
abbrev pub swap : List HunkLine → List HunkLine
swap [] = []
swap (kept line ∷ ls) = kept line ∷ swap ls
swap (removed line ∷ ls) = added line ∷ swap ls
swap (added line ∷ ls) = removed line ∷ swap ls

abbrev pub reverse : List Hunk → List Hunk
reverse [] = []
reverse (h ∷ hs) =
    record {
      old_start = h.new_start;
      old_count = h.new_count;
      new_start = h.old_start;
      new_count = h.old_count;
      lines = swap h.lines;
    }
    ∷ reverse hs
