-- ===== src/Patch/Laws.antt =====
-- Applying a diff gives the new file, and applying its reverse the old one again.
use kinetic_sdk_agents.Prelude.{
  ℕ, suc, ◌+◌, ◌-◌, ◌≡◌, refl, sym, ap, ap₂, subst, ◌∙◌, String, true, false, ◌||◌, List, [], ◌∷◌,
  ◌++◌, ltb, length, take, drop, str_eq_refl, ok, arith, length-append,
}
use mathlib.Core.List.{append_assoc}
use kinetic_sdk_agents.Prelude.Lines.{split_lines, join_lines-split_lines}
use kinetic_sdk_agents.Patch.{
  newline_of, joined, Hunk, HunkLine, kept, removed, added, expected, replacement, same_lines,
  matches_at, seek, base, splice, placed, apply_hunks, apply_file_patch,
}
use kinetic_sdk_agents.Patch.Diff.{
  first_line, olds, news, hunk_at, Diff, unchanged, change, EndAlike, AllEndAlike, swap, reverse,
}

drop-append : (xs ys : List String) → drop (length xs) (xs ++ ys) ≡ ys
drop-append [] ys = refl
drop-append (x ∷ xs) ys = drop-append xs ys

take-append : (xs ys : List String) → take (length xs) (xs ++ ys) ≡ xs
take-append [] ys = refl
take-append (x ∷ xs) ys = ap (λ l. x ∷ l) (take-append xs ys)

same_lines_refl : (xs : List String) → same_lines xs xs ≡ true
unfolding same_lines
same_lines_refl [] = refl
same_lines_refl (x ∷ xs) = rw (str_eq_refl x, same_lines_refl xs) refl

drop-append_two :
    (pre mid post : List String) → drop (length pre + length mid) (pre ++ (mid ++ post)) ≡ post
drop-append_two [] mid post =
    let e : 0 + length mid ≡ length mid = omega arith in rw e (drop-append mid post)
drop-append_two (x ∷ pre) mid post =
    let e : suc (length pre) + length mid ≡ suc (length pre + length mid) = omega arith in
    rw e (drop-append_two pre mid post)

seek-exact :
    (pre mid post : List String) → seek (pre ++ (mid ++ post)) mid (length pre) ≡ ok (length pre)
unfolding seek
seek-exact pre mid post =
    let found : matches_at (pre ++ (mid ++ post)) mid (length pre) ≡ true =
      rw (drop-append pre (mid ++ post), take-append mid post) (same_lines_refl mid) in
    rw found refl

splice-exact :
    (pre mid post new : List String)
    → splice (pre ++ (mid ++ post)) (length pre) (length mid) new ≡ pre ++ (new ++ post)
splice-exact pre mid post new =
    rw (take-append pre (mid ++ post), drop-append_two pre mid post) refl

expected-olds :
    (newline : String) (ls : List HunkLine) → EndAlike newline ls → expected newline ls ≡ olds ls
expected-olds newline [] h = refl
expected-olds newline (kept line ∷ ls) (e, h) = ap₂ ◌∷◌ e (expected-olds newline ls h)
expected-olds newline (removed line ∷ ls) (e, h) = ap₂ ◌∷◌ e (expected-olds newline ls h)
expected-olds newline (added line ∷ ls) (e, h) = expected-olds newline ls h

replacement-news :
    (newline : String) (ls : List HunkLine) → EndAlike newline ls → replacement newline ls ≡ news ls
replacement-news newline [] h = refl
replacement-news newline (kept line ∷ ls) (e, h) = ap₂ ◌∷◌ e (replacement-news newline ls h)
replacement-news newline (removed line ∷ ls) (e, h) = replacement-news newline ls h
replacement-news newline (added line ∷ ls) (e, h) = ap₂ ◌∷◌ e (replacement-news newline ls h)

-- One hunk whose lines stand behind `pre`.
apply_hunks-cons :
    (newline : String) (h : Hunk) (hs : List Hunk) (plus minus : ℕ) (pre post : List String)
    → EndAlike newline h.lines
    → h.old_start + plus ≡ length pre + (base h.old_count + minus)
    → apply_hunks newline (h ∷ hs) plus minus (pre ++ (olds h.lines ++ post))
      ≡ apply_hunks newline hs
          (length pre + length (news h.lines) + base h.old_count)
          (h.old_start + length (olds h.lines))
          (pre ++ (news h.lines ++ post))
unfolding apply_hunks
apply_hunks-cons newline h hs plus minus pre post alike at =
    let start : (h.old_start + plus) - (base h.old_count + minus) ≡ length pre =
      omega (arith, at) in
    let inside : (ltb (h.old_start + plus) (base h.old_count + minus)
          || ltb (length (pre ++ (olds h.lines ++ post))) (length pre))
        ≡ false =
      ground (arith, at, length-append pre (olds h.lines ++ post)) in
    let found : seek (pre ++ (olds h.lines ++ post)) (expected newline h.lines) (length pre)
        ≡ ok (length pre) =
      ap (λ w. seek (pre ++ (olds h.lines ++ post)) w (length pre))
        (expected-olds newline h.lines alike)
      ∙ seek-exact pre (olds h.lines) post in
    let next : apply_hunks newline hs
          (length pre + length (replacement newline h.lines) + base h.old_count)
          (h.old_start + length (expected newline h.lines))
          (splice (pre ++ (olds h.lines ++ post)) (length pre) (length (expected newline h.lines))
            (replacement newline h.lines))
        ≡ apply_hunks newline hs (length pre + length (news h.lines) + base h.old_count)
            (h.old_start + length (olds h.lines)) (pre ++ (news h.lines ++ post)) =
      by_lines (expected newline h.lines) (replacement newline h.lines)
        (expected-olds newline h.lines alike) (replacement-news newline h.lines alike) in
    rw (start, inside)
      (ap (λ r. placed newline h (pre ++ (olds h.lines ++ post)) r (apply_hunks newline hs)) found
        ∙ next)
  where
    by_lines :
        (want new : List String)
        → want ≡ olds h.lines
        → new ≡ news h.lines
        → apply_hunks newline hs
            (length pre + length new + base h.old_count)
            (h.old_start + length want)
            (splice (pre ++ (olds h.lines ++ post)) (length pre) (length want) new)
          ≡ apply_hunks newline hs
              (length pre + length (news h.lines) + base h.old_count)
              (h.old_start + length (olds h.lines))
              (pre ++ (news h.lines ++ post))
    by_lines want new e f =
        ap₂
          (λ w n.
            apply_hunks newline hs (length pre + length n + base h.old_count)
              (h.old_start + length w)
              (splice (pre ++ (olds h.lines ++ post)) (length pre) (length w) n))
          e f
        ∙ ap
            (apply_hunks newline hs (length pre + length (news h.lines) + base h.old_count)
              (h.old_start + length (olds h.lines)))
            (splice-exact pre (olds h.lines) post (news h.lines))

-- Behind any lines that are already new.
apply_hunks-Diff :
    (newline : String) (i j : ℕ) (old new : List String) (hs : List Hunk) (ready : List String)
    (plus minus : ℕ)
    → Diff i j old new hs
    → AllEndAlike newline hs
    → length ready + minus ≡ i + plus
    → apply_hunks newline hs plus minus (ready ++ old) ≡ ok (ready ++ new)
unfolding apply_hunks
apply_hunks-Diff newline i j _ _ _ ready plus minus (unchanged _ _ rest) alike at = refl
apply_hunks-Diff newline i j _ _ _ ready plus minus (change _ _ skip ls old new hs d) (here, later)
      at =
    ap (apply_hunks newline (hunk_at (i + length skip) (j + length skip) ls ∷ hs) plus minus)
      (sym (append_assoc ready skip (olds ls ++ old)))
    ∙ (apply_hunks-cons newline (hunk_at (i + length skip) (j + length skip) ls) hs plus minus
          (ready ++ skip) old here (omega (arith, at, length-append ready skip))
        ∙ (ap (apply_hunks newline hs _ _) (sym (append_assoc (ready ++ skip) (news ls) old))
            ∙ (apply_hunks-Diff newline _ _ old new hs ((ready ++ skip) ++ news ls) _ _ d later (
                  omega
                    (arith, at, length-append ready skip, length-append (ready ++ skip) (news ls)))
                ∙ ap ok (
                    append_assoc (ready ++ skip) (news ls) new
                    ∙ append_assoc ready skip (news ls ++ new)))))

olds-swap : (ls : List HunkLine) → olds (swap ls) ≡ news ls
olds-swap [] = refl
olds-swap (kept line ∷ ls) = ap (λ l. line ∷ l) (olds-swap ls)
olds-swap (removed line ∷ ls) = olds-swap ls
olds-swap (added line ∷ ls) = ap (λ l. line ∷ l) (olds-swap ls)

news-swap : (ls : List HunkLine) → news (swap ls) ≡ olds ls
news-swap [] = refl
news-swap (kept line ∷ ls) = ap (λ l. line ∷ l) (news-swap ls)
news-swap (removed line ∷ ls) = ap (λ l. line ∷ l) (news-swap ls)
news-swap (added line ∷ ls) = news-swap ls

swap-EndAlike :
    (newline : String) (ls : List HunkLine) → EndAlike newline ls → EndAlike newline (swap ls)
swap-EndAlike newline [] h = tt
swap-EndAlike newline (kept line ∷ ls) (e, h) = (e, swap-EndAlike newline ls h)
swap-EndAlike newline (removed line ∷ ls) (e, h) = (e, swap-EndAlike newline ls h)
swap-EndAlike newline (added line ∷ ls) (e, h) = (e, swap-EndAlike newline ls h)

reverse-AllEndAlike :
    (newline : String) (hs : List Hunk) → AllEndAlike newline hs → AllEndAlike newline (reverse hs)
reverse-AllEndAlike newline [] h = tt
reverse-AllEndAlike newline (x ∷ hs) (e, h) =
    (swap-EndAlike newline x.lines e, reverse-AllEndAlike newline hs h)

-- `change` for the lines that a swapped hunk takes out and puts in.
change_lines :
    (i j : ℕ) (skip : List String) (ls : List HunkLine) (out in_ old new : List String)
    (hs : List Hunk)
    → olds ls ≡ out
    → news ls ≡ in_
    → Diff (i + length skip + length out) (j + length skip + length in_) old new hs
    → Diff i j (skip ++ (out ++ old)) (skip ++ (in_ ++ new)) (
        record {
          old_start = i + length skip + first_line (length out);
          old_count = length out;
          new_start = j + length skip + first_line (length in_);
          new_count = length in_;
          lines = ls;
        }
        ∷ hs)
change_lines i j skip ls out in_ old new hs e f =
    subst (λ o. Change o in_) e (subst (λ n. Change (olds ls) n) f (change i j skip ls old new hs))
  where
    Change : List String → List String → Type 0
    Change o n =
        Diff (i + length skip + length o) (j + length skip + length n) old new hs
        → Diff i j (skip ++ (o ++ old)) (skip ++ (n ++ new)) (
            record {
              old_start = i + length skip + first_line (length o);
              old_count = length o;
              new_start = j + length skip + first_line (length n);
              new_count = length n;
              lines = ls;
            }
            ∷ hs)

Diff-reverse :
    (i j : ℕ) (old new : List String) (hs : List Hunk)
    → Diff i j old new hs
    → Diff j i new old (reverse hs)
Diff-reverse i j _ _ _ (unchanged _ _ rest) = unchanged j i rest
Diff-reverse i j _ _ _ (change _ _ skip ls old new hs d) =
    change_lines j i skip (swap ls) (news ls) (olds ls) new old (reverse hs) (olds-swap ls)
      (news-swap ls) (Diff-reverse _ _ old new hs d)

-- If two texts differ by some hunks whose lines end as the lines of both texts do, then applying the
-- hunks to the one gives exactly the other, and applying the reversed hunks to that gives the first
-- text back. The line ending is taken from the text that is patched.
pub apply_file_patch-Diff :
    (old new : String) (hs : List Hunk)
    → Diff 0 0 (split_lines old) (split_lines new) hs
    → AllEndAlike (newline_of old) hs
    → AllEndAlike (newline_of new) hs
    → (apply_file_patch hs old ≡ ok new) × (apply_file_patch (reverse hs) new ≡ ok old)
unfolding apply_file_patch
apply_file_patch-Diff old new hs d alike alike' = (
  ap joined (
        apply_hunks-Diff (newline_of old) 0 0 (split_lines old) (split_lines new) hs [] 0 0 d alike
          refl)
      ∙ ap (λ t. ok t) (join_lines-split_lines new),
  ap joined (
        apply_hunks-Diff (newline_of new) 0 0 (split_lines new) (split_lines old) (reverse hs) [] 0
          0 (Diff-reverse 0 0 (split_lines old) (split_lines new) hs d)
          (reverse-AllEndAlike (newline_of new) hs alike') refl)
      ∙ ap (λ t. ok t) (join_lines-split_lines old),
)
