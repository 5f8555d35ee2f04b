-- ===== src/Prelude/Lines.antt =====
-- Python's line and search operations on texts: `splitlines`, `count` and `replace`.
use Prim.Native.Nat.{ℕ, zero, suc, ◌-◌, ◌≤◌}
use Prim.Native.Char.{Char, code}
use Prim.Native.String.{String, count, ◌++◌}
use mathlib.Core.Path.{◌≡◌, refl, sym, ap, subst, ◌∙◌}
use mathlib.Core.Bool.{Bool, true, false, ◌&&◌, ◌||◌, not}
use mathlib.Core.List.{List, [], ◌∷◌}
use native.Mathlib.Omega.{arith}
use text.Mathlib.Text.{◌==◌ as str_eq, starts_with}
use text.Mathlib.TextEquality.{starts_with_iff, eq_iff}
use text.Mathlib.TextLemmas.{nil-append, cons-append, append-nil, length-cons}
use kinetic_sdk_agents.Prelude.Text.{text_drop}
use kinetic_sdk_agents.Prelude.Tests.{if◌then◌else◌, leb, ◌==◌}

-- The characters that end a line for `splitlines`.
unfoldable pub is_line_break : ℕ → Bool
is_line_break c =
    (leb 10 c && leb c 13) || (leb 28 c && leb c 30) || c == 133 || c == 8232 || c == 8233

-- A character in front of the first line.
abbrev pub onto_first : Char → List String → List String
onto_first c [] = String.◌∷◌ c "" ∷ []
onto_first c (line ∷ ls) = String.◌∷◌ c line ∷ ls

-- `text.splitlines(keepends=True)`: "\r\n" is one ending.
unfoldable pub split_lines : String → List String
unfolding is_line_break
split_lines String.[] = []
split_lines (String.◌∷◌ c s) =
    let rest = split_lines s in
    if is_line_break (code c) && not (code c == 13 && starts_with s "\n")
    then String.◌∷◌ c "" ∷ rest
    else onto_first c rest

-- `"".join(lines)`
unfoldable pub join_lines : List String → String
join_lines [] = ""
join_lines (line ∷ ls) = line ++ join_lines ls

-- `text.count(p)`, where the first `skip` characters belong to an occurrence already counted.
unfoldable pub occurrences : String → ℕ → String → ℕ
occurrences p (suc k) String.[] = 0
occurrences p zero String.[] = if str_eq p "" then 1 else 0
occurrences p (suc k) (String.◌∷◌ c s) = occurrences p k s
occurrences p zero (String.◌∷◌ c s) =
    let behind = occurrences p (count p - 1) s in
    let later = occurrences p 0 s in if starts_with (String.◌∷◌ c s) p then suc behind else later

-- `text.replace(p, new, limit)`, with `skip` as above. An empty text is found before each character.
unfoldable pub replace_from : String → String → ℕ → ℕ → String → String
replace_from p new zero zero String.[] = ""
replace_from p new (suc n) zero String.[] = if str_eq p "" then new else ""
replace_from p new n (suc k) String.[] = ""
replace_from p new n (suc k) (String.◌∷◌ c s) = replace_from p new n k s
replace_from p new zero zero (String.◌∷◌ c s) = String.◌∷◌ c (replace_from p new zero zero s)
replace_from p new (suc n) zero (String.◌∷◌ c s) =
    let at_start = String.◌∷◌ c (replace_from p new n 0 s) in
    let behind = replace_from p new n (count p - 1) s in
    let later = String.◌∷◌ c (replace_from p new (suc n) 0 s) in
    if starts_with (String.◌∷◌ c s) p
    then new ++ (if str_eq p "" then at_start else behind)
    else later

unfoldable pub replace : String → String → ℕ → String → String
unfolding replace_from
replace p new limit s = replace_from p new limit 0 s

onto_first-join :
    (c : Char) (ls : List String) → join_lines (onto_first c ls) ≡ String.◌∷◌ c (join_lines ls)
unfolding join_lines
onto_first-join c [] = append-nil (String.◌∷◌ c "")
onto_first-join c (line ∷ ls) = cons-append c line (join_lines ls)

pub join_lines-split_lines : (s : String) → join_lines (split_lines s) ≡ s
unfolding join_lines split_lines
join_lines-split_lines String.[] = refl
join_lines-split_lines (String.◌∷◌ c s) =
    go (is_line_break (code c) && not (code c == 13 && starts_with s "\n"))
      (join_lines-split_lines s)
  where
    go :
        (b : Bool)
        → join_lines (split_lines s) ≡ s
        → join_lines (if b then String.◌∷◌ c "" ∷ split_lines s else onto_first c (split_lines s))
          ≡ String.◌∷◌ c s
    go true e =
        cons-append c "" (join_lines (split_lines s))
        ∙ ap (λ t. String.◌∷◌ c t) (nil-append (join_lines (split_lines s)) ∙ e)
    go false e = onto_first-join c (split_lines s) ∙ ap (λ t. String.◌∷◌ c t) e

-- One text with `n` occurrences of another replaced, none of them within another.
pub data Replaced (p new : String) : ℕ → String → String → Type 0 where
  same : (s : String) → Replaced p new 0 s s
  keep :
      {n : ℕ} {s t : String}
      → (c : Char) → Replaced p new n s t
      → Replaced p new n (String.◌∷◌ c s) (String.◌∷◌ c t)
  swap : {n : ℕ} {s t : String} → Replaced p new n s t → Replaced p new (suc n) (p ++ s) (new ++ t)

text_drop-append : (p u : String) → text_drop (count p) (p ++ u) ≡ u
unfolding text_drop
text_drop-append String.[] u = nil-append u
text_drop-append (String.◌∷◌ c p) u =
    rw (length-cons c p) (ap (text_drop (suc (count p))) (cons-append c p u) ∙ text_drop-append p u)

replace_from-zero : (p new : String) (k : ℕ) (s : String) → replace_from p new 0 k s ≡ text_drop k s
unfolding replace_from text_drop
replace_from-zero p new zero String.[] = refl
replace_from-zero p new (suc k) String.[] = refl
replace_from-zero p new (suc k) (String.◌∷◌ c s) = replace_from-zero p new k s
replace_from-zero p new zero (String.◌∷◌ c s) =
    ap (λ t. String.◌∷◌ c t) (replace_from-zero p new zero s)

-- What stands behind a prefix.
text_drop-prefix :
    (p u : String) (c : Char) (s : String)
    → str_eq p "" ≡ false
    → p ++ u ≡ String.◌∷◌ c s
    → text_drop (count p - 1) s ≡ u
unfolding text_drop
text_drop-prefix String.[] u c s h e = cc
text_drop-prefix (String.◌∷◌ d q) u c s h e =
    let m : count (String.◌∷◌ d q) - 1 ≡ count q = omega (arith, length-cons d q) in
    ap (λ k. text_drop k s) m
    ∙ ap (λ t. text_drop (suc (count q)) t) (sym e)
    ∙ ap (λ k. text_drop k (String.◌∷◌ d q ++ u)) (sym (length-cons d q))
    ∙ text_drop-append (String.◌∷◌ d q) u

module _ (p new : String) where
  at_end-Replaced :
      (n : ℕ) (b : Bool)
      → str_eq p "" ≡ b
      → suc n ≤ (if b then 1 else 0)
      → Replaced p new (suc n) "" (if b then new else "")
  at_end-Replaced zero true e h =
      let empty : p ≡ "" = (eq_iff p "").0 e in
      subst (λ t. Replaced p new 1 t new) (ap (λ x. x ++ "") empty ∙ nil-append "")
        (subst (λ t. Replaced p new 1 (p ++ "") t) (append-nil new) (swap (same "")))
  at_end-Replaced (suc n) true e h = let clash : ⊥ = omega arith in elim clash [ ]
  at_end-Replaced n false e h = elim h [ ]

  replace_from-Replaced :
      (n k : ℕ) (s : String)
      → n ≤ occurrences p k s
      → Replaced p new n (text_drop k s) (replace_from p new n k s)
  unfolding occurrences replace_from text_drop
  replace_from-Replaced zero k s h =
      subst (λ t. Replaced p new 0 (text_drop k s) t) (sym (replace_from-zero p new k s))
        (same (text_drop k s))
  replace_from-Replaced (suc n) zero String.[] h = at_end-Replaced n (str_eq p "") refl h
  replace_from-Replaced (suc n) (suc k) String.[] h = elim h [ ]
  replace_from-Replaced (suc n) (suc k) (String.◌∷◌ c s) h = replace_from-Replaced (suc n) k s h
  replace_from-Replaced (suc n) zero (String.◌∷◌ c s) h =
      go (starts_with (String.◌∷◌ c s) p) (str_eq p "") refl refl h
        (replace_from-Replaced (suc n) 0 s) (replace_from-Replaced n 0 s)
        (replace_from-Replaced n (count p - 1) s)
    where
      go :
          (b empty : Bool)
          → starts_with (String.◌∷◌ c s) p ≡ b
          → str_eq p "" ≡ empty
          → suc n ≤ (if b then suc (occurrences p (count p - 1) s) else occurrences p 0 s)
          → (suc n ≤ occurrences p 0 s → Replaced p new (suc n) s (replace_from p new (suc n) 0 s))
          → (n ≤ occurrences p 0 s → Replaced p new n s (replace_from p new n 0 s))
          → (n ≤ occurrences p (count p - 1) s
              → Replaced p new n (text_drop (count p - 1) s) (replace_from p new n (count p - 1) s))
          → Replaced p new (suc n) (String.◌∷◌ c s) (
              if b
              then new
                ++ (if empty
                    then String.◌∷◌ c (replace_from p new n 0 s)
                    else replace_from p new n (count p - 1) s)
              else String.◌∷◌ c (replace_from p new (suc n) 0 s))
      go false empty e e' l later here behind = keep c (later l)
      go true true e e' l later here behind =
          let is_empty : p ≡ "" = (eq_iff p "").0 e' in
          let none_ : count p - 1 ≡ 0 = ap (λ t. count t - 1) is_empty in
          subst (λ t. Replaced p new (suc n) t (new ++ String.◌∷◌ c (replace_from p new n 0 s)))
            (ap (λ t. t ++ String.◌∷◌ c s) is_empty ∙ nil-append (String.◌∷◌ c s))
            (swap (keep c (here (subst (λ k. n ≤ occurrences p k s) none_ (omega arith)))))
      go true false e e' l later here behind =
          let (u, split) = (starts_with_iff (String.◌∷◌ c s) p).0 e in
          subst (λ t. Replaced p new (suc n) t (new ++ replace_from p new n (count p - 1) s))
            (ap (λ t. p ++ t) (text_drop-prefix p u c s e' split) ∙ split)
            (swap (behind (omega arith)))

  -- As many replacements as there are occurrences, or fewer, are that many.
  pub replace-Replaced :
      (n : ℕ) (s : String) → n ≤ occurrences p 0 s → Replaced p new n s (replace p new n s)
  unfolding replace text_drop
  replace-Replaced n s h = replace_from-Replaced n 0 s h

count_test : occurrences "aa" 0 "aaaab" ≡ 2
unfolding occurrences
count_test = refl

replace_test : replace "aa" "x" 1 "caaaa" ≡ "cxaa"
unfolding replace
replace_test = refl

split_test : split_lines "a\r\nb\rc\n" ≡ "a\r\n" ∷ "b\r" ∷ "c\n" ∷ []
unfolding split_lines
split_test = refl
