-- ===== src/Context/Trim/Size.antt =====
-- How long a trimmed tool result is.
use Prim.Native.String.{◌++◌ as str_append}
use text.Mathlib.TextLemmas.{nil-append, cons-append}
use kinetic_sdk_agents.Prelude.{
  ℕ, zero, suc, sym, ◌+◌, ◌-◌, ◌*◌, ◌/◌, ◌≤◌, ◌<◌, ◌≡◌, refl, ◌∙◌, ap, Bool, false, Option, none,
  some, String, arith, leb,
}
use kinetic_sdk_agents.Prelude.Int.{ℤ, sub_ℕ}
use kinetic_sdk_agents.Prelude.Text.{
  text_length, text_take, text_drop, text_length-drop, text_last, decimal, text_length-append,
  text_length-take, text_length-last,
}
use kinetic_sdk_agents.Conversation.{tool_result}
use kinetic_sdk_agents.Context.{Manager}
use kinetic_sdk_agents.Context.Trim.{truncation_marker, head_tail, truncate_block}

-- With a positive limit, the head/tail cut of a longer text is the limit plus the marker long.
text_length-head_tail :
    (s : String) (limit : ℕ)
    → 1 ≤ limit
    → limit < text_length s
    → text_length (head_tail s limit)
      ≡ limit + text_length (truncation_marker (text_length s - limit))
unfolding head_tail
text_length-head_tail s limit h over =
    text_length-append (text_take head s)
      (str_append (truncation_marker omitted) (text_last tail s))
    ∙ ap (λ n. text_length (text_take head s) + n)
        (text_length-append (truncation_marker omitted) (text_last tail s))
    ∙ rw e (omega (arith, text_length-take head s, text_length-last tail s (omega arith)))
  where
    head : ℕ
    head = limit * 2 / 3

    tail : ℕ
    tail = limit - head

    omitted : ℕ
    omitted = text_length s - head - tail

    e : text_length s - limit ≡ omitted
    e = omega arith

marker_min : (n : ℕ) → 41 ≤ text_length (truncation_marker n)
unfolding truncation_marker text_length
marker_min n = omega (
  arith,
  text_length-append "\n[... " (str_append (decimal n) " ký tự ở giữa đã được cắt bớt ...]\n"),
  text_length-append (decimal n) " ký tự ở giữa đã được cắt bớt ...]\n",
  before,
  after,
)
  where
    before : text_length "\n[... " ≡ 6
    before = refl

    after : text_length " ký tự ở giữa đã được cắt bớt ...]\n" ≡ 35
    after = refl

text_take-append-drop : (n : ℕ) (s : String) → str_append (text_take n s) (text_drop n s) ≡ s
unfolding text_take text_drop
text_take-append-drop zero s = nil-append s
text_take-append-drop (suc n) String.[] = nil-append ""
text_take-append-drop (suc n) (String.◌∷◌ c s) =
    cons-append c (text_take n s) (text_drop n s)
    ∙ ap (λ t. String.◌∷◌ c t) (text_take-append-drop n s)

text_drop-empty : (n : ℕ) → text_drop n "" ≡ ""
unfolding text_drop
text_drop-empty zero = refl
text_drop-empty (suc n) = refl

text_drop-drop : (n m : ℕ) (s : String) → text_drop m (text_drop n s) ≡ text_drop (n + m) s
unfolding text_drop
text_drop-drop zero m s = ap (λ k. text_drop k s) (omega arith)
text_drop-drop (suc n) m String.[] = text_drop-empty m ∙ sym (text_drop-empty (suc n + m))
text_drop-drop (suc n) m (String.◌∷◌ c s) =
    text_drop-drop n m s ∙ ap (λ k. text_drop k (String.◌∷◌ c s)) (suc_sum n m)
  where
    suc_sum : (n m : ℕ) → suc (n + m) ≡ suc n + m
    suc_sum n m = omega arith

text_last-drop : (n : ℕ) (s : String) → 1 ≤ n → text_last n s ≡ text_drop (text_length s - n) s
unfolding text_last text_length
text_last-drop zero s h = let clash : ⊥ = omega arith in elim clash [ ]
text_last-drop (suc n) s h = refl

-- A text of which the middle is cut out: two thirds of a limit are kept in front, and the rest of the
-- limit behind.
abbrev pub Cut : String → ℕ → String → Type 0
Cut body limit new =
    (front : String) × (middle : String) × (back : String) × (body
      ≡ str_append front (str_append middle back))
    × (text_length front ≡ limit * 2 / 3)
    × (text_length front + text_length back ≡ limit)
    × (new ≡ str_append front (str_append (truncation_marker (text_length middle)) back))

-- Without a compressor, a tool result longer than a positive limit comes back with the same id and
-- error flag; the middle of its text is cut out, with a marker of its length in the place; and the
-- note is the difference of the two lengths. Where the text was at most 40 characters over the limit,
-- the new one is longer.
pub truncate_block_size :
    (m : Manager) (limit : ℕ) (id body : String) (e : Bool) (o : Option ℤ)
    → m.tool_output_compressor ≡ none
    → 1 ≤ limit
    → limit < text_length body
    → (new : String) × (truncate_block m limit (tool_result id body e o)
        ≡ tool_result id new e (some (sub_ℕ (text_length body) (text_length new))))
      × Cut body limit new
      × (text_length body ≤ limit + 40 → text_length body < text_length new)
unfolding truncate_block head_tail
truncate_block_size m limit id body e o plain_cut h over = (
  head_tail body limit,
  cut,
  parts,
  λ near. omega (arith, size, marker_min (text_length body - limit)),
)
  where
    size :
        text_length (head_tail body limit)
        ≡ limit + text_length (truncation_marker (text_length body - limit))
    size = text_length-head_tail body limit h over

    is_over : leb (text_length body) limit ≡ false
    is_over = ground arith

    cut :
        truncate_block m limit (tool_result id body e o)
        ≡ tool_result id
            (head_tail body limit)
            e
            (some (sub_ℕ (text_length body) (text_length (head_tail body limit))))
    cut = rw is_over (rw plain_cut refl)

    head : ℕ
    head = limit * 2 / 3

    omitted : ℕ
    omitted = text_length body - head - (limit - head)

    middle : String
    middle = text_take omitted (text_drop head body)

    back : text_last (limit - head) body ≡ text_drop omitted (text_drop head body)
    back =
        text_last-drop (limit - head) body (omega arith)
        ∙ ap (λ k. text_drop k body) (omega arith)
        ∙ sym (text_drop-drop head omitted body)

    middle_size : text_length middle ≡ omitted
    middle_size =
        omega (arith, text_length-take omitted (text_drop head body), text_length-drop head body)

    parts : Cut body limit (head_tail body limit)
    parts = (
      text_take head body,
      middle,
      text_last (limit - head) body,
      sym (text_take-append-drop head body)
          ∙ ap (str_append (text_take head body)) (
              sym (text_take-append-drop omitted (text_drop head body))
              ∙ ap (str_append middle) (sym back)),
      omega (arith, text_length-take head body),
      omega (arith, text_length-take head body, text_length-last (limit - head) body (omega arith)),
      ap
          (λ n.
            str_append (text_take head body)
              (str_append (truncation_marker n) (text_last (limit - head) body)))
          (sym middle_size),
    )
