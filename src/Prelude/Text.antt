-- ===== src/Prelude/Text.antt =====
-- Python text operations that the program uses, on the native text: its length in characters,
-- slices, and decimal numerals. `slice s n none` and the like are not needed.
use Prim.Native.Nat.{ℕ, zero, suc, ◌+◌, ◌-◌, ◌/◌, ◌%◌, ◌≤◌, min}
use Prim.Native.String.{String, count, ◌++◌}
use mathlib.Core.Path.{◌≡◌, refl}
use native.Mathlib.Omega.{arith}
use text.Mathlib.Text.{◌==◌ as str_eq, starts_with}
use mathlib.Core.Bool.{Bool, true}
use text.Mathlib.TextLemmas.{length-nil, length-cons, length-append}
use kinetic_sdk_agents.Prelude.Tests.{if◌then◌else◌, ltb}

-- `len(s)`
unfoldable pub text_length : String → ℕ
text_length s = count s

-- `s[:n]`
unfoldable pub text_take : ℕ → String → String
text_take zero s = String.[]
text_take (suc n) String.[] = String.[]
text_take (suc n) (String.◌∷◌ c s) = String.◌∷◌ c (text_take n s)

-- `s[n:]`
unfoldable pub text_drop : ℕ → String → String
text_drop zero s = s
text_drop (suc n) String.[] = String.[]
text_drop (suc n) (String.◌∷◌ c s) = text_drop n s

-- `s[-n:]`: the whole text at 0, since -0 is 0.
unfoldable pub text_last : ℕ → String → String
unfolding text_length text_drop
text_last zero s = s
text_last (suc n) s = text_drop (text_length s - suc n) s

-- `pattern in text`
unfoldable pub occurs_in : String → String → Bool
occurs_in p String.[] = str_eq p ""
occurs_in p (String.◌∷◌ c s) =
    let later = occurs_in p s in if starts_with (String.◌∷◌ c s) p then true else later

unfoldable pub digit : ℕ → String
digit zero = "0"
digit (suc zero) = "1"
digit (suc (suc zero)) = "2"
digit (suc (suc (suc zero))) = "3"
digit (suc (suc (suc (suc zero)))) = "4"
digit (suc (suc (suc (suc (suc zero))))) = "5"
digit (suc (suc (suc (suc (suc (suc zero)))))) = "6"
digit (suc (suc (suc (suc (suc (suc (suc zero))))))) = "7"
digit (suc (suc (suc (suc (suc (suc (suc (suc zero)))))))) = "8"
digit (suc (suc (suc (suc (suc (suc (suc (suc (suc n))))))))) = "9"

-- `str(n)`, with fuel for its digits: `n + 1` rounds are enough, since each divides by ten.
unfoldable pub digits : ℕ → ℕ → String
unfolding digit
digits zero n = ""
digits (suc fuel) n =
    let more = digits fuel (n / 10) in if ltb n 10 then digit n else more ++ digit (n % 10)

unfoldable pub decimal : ℕ → String
unfolding digits
decimal n = digits (suc n) n

pub text_length-append : (s t : String) → text_length (s ++ t) ≡ text_length s + text_length t
unfolding text_length
text_length-append s t = length-append s t

pub text_length-take : (n : ℕ) (s : String) → text_length (text_take n s) ≡ min n (text_length s)
unfolding text_length text_take
text_length-take zero s = omega (arith, length-nil)
text_length-take (suc n) String.[] = omega (arith, length-nil)
text_length-take (suc n) (String.◌∷◌ c s) =
    omega (arith, length-cons c s, length-cons c (text_take n s), text_length-take n s)

pub text_length-drop : (n : ℕ) (s : String) → text_length (text_drop n s) ≡ text_length s - n
unfolding text_length text_drop
text_length-drop zero s = omega arith
text_length-drop (suc n) String.[] = omega (arith, length-nil)
text_length-drop (suc n) (String.◌∷◌ c s) = omega (arith, length-cons c s, text_length-drop n s)

pub text_length-last :
    (n : ℕ) (s : String) → 1 ≤ n → text_length (text_last n s) ≡ min n (text_length s)
unfolding text_last
text_length-last zero s h = elim h [ ]
text_length-last (suc n) s h = omega (arith, text_length-drop (count s - suc n) s)

decimal_test : decimal 1205 ≡ "1205"
unfolding decimal
decimal_test = refl
