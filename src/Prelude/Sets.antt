-- ===== src/Prelude/Sets.antt =====
-- Python's `set` of texts, as a list read by membership alone.
use Prim.Native.String.{String}
use mathlib.Core.Path.{◌≡◌, refl}
use mathlib.Core.Logic.{inl, inr}
use mathlib.Core.Bool.{Bool, true, false, ◌||◌, ◌&&◌}
use mathlib.Core.List.{List, [], ◌∷◌, ◌++◌}
use native.Mathlib.Omega.{arith}
use text.Mathlib.Text.{◌==◌ as str_eq}
use text.Mathlib.TextEquality.{eq_iff}
use kinetic_sdk_agents.Prelude.Tests.{Bool-cases}

-- `a in s`
unfoldable pub has : String → List String → Bool
has a [] = false
has a (x ∷ xs) = str_eq x a || has a xs

-- `s <= t`
unfoldable pub subset : List String → List String → Bool
subset [] t = true
subset (x ∷ s) t = has x t && subset s t

pub has-append : (a : String) (s t : List String) → has a (s ++ t) ≡ (has a s || has a t)
unfolding has
has-append a [] t = refl
has-append a (x ∷ s) t = ground (arith, has-append a s t)

pub subset→has :
    (a : String) (s t : List String) → subset s t ≡ true → has a s ≡ true → has a t ≡ true
unfolding has subset
subset→has a [] t h m = ground arith
subset→has a (x ∷ s) t h m = elim (Bool-cases (str_eq x a)) [
  | inl e ↦ ground (arith, eq_iff x a)
  | inr n ↦ ground (arith, subset→has a s t)
]

pub subset_intro :
    (s t : List String) → ((a : String) → has a s ≡ true → has a t ≡ true) → subset s t ≡ true
unfolding has subset
subset_intro [] t h = refl
subset_intro (x ∷ s) t h =
    ground (arith, h x, eq_iff x x, subset_intro s t (λ a m. h a (ground arith)))
