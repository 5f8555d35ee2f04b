-- ===== src/Prelude/Json.antt =====
-- JSON values, as `json.loads` gives them. A number is kept as its literal, and an object keeps
-- the order of its keys.
use Prim.Native.String.{String}
use mathlib.Core.Bool.{Bool, false≢true}
use text.Mathlib.Text.{◌==◌ as str_eq}
use text.Mathlib.TextEquality.{eq_iff}
use mathlib.Core.Path.{sym, ◌∙◌}
use mathlib.Core.Logic.{inl, inr}
use kinetic_sdk_agents.Prelude.Tests.{Bool-cases}

mutual
  pub data Json : Type 0 where
    null : Json
    bool : Bool → Json
    num : String → Json
    str : String → Json
    arr : Items → Json
    obj : Fields → Json

  pub data Items : Type 0 where
    nil : Items
    cons : Json → Items → Items

  pub data Fields : Type 0 where
    end : Fields
    field : String → Json → Fields → Fields

unfoldable pub String-discrete : Discrete String
String-discrete s t = elim (Bool-cases (str_eq s t)) [
  | inl same ↦ yes ((eq_iff s t).0 same)
  | inr other ↦ no (λ e. false≢true (sym other ∙ (eq_iff s t).1 e))
]

pub Json-discrete : Discrete Json
Json-discrete = hlevel String-discrete
