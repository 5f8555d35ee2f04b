-- ===== src/Agent/Gate/Authority.antt =====
-- Every call of a tool was allowed.
use kinetic_sdk_agents.Prelude.{◌≡◌, ◌⊎◌, inr, String, true, some, List, [], ◌∷◌}
use kinetic_sdk_agents.Prelude.Dict.{Dict, get}
use kinetic_sdk_agents.Prelude.Json.{Json}
use kinetic_sdk_agents.Conversation.{ConversationState}
use kinetic_sdk_agents.Agent.{
  Agent, Config, Tool, ToolCall, Action, logged_call, logged_denial, logged_result, confirmed,
  invoked, retried, emitted,
}
use kinetic_sdk_agents.Agent.Gate.{Prepared, run, early, pending}

-- An action stands somewhere in a trace.
abbrev pub In : Action → List Action → Type 0
In a [] = ⊥
In a (b ∷ bs) = (a ≡ b) ⊎ In a bs

module _ {W : Type 0} (c : Config W) where
  -- What must stand before a call of a tool: the policy allows these arguments, the audit log has
  -- that decision, and where it wants a confirmation a hook has given one for these arguments.
  pub record Permitted (name : String) (arguments : Json) (trace : List Action) : Type 0 where
    pub allowed : (c.check name arguments).allowed ≡ true
    pub logged : In (logged_call name arguments (c.check name arguments)) trace
    pub confirmation :
        (c.check name arguments).requires_confirmation ≡ true → In (confirmed name arguments) trace

  -- Every call of a tool in a trace (newest first) was permitted by what came before it.
  abbrev pub Authorised : List Action → Type 0
  Authorised [] = Unit
  Authorised (invoked name arguments ∷ older) = Permitted name arguments older × Authorised older
  Authorised (logged_call name arguments d ∷ older) = Authorised older
  Authorised (logged_denial name arguments reason ∷ older) = Authorised older
  Authorised (logged_result name result ∷ older) = Authorised older
  Authorised (confirmed name arguments ∷ older) = Authorised older
  Authorised (retried id attempt ∷ older) = Authorised older
  Authorised (emitted type id ∷ older) = Authorised older

  pub Permitted-later :
      (name : String) (arguments : Json) (a : Action) (trace : List Action)
      → Permitted name arguments trace
      → Permitted name arguments (a ∷ trace)
  Permitted-later name arguments a trace p = record {
    allowed = p.allowed;
    logged = inr p.logged;
    confirmation = λ h. inr (p.confirmation h);
  }

  -- Tools are registered under their own names.
  abbrev pub IsRegistry : Dict Tool → Type 0
  IsRegistry tools = (name : String) (t : Tool) → get name tools ≡ some t → t.name ≡ name

  -- `tools` is the registry and `conversation` the state, which gating and running leave alone.
  module _ (tools : Dict Tool) (conversation : ConversationState) where
    pub record Sound (s : Agent W) : Type 0 where
      pub same : s.tools ≡ tools
      pub kept : s.state ≡ conversation
      pub authority : Authorised s.trace

    -- A prepared call that may run is permitted, for a registered tool.
    pub record Granted (call : ToolCall) (arguments : Json) (tool : Tool) (s : Agent W)
        : Type 0 where
      pub permitted : Permitted call.name arguments s.trace
      pub registered : get call.name tools ≡ some tool

    abbrev pub GrantedIf : ToolCall → Agent W → Prepared → Type 0
    GrantedIf call s (run tool arguments) = Granted call arguments tool s
    GrantedIf call s (early arguments r) = Unit
    GrantedIf call s (pending arguments d) = Unit

    abbrev pub Post : ToolCall → Agent W × Prepared → Type 0
    Post call r = Sound r.0 × GrantedIf call r.0 r.1
