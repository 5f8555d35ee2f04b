-- ===== src/Agent/Gate/Granting.antt =====
-- What `_prepare_call` lets run is permitted.
use kinetic_sdk_agents.Prelude.{
  ◌≡◌, refl, sym, ap, ◌∙◌, ◌⊎◌, inl, inr, String, Bool, true, false, Option, none, some, List, [],
  ◌∷◌, if◌then◌else◌, any,
}
use kinetic_sdk_agents.Prelude.Dict.{Dict, get}
use kinetic_sdk_agents.Prelude.Json.{Json}
use kinetic_sdk_agents.Conversation.{ConversationState}
use kinetic_sdk_agents.Agent.{
  Agent, Config, Tool, ToolCall, PermissionDecision, HookResult, logged_call, confirmed, emit,
}
use kinetic_sdk_agents.Agent.Circuit.{circuit_is_open}
use kinetic_sdk_agents.Agent.Circuit.Laws.{circuit_is_open-SameBut}
use kinetic_sdk_agents.Agent.Gate.{
  failure, Confirmation, approved, declined, no_hook, early, verdict, rewrite, stops, ask_hooks,
  confirmation_status, deny_call, denied, validated, if_validating, closed_circuit, by_hand,
  after_asking, known_tool, after_confirmation, checked, prepare_with, prepare_call,
}
use kinetic_sdk_agents.Agent.Gate.Authority.{In, Permitted, Sound, Post}

module _ {W : Type 0} (c : Config W) (tools : Dict Tool) (conversation : ConversationState) where
  denied-Post :
      (call : ToolCall) (reason : String) (arguments : Json) (s : Agent W)
      → Sound c tools conversation s
      → Post c tools conversation call (denied c call reason arguments s)
  unfolding deny_call
  denied-Post call reason arguments s h =
      (record { same = h.same; kept = h.kept; authority = h.authority }, tt)

  validated-Post :
      (problems : List String) (tool : Tool) (call : ToolCall) (arguments : Json) (s : Agent W)
      → Sound c tools conversation s
      → Permitted c call.name arguments s.trace
      → get call.name tools ≡ some tool
      → Post c tools conversation call (validated c tool call arguments problems s)
  validated-Post [] tool call arguments s h p g = (h, record { permitted = p; registered = g })
  validated-Post (x ∷ xs) tool call arguments s h p g =
      (record { same = h.same; kept = h.kept; authority = h.authority }, tt)

  if_validating-Post :
      (v : Bool) (tool : Tool) (call : ToolCall) (arguments : Json) (s : Agent W)
      → Sound c tools conversation s
      → Permitted c call.name arguments s.trace
      → get call.name tools ≡ some tool
      → Post c tools conversation call (if_validating c v tool call arguments s)
  if_validating-Post true tool call arguments s h p g =
      validated-Post (c.validate_tool_input tool.parameters arguments) tool call arguments s h p g
  if_validating-Post false tool call arguments s h p g =
      (h, record { permitted = p; registered = g })

  closed_circuit-Post :
      (tool : Tool) (call : ToolCall) (arguments : Json) (open_ : Bool) (s : Agent W)
      → Sound c tools conversation s
      → Permitted c call.name arguments s.trace
      → get call.name tools ≡ some tool
      → Post c tools conversation call (closed_circuit c tool call arguments open_ s)
  closed_circuit-Post tool call arguments true s h p g = (h, tt)
  closed_circuit-Post tool call arguments false s h p g =
      if_validating-Post c.validate_tool_inputs tool call arguments s h p g

  known_tool-Post :
      (o : Option Tool) (call : ToolCall) (arguments : Json) (s : Agent W)
      → get call.name tools ≡ o
      → Sound c tools conversation s
      → Permitted c call.name arguments s.trace
      → Post c tools conversation call (known_tool c o call arguments s)
  known_tool-Post none call arguments s g h p = (h, tt)
  known_tool-Post (some tool) call arguments s g h p =
      let r = circuit_is_open c tool s in
      let same = circuit_is_open-SameBut c tool s in
      closed_circuit-Post tool call arguments r.1 r.0
        (record {
          same = same.tools ∙ h.same;
          kept = same.state ∙ h.kept;
          authority = rw same.trace h.authority;
        })
        (rw same.trace p) g

  -- The registered tools are those the agent has.
  looked_up-Post :
      (call : ToolCall) (arguments : Json) (s : Agent W)
      → Sound c tools conversation s
      → Permitted c call.name arguments s.trace
      → Post c tools conversation call (known_tool c (get call.name s.tools) call arguments s)
  looked_up-Post call arguments s h =
      known_tool-Post (get call.name s.tools) call arguments s (ap (get call.name) (sym h.same)) h

  -- `ok` is what the decision's being confirmed or not calling for it gives.
  after_confirmation-Post :
      (status : Confirmation) (requires : Bool) (call : ToolCall) (arguments : Json)
      (d : PermissionDecision) (s : Agent W)
      → Sound c tools conversation s
      → (status ≡ approved ⊎ requires ≡ false → Permitted c call.name arguments s.trace)
      → Post c tools conversation call (after_confirmation c status requires call arguments d s)
  after_confirmation-Post no_hook true call arguments d s h ok = go c.has_checkpoint_manager
    where
      go : (b : Bool) → Post c tools conversation call (by_hand c b call arguments d s)
      go true = (record { same = h.same; kept = h.kept; authority = h.authority }, tt)
      go false = denied-Post call "requires manual confirmation" arguments s h
  after_confirmation-Post declined true call arguments d s h ok =
      denied-Post call "requires manual confirmation" arguments s h
  after_confirmation-Post no_hook false call arguments d s h ok =
      looked_up-Post call arguments s h (ok (inr refl))
  after_confirmation-Post declined false call arguments d s h ok =
      looked_up-Post call arguments s h (ok (inr refl))
  after_confirmation-Post approved requires call arguments d s h ok =
      looked_up-Post call arguments s h (ok (inl refl))

  -- What asking the hooks leaves: an approval is in the trace, on top of what was there.
  data Asked (call : ToolCall) (arguments : Json) (s : Agent W)
      : Agent W × Confirmation → Type 0 where
    answered :
        (w : W)
        → Asked call arguments s
            (emit (confirmed call.name arguments) (record s { world = w }), approved)
    unanswered :
        (s' : Agent W) (status : Confirmation)
        → s'.tools ≡ s.tools
        → s'.state ≡ s.state
        → s'.trace ≡ s.trace
        → ¬ (status ≡ approved)
        → Asked call arguments s (s', status)

  confirmation_status-Asked :
      (call : ToolCall) (arguments : Json) (d : PermissionDecision) (s : Agent W)
      → Asked call arguments s (confirmation_status c call arguments d s)
  unfolding confirmation_status
  confirmation_status-Asked call arguments d s = go c.on_permission_check
    where
      by_verdict :
          (v : Confirmation) (w : W)
          → Asked call arguments s (elim v [
            | approved ↦ (emit (confirmed call.name arguments) (record s { world = w }), approved)
            | declined ↦ (record s { world = w }, declined)
            | no_hook ↦ (record s { world = w }, no_hook)
          ])
      by_verdict approved w = answered w
      by_verdict declined w = unanswered _ _ refl refl refl (λ e. cc)
      by_verdict no_hook w = unanswered _ _ refl refl refl (λ e. cc)

      go :
          (o : Option (String → Json → PermissionDecision → W → List HookResult × W))
          → Asked call arguments s (ask_hooks c o call arguments d s)
      go none = unanswered _ _ refl refl refl (λ e. cc)
      go (some hooks) =
          by_verdict (verdict (hooks call.name arguments d s.world).0)
            (hooks call.name arguments d s.world).1

  after_asking-Post :
      (call : ToolCall) (arguments : Json) (logged : Agent W) (r : Agent W × Confirmation)
      → Sound c tools conversation logged
      → (c.check call.name arguments).allowed ≡ true
      → In (logged_call call.name arguments (c.check call.name arguments)) logged.trace
      → Asked call arguments logged r
      → Post c tools conversation call (
          after_confirmation c r.1
            (c.check call.name arguments).requires_confirmation
            call
            arguments
            (c.check call.name arguments)
            r.0)
  after_asking-Post call arguments logged _ h allowed entry (answered w) =
      after_confirmation-Post approved (c.check call.name arguments).requires_confirmation call
        arguments (c.check call.name arguments) _
        (record { same = h.same; kept = h.kept; authority = h.authority })
        (λ _. record { allowed = allowed; logged = inr entry; confirmation = λ _. inl refl })
  after_asking-Post call arguments logged _ h allowed entry
        (unanswered s' status t k e unapproved) =
      after_confirmation-Post status (c.check call.name arguments).requires_confirmation call
        arguments (c.check call.name arguments) s'
        (record { same = t ∙ h.same; kept = k ∙ h.kept; authority = rw e h.authority })
        (λ ok. record {
          allowed = allowed;
          logged = rw e entry;
          confirmation =
              λ needed. elim ok [ inl agreed ↦ elim (unapproved agreed) [ ] | inr free ↦ cc ];
        })

  checked-Post :
      (call : ToolCall) (arguments : Json) (s : Agent W)
      → Sound c tools conversation s
      → Post c tools conversation call (checked c call arguments (c.check call.name arguments) s)
  checked-Post call arguments s h = go (c.check call.name arguments).allowed refl
    where
      d : PermissionDecision
      d = c.check call.name arguments

      logged : Agent W
      logged = emit (logged_call call.name arguments d) s

      sound : Sound c tools conversation logged
      sound = record { same = h.same; kept = h.kept; authority = h.authority }

      go :
          (b : Bool)
          → d.allowed ≡ b
          → Post c tools conversation call (
              after_asking c b call arguments d
                (confirmation_status c call arguments d logged)
                logged)
      go true e =
          after_asking-Post call arguments logged _ sound e (inl refl)
            (confirmation_status-Asked call arguments d logged)
      go false e = denied-Post call d.reason arguments logged sound

  pub prepare_call-Post :
      (call : ToolCall) (s : Agent W)
      → Sound c tools conversation s
      → Post c tools conversation call (prepare_call c call s)
  unfolding prepare_call
  prepare_call-Post call s h = go c.before_tool_call
    where
      stopped :
          (b : Bool) (arguments : Json) (s' : Agent W)
          → Sound c tools conversation s'
          → Post c tools conversation call (
              if b
              then (s', early call.arguments (failure "cancelled by a before_tool_call hook"))
              else checked c call arguments (c.check call.name arguments) s')
      stopped true arguments s' h' = (h', tt)
      stopped false arguments s' h' = checked-Post call arguments s' h'

      go :
          (o : Option (String → Json → W → List HookResult × W))
          → Post c tools conversation call (prepare_with c o call s)
      go none = checked-Post call call.arguments s h
      go (some hooks) =
          let (rs, w) = hooks call.name call.arguments s.world in
          stopped (any stops rs) (rewrite call.arguments rs) (record s { world = w })
            (record { same = h.same; kept = h.kept; authority = h.authority })
