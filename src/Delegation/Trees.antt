-- ===== src/Delegation/Trees.antt =====
-- The tree of agents that kinetic_sdk/subagent/delegation.py spawns, and what all of it is charged.
use kinetic_sdk_agents.Prelude.{
  sym, ap, ℕ, ◌+◌, ◌≤◌, ◌≡◌, refl, ◌∙◌, subst, String, Bool, true, false, Option, none, some, List,
  [], ◌∷◌, All, length, if◌then◌else◌, Result, ok, err, arith,
}
use kinetic_sdk_agents.Agent.Loop.{LlmResponse}
use kinetic_sdk_agents.Budget.Repetition.{Breaker}
use kinetic_sdk_agents.Budget.Repetition
use kinetic_sdk_agents.Delegation.{
  Client, provider, guarded, serialized, Tree, Failure, Providers, Answer, chat, model_of,
  unguarded, by_factory, requested_model, is_model, inherited, spawned_with, spawn_llm,
}
use kinetic_sdk_agents.Delegation.Laws.{Plain, Answered, chat-Answered}

-- One guard, on the outside.
abbrev pub GuardedOnce : Client → Type 0
GuardedOnce (provider name) = ⊥
GuardedOnce (guarded c agent_id) = Plain c
GuardedOnce (serialized c) = ⊥

abbrev pub PlainFactory : Option (String → Client) → Type 0
PlainFactory none = Unit
PlainFactory (some factory) = (m : String) → Plain (factory m)

abbrev IsPlain : Option Client → Type 0
IsPlain none = Unit
IsPlain (some c) = Plain c

abbrev IsOnce : Option Client → Type 0
IsOnce none = Unit
IsOnce (some c) = GuardedOnce c

module _ {W : Type 0} (p : Providers W) where
  -- The clients of the agents below a root, by the spawns that made them.
  pub data Below (root : Client) : Client → Type 0 where
    child :
        (agent_id : String) (max_repeats : ℕ) (model : Option String)
        (factory : Option (String → Client)) (t : Tree) (c : Client)
        → PlainFactory factory
        → (spawn_llm p agent_id max_repeats none root model factory t).1 ≡ some c
        → Below root c
    grandchild :
        {parent : Client}
        → Below root parent
        → (agent_id : String) (max_repeats : ℕ) (model : Option String)
          (factory : Option (String → Client)) (t : Tree) (c : Client)
        → PlainFactory factory
        → (spawn_llm p agent_id max_repeats none parent model factory t).1 ≡ some c
        → Below root c

  by_factory-IsPlain :
      (m : Option String) (factory : Option (String → Client)) (o : Option Client)
      → PlainFactory factory
      → IsPlain o
      → IsPlain (by_factory p m factory o)
  by_factory-IsPlain m none o f h = h
  by_factory-IsPlain none (some factory) o f h = tt
  by_factory-IsPlain (some m) (some factory) o f h = f m

  inherited-IsPlain : (m : Option String) (c : Client) → Plain c → IsPlain (inherited p m c)
  inherited-IsPlain none c h = h
  inherited-IsPlain (some m) c h = go (is_model p m (model_of p c))
    where
      go : (b : Bool) → IsPlain (if b then some c else none)
      go true = h
      go false = tt

  spawned_with-IsOnce :
      (agent_id : String) (r : Result Repetition.Error Breaker) (o : Option Client) (t : Tree)
      → IsPlain o
      → IsOnce (spawned_with p agent_id r o t).1
  spawned_with-IsOnce agent_id r none t h = tt
  spawned_with-IsOnce agent_id (err e) (some c) t h = tt
  spawned_with-IsOnce agent_id (ok breaker) (some c) t h = h

  spawn_llm-GuardedOnce :
      (agent_id : String) (max_repeats : ℕ) (parent : Client) (model : Option String)
      (factory : Option (String → Client)) (t : Tree) (c : Client)
      → Plain (unguarded p parent)
      → PlainFactory factory
      → (spawn_llm p agent_id max_repeats none parent model factory t).1 ≡ some c
      → GuardedOnce c
  unfolding spawn_llm
  spawn_llm-GuardedOnce agent_id max_repeats parent model factory t c h f e =
      let base = unguarded p parent in
      subst IsOnce e (
        spawned_with-IsOnce agent_id (Repetition.new max_repeats)
          (by_factory p (requested_model p model base) factory (inherited p model base)) t
          (by_factory-IsPlain (requested_model p model base) factory (inherited p model base) f
            (inherited-IsPlain model base h)))

  inner_of_root : (c : Client) → Plain c → Plain (unguarded p c)
  inner_of_root (provider name) h = tt
  inner_of_root (guarded c agent_id) h = elim h [ ]
  inner_of_root (serialized c) h = h

  inner_of_agent : (c : Client) → GuardedOnce c → Plain (unguarded p c)
  inner_of_agent (provider name) h = elim h [ ]
  inner_of_agent (guarded c agent_id) h = h
  inner_of_agent (serialized c) h = elim h [ ]

  Below-GuardedOnce : (root : Client) → Plain root → (c : Client) → Below root c → GuardedOnce c
  Below-GuardedOnce root h c (child agent_id max_repeats model factory t _ f e) =
      spawn_llm-GuardedOnce agent_id max_repeats root model factory t c (inner_of_root root h) f e
  Below-GuardedOnce root h c
        (grandchild {parent} above agent_id max_repeats model factory t _ f e) =
      spawn_llm-GuardedOnce agent_id max_repeats parent model factory t c
        (inner_of_agent parent (Below-GuardedOnce root h parent above)) f e

  -- The turns of some agents, one after the other, with the tool calls of the answers returned.
  abbrev pub granted : Result Failure LlmResponse → ℕ
  granted (ok response) = length response.tool_calls
  granted (err e) = 0

  unfoldable pub chats : List Client → W → Tree → Tree × ℕ
  unfolding chat
  chats [] w t = (t, 0)
  chats (c ∷ cs) w t =
      let (w', t', r) = chat p c w t in let (t'', n) = chats cs w' t' in (t'', granted r + n)

  abbrev Grown : Tree → Answer p → Type 0
  Grown t (w', t', r) =
      (t'.budget.max_calls ≡ t.budget.max_calls)
      × (t.budget.used + granted r ≤ t'.budget.used)
      × (t'.budget.used ≤ t'.budget.max_calls)

  chat-Grown :
      (c : Client) (w : W) (t : Tree)
      → GuardedOnce c
      → t.budget.used ≤ t.budget.max_calls
      → Grown t (chat p c w t)
  chat-Grown (provider name) w t h within = elim h [ ]
  chat-Grown (serialized c) w t h within = elim h [ ]
  chat-Grown (guarded c agent_id) w t h within =
      go (chat p c w t) (chat p (guarded c agent_id) w t) (chat-Answered p c agent_id w t h within)
    where
      stays : (w' : W) (e : Failure) (a : Answer p) → a ≡ (w', t, err e) → Grown t a
      stays w' e a same = subst (Grown t) (sym same) (refl, omega arith, within)

      go : (inner a : Answer p) → Answered p agent_id t inner a → Grown t a
      go (w', t0, err e) a same = stays w' e a same
      go (w', t0, ok response) (w2, t', ok response') (same_w, same, ((u, m, l, n, k, o), limit)) =
          (m, omega (arith, ap (λ x. length x.tool_calls) same), l)
      go (w', t0, ok response) (w2, t', err e)
            (same_w, (done, rest, split, (u, m, l, n, k, o), why)) =
          (m, omega arith, l)

  -- Let a root's client and those of a factory have no guard, and let agents be spawned from the root
  -- or from each other without an override, as a pool gives one. Then the answers that these agents
  -- get, one after the other, have no more tool calls together than the budget had left: all of them
  -- are charged to it, and it stays within its cap.
  pub chats-Within :
      (root : Client)
      → Plain root
      → (cs : List Client) (w : W) (t : Tree) → All (Below root) cs
      → t.budget.used ≤ t.budget.max_calls
      → ((chats cs w t).0.budget.max_calls ≡ t.budget.max_calls)
        × (t.budget.used + (chats cs w t).1 ≤ (chats cs w t).0.budget.used)
        × ((chats cs w t).0.budget.used ≤ t.budget.max_calls)
  unfolding chats
  chats-Within root h [] w t below within = (refl, omega arith, within)
  chats-Within root h (c ∷ cs) w t (here, below) within =
      let (m, grown, l) = chat-Grown c w t (Below-GuardedOnce root h c here) within in
      let (m', grown', l') = chats-Within root h cs (chat p c w t).0 (chat p c w t).1 below l in
      (m' ∙ m, omega arith, omega arith)
