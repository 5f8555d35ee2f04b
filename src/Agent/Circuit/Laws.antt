-- ===== src/Agent/Circuit/Laws.antt =====
-- The circuit opens exactly on enough consecutive failures, and stays open until its deadline.
use kinetic_sdk_agents.Prelude.{
  ℕ, suc, ◌+◌, ◌≤◌, ◌≡◌, refl, ap, ◌∙◌, inl, inr, String, Bool, true, false, Bool-cases, Option,
  none, some, List, [], ◌∷◌, arith, ltb, leb, if◌then◌else◌, str_eq_refl, str_eq,
}
use kinetic_sdk_agents.Prelude.Dict.{get, put, get-put}
use kinetic_sdk_agents.Agent.{Agent, Config, Breakers, Tool, ToolResult, is_error}
use kinetic_sdk_agents.Agent.Circuit.{
  or_closed, breaker, is_open_with, record_with, threshold_of, cooldown_of, is_open_until,
  circuit_is_open, fail_entry, record_circuit_result, record_results,
}

-- How many of the newest results in a row are errors.
abbrev pub failing_run : List ToolResult → ℕ
failing_run [] = 0
failing_run (r ∷ older) = if is_error r then suc (failing_run older) else 0

abbrev pub is_some {ℓ} : {A : Type ℓ} → Option A → Bool
is_some none = false
is_some (some a) = true

breaker-put : (name : String) (b : ℕ × Option ℕ) (d : Breakers) → breaker name (put name b d) ≡ b
unfolding breaker
breaker-put name b d =
    let same : (if str_eq name name then some b else get name d) ≡ some b =
      rw (str_eq_refl name) refl in
    ap or_closed (get-put name name b d ∙ same)

-- A breaker that has counted `run` failures in a row, with a deadline exactly if they reach the
-- threshold.
pub record Counts (threshold run : ℕ) (b : ℕ × Option ℕ) : Type 0 where
  pub failures : b.0 ≡ run
  pub deadline : is_some b.1 ≡ leb threshold run

module _ {W : Type 0} (c : Config W) where
  fail_entry-Counts :
      (name : String) (failures threshold cooldown : ℕ) (s : Agent W)
      → Counts threshold failures
          (breaker name (fail_entry c name failures threshold cooldown s).circuit_breakers)
  fail_entry-Counts name failures threshold cooldown s =
      elim (Bool-cases (leb threshold failures)) [
        | inl reached ↦
            rw (reached, breaker-put) (record { failures = refl; deadline = rw reached refl })
        | inr below ↦ rw (below, breaker-put) (record { failures = refl; deadline = rw below refl })
      ]

  record-Counts :
      (name : String) (t : Tool) (threshold run : ℕ) (r : ToolResult) (s : Agent W)
      → 1 ≤ threshold
      → Counts threshold run (breaker name s.circuit_breakers)
      → Counts threshold
          (if is_error r then suc run else 0)
          (breaker name (record_with c (some threshold) name t r s).circuit_breakers)
  record-Counts name t threshold run r s pos h = elim (Bool-cases (is_error r)) [
    | inl failed ↦
        let next : (breaker name s.circuit_breakers).0 + 1 ≡ suc run = omega (arith, h.failures) in
        rw (failed, next) (fail_entry-Counts name (suc run) threshold (cooldown_of t) s)
    | inr fine ↦ rw (fine, breaker-put) (record { failures = refl; deadline = ground arith })
  ]

  -- For a tool with a positive threshold whose breaker is new, recording any results counts the
  -- failures in a row at the newest end, and the circuit has a deadline exactly if they reach the
  -- threshold: one success closes it.
  pub record_results-Counts :
      (name : String) (t : Tool) (threshold : ℕ) (rs : List ToolResult) (s : Agent W)
      → threshold_of t ≡ some threshold
      → 1 ≤ threshold
      → breaker name s.circuit_breakers ≡ (0, none)
      → Counts threshold
          (failing_run rs)
          (breaker name (record_results c name t rs s).circuit_breakers)
  unfolding record_results
  record_results-Counts name t threshold [] s e pos new =
      rw new (record { failures = refl; deadline = ground arith })
  record_results-Counts name t threshold (r ∷ older) s e pos new = rw e (
      record-Counts name t threshold (failing_run older) r (record_results c name t older s) pos
        (record_results-Counts name t threshold older s e pos new))

  -- With a threshold and a deadline, the circuit is open exactly while the clock is before the
  -- deadline; an open circuit keeps its breaker, and one whose deadline has passed is reset.
  circuit_is_open-deadline :
      (t : Tool) (threshold deadline : ℕ) (s : Agent W)
      → threshold_of t ≡ some threshold
      → (breaker t.name s.circuit_breakers).1 ≡ some deadline
      → ((circuit_is_open c t s).1 ≡ ltb (c.monotonic s.world).0 deadline)
        × (breaker t.name (circuit_is_open c t s).0.circuit_breakers ≡ (
            if ltb (c.monotonic s.world).0 deadline
            then breaker t.name s.circuit_breakers
            else (0, none)))
  unfolding circuit_is_open
  circuit_is_open-deadline t threshold deadline s e d =
      rw (e, d)
        (elim (Bool-cases (ltb (c.monotonic s.world).0 deadline)) [
          | inl early ↦ rw early (refl, refl)
          | inr late ↦ rw late (refl, breaker-put t.name (0, none) s.circuit_breakers)
        ])

  -- The breakers are all that the circuit's methods change in an agent, besides the clock's world.
  pub record SameBut (s s' : Agent W) : Type 0 where
    pub state : s'.state ≡ s.state
    pub tools : s'.tools ≡ s.tools
    pub trace : s'.trace ≡ s.trace
    pub stop_reason : s'.stop_reason ≡ s.stop_reason

  SameBut-refl : (s : Agent W) → SameBut s s
  SameBut-refl s = record { state = refl; tools = refl; trace = refl; stop_reason = refl }

  is_open_until-SameBut :
      (t : Tool) (deadline : Option ℕ) (s : Agent W) → SameBut s (is_open_until c t deadline s).0
  is_open_until-SameBut t none s = SameBut-refl s
  is_open_until-SameBut t (some deadline) s =
      elim (Bool-cases (ltb (c.monotonic s.world).0 deadline)) [
        | inl early ↦
            rw early (record { state = refl; tools = refl; trace = refl; stop_reason = refl })
        | inr late ↦
            rw late (record { state = refl; tools = refl; trace = refl; stop_reason = refl })
      ]

  pub circuit_is_open-SameBut : (t : Tool) (s : Agent W) → SameBut s (circuit_is_open c t s).0
  unfolding circuit_is_open
  circuit_is_open-SameBut t s = go (threshold_of t)
    where
      go : (o : Option ℕ) → SameBut s (is_open_with c o t s).0
      go none = SameBut-refl s
      go (some threshold) = is_open_until-SameBut t (breaker t.name s.circuit_breakers).1 s

  fail_entry-SameBut :
      (name : String) (failures threshold cooldown : ℕ) (s : Agent W)
      → SameBut s (fail_entry c name failures threshold cooldown s)
  fail_entry-SameBut name failures threshold cooldown s =
      elim (Bool-cases (leb threshold failures)) [
        | inl at ↦ rw at (record { state = refl; tools = refl; trace = refl; stop_reason = refl })
        | inr below ↦
            rw below (record { state = refl; tools = refl; trace = refl; stop_reason = refl })
      ]

  pub record_circuit_result-SameBut :
      (name : String) (t : Tool) (r : ToolResult) (s : Agent W)
      → SameBut s (record_circuit_result c name t r s)
  unfolding record_circuit_result
  record_circuit_result-SameBut name t r s = go (threshold_of t)
    where
      go : (o : Option ℕ) → SameBut s (record_with c o name t r s)
      go none = SameBut-refl s
      go (some threshold) = elim (Bool-cases (is_error r)) [
        | inl failed ↦ rw failed (fail_entry-SameBut name _ threshold (cooldown_of t) s)
        | inr fine ↦
            rw fine (record { state = refl; tools = refl; trace = refl; stop_reason = refl })
      ]
