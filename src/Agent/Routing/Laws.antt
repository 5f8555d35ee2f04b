-- ===== src/Agent/Routing/Laws.antt =====
-- The routing fields agree with the mode, and what a classification does to them.
use kinetic_sdk_agents.Prelude.{
  ℕ, ◌+◌, ◌≡◌, refl, ◌∙◌, Bool, true, false, ◌&&◌, ◌||◌, Option, none, some, leb, ◌==◌,
}
use kinetic_sdk_agents.Agent.{AgentMode, flash, max_mode}
use kinetic_sdk_agents.Agent.Routing.{
  Routing, is_max, cap, new, raised_cap, escalate_to, escalates_to, escalate, route,
  classify_and_route, flash_escalation_threshold, escalate_if, if_flash, maybe_escalate,
}

-- The flag and the cap are the mode's, and a conversation that is stuck to MAX is at MAX.
pub record IsValid (s : Routing) : Type 0 where
  pub reasoning : s.enable_extended_reasoning ≡ is_max s.mode
  pub iterations : s.max_iterations ≡ cap s.max_iterations_override s.mode
  pub sticky : s.sticky_max ≡ true → s.mode ≡ max_mode

-- What the agent does to its routing fields.
pub data Step : Routing → Routing → Type 0 where
  classified : (m : Option AgentMode) (s : Routing) → Step s (classify_and_route m s)
  escalated : (s : Routing) → Step s (escalate s).0
  turned :
      (iteration : ℕ) (triggered already : Bool) (s : Routing)
      → Step s (maybe_escalate iteration triggered already s).0

pub data Reach (a : Routing) : Routing → Type 0 where
  here : Reach a a
  after : (s t : Routing) → Reach a s → Step s t → Reach a t

new-IsValid : (override : Option ℕ) → IsValid (new override)
unfolding new
new-IsValid override = record { reasoning = refl; iterations = refl; sticky = λ e. refl }

classify-IsValid : (m : Option AgentMode) (s : Routing) → IsValid (classify_and_route m s)
unfolding classify_and_route
classify-IsValid none s = record { reasoning = refl; iterations = refl; sticky = λ e. refl }
classify-IsValid (some m) s = go s.sticky_max refl m
  where
    go : (b : Bool) → s.sticky_max ≡ b → (k : AgentMode) → IsValid (route b k s)
    go true e flash = record { reasoning = refl; iterations = refl; sticky = λ h. refl }
    go false e flash = record { reasoning = refl; iterations = refl; sticky = λ h. cc }
    go b e max_mode = record { reasoning = refl; iterations = refl; sticky = λ h. refl }

escalate-IsValid : (s : Routing) → IsValid s → IsValid (escalate s).0
unfolding escalate
escalate-IsValid s h = go s.mode refl
  where
    override :
        (o : Option ℕ)
        → s.max_iterations_override ≡ o
        → s.mode ≡ flash
        → raised_cap o max_mode s.max_iterations ≡ cap o max_mode
    override none o m = refl
    override (some n) o m = h.iterations ∙ cc

    go : (m : AgentMode) → s.mode ≡ m → IsValid (escalate_to (escalates_to m) s).0
    go max_mode e = h
    go flash e = record {
      reasoning = refl;
      iterations = override s.max_iterations_override refl e;
      sticky = λ a. refl;
    }

maybe_escalate-IsValid :
    (iteration : ℕ) (triggered already : Bool) (s : Routing)
    → IsValid s
    → IsValid (maybe_escalate iteration triggered already s).0
unfolding maybe_escalate
maybe_escalate-IsValid iteration triggered true s h = h
maybe_escalate-IsValid iteration triggered false s h = go s.mode
  where
    tested : (b : Bool) → IsValid (escalate_if b s).0
    tested true = escalate-IsValid s h
    tested false = h

    go : (m : AgentMode) → IsValid (if_flash m iteration triggered s).0
    go max_mode = h
    go flash =
        tested ((iteration == 0 && triggered) || leb flash_escalation_threshold (iteration + 1))

Step-IsValid : (s t : Routing) → Step s t → IsValid s → IsValid t
Step-IsValid s _ (classified m _) h = classify-IsValid m s
Step-IsValid s _ (escalated _) h = escalate-IsValid s h
Step-IsValid s _ (turned iteration triggered already _) h =
    maybe_escalate-IsValid iteration triggered already s h

-- In every state that an agent reaches from its construction by classifications, escalations and
-- turns, the reasoning flag and the iteration cap are those of the current mode (an override of the
-- cap stays), and a conversation with the sticky flag is at MAX.
pub reach-IsValid : (override : Option ℕ) (s : Routing) → Reach (new override) s → IsValid s
reach-IsValid override _ here = new-IsValid override
reach-IsValid override _ (after s t r step) = Step-IsValid s t step (reach-IsValid override s r)

-- A classification routes to FLASH exactly if it says FLASH and the sticky flag is down, and leaves
-- the flag up exactly if it was up or the classification says MAX. A classifier that raised
-- routes to MAX and leaves the flag as it was.
classify_and_route-mode :
    (s : Routing)
    → ((m : AgentMode) → is_max (classify_and_route (some m) s).mode ≡ (is_max m || s.sticky_max))
      × ((m : AgentMode) → (classify_and_route (some m) s).sticky_max ≡ (is_max m || s.sticky_max))
      × ((classify_and_route none s).mode ≡ max_mode)
      × ((classify_and_route none s).sticky_max ≡ s.sticky_max)
unfolding classify_and_route
classify_and_route-mode s =
    (λ m. by_mode s.sticky_max m, λ m. by_flag s.sticky_max refl m, refl, refl)
  where
    by_mode : (b : Bool) (m : AgentMode) → is_max (route b m s).mode ≡ (is_max m || b)
    by_mode true flash = refl
    by_mode false flash = refl
    by_mode b max_mode = refl

    by_flag :
        (b : Bool) → s.sticky_max ≡ b → (m : AgentMode) → (route b m s).sticky_max ≡ (is_max m || b)
    by_flag true e flash = e
    by_flag false e flash = e
    by_flag b e max_mode = refl
