-- ===== src/Tests/Registries.antt =====
-- Runs of kinetic_sdk/event/bus.py and kinetic_sdk/hooks/registry.py.
use kinetic_sdk_agents.Prelude.{ℕ, suc, ◌+◌, ◌≡◌, refl, String, false, some, [], ◌∷◌, length}
use kinetic_sdk_agents.Prelude.Dict.{get}
use kinetic_sdk_agents.Prelude.Json.{null}
use kinetic_sdk_agents.Registry.{Registry, entries, discard}
use kinetic_sdk_agents.Registry.Laws.{IsValid}
use kinetic_sdk_agents.Registry.Bus.{Event, publish}
use kinetic_sdk_agents.Registry.Hooks.{
  Reply, nothing, hooks_for, unregister, trigger, run_each, trigger-run_each,
}

abbrev two : Registry
two = ("start", "a" ∷ "b" ∷ []) ∷ []

abbrev no_bus : Registry
no_bus = []

no_bus-IsValid : IsValid no_bus
unfolding entries get
no_bus-IsValid key = tt

-- The first subscriber unsubscribes the second during a publish, which still reaches it.
abbrev unsubscribing : String → Event → Registry × ℕ → Registry × ℕ
unsubscribing x event (bus, n) = (discard "start" "b" bus, n + 1)

publish_snapshot :
    (publish (λ x. false) unsubscribing (record { type = "start"; payload = null }) (two, 0)).1 ≡ 2
unfolding publish discard
publish_snapshot = refl

abbrev counting : String → Registry × ℕ → (Registry × ℕ) × Reply
counting hook (hooks, n) = ((hooks, n + 1), nothing)

trigger-run_each_example :
    trigger counting (suc (length (hooks_for "start" two))) "start" (two, 0)
    ≡ some (run_each counting (hooks_for "start" two) (two, 0))
trigger-run_each_example = trigger-run_each counting "start" (λ hook s. refl) (two, 0)

-- A hook that unregisters itself: the hook behind it is skipped.
abbrev leaving : String → Registry × ℕ → (Registry × ℕ) × Reply
leaving hook (hooks, n) = ((unregister "start" hook hooks, n + 1), nothing)

leaving_skips : trigger leaving 3 "start" (two, 0) ≡ some ((("start", "b" ∷ []) ∷ [], 1), [])
unfolding trigger unregister
leaving_skips = refl
