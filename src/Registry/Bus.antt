-- ===== src/Registry/Bus.antt =====
-- kinetic_sdk/event/bus.py, `EventBus`. A subscriber's call reads and changes the registry (it may
-- subscribe or unsubscribe) and a world; what it raises is swallowed. The lock is held for each
-- change and for the snapshot, so these are atomic.
use kinetic_sdk_agents.Prelude.{
  ◌≡◌, ap, ◌∙◌, String, Bool, ◌&&◌, ◌||◌, List, [], ◌∷◌, ◌++◌, if◌then◌else◌, str_eq, arith, ap₂,
  sym,
}
use kinetic_sdk_agents.Prelude.Json.{Json}
use kinetic_sdk_agents.Prelude.Sets.{has, has-append}
use kinetic_sdk_agents.Registry.{Registry, entries, add, discard}
use kinetic_sdk_agents.Registry.Laws.{IsValid, add-has}

-- The payload is one JSON value.
pub record Event : Type 0 where
  pub type : String
  pub payload : Json

unfoldable pub subscribe : String → String → Registry → Registry
unfolding add
subscribe event_type subscriber bus = add event_type subscriber bus

unfoldable pub unsubscribe : String → String → Registry → Registry
unfolding discard
unsubscribe event_type subscriber bus = discard event_type subscriber bus

-- The wildcard's subscribers come first.
unfoldable pub gather : String → Registry → List String
unfolding entries
gather event_type bus = entries "*" bus ++ entries event_type bus

unfoldable pub clear : Registry → Registry
clear bus = []

module _ {W : Type 0} (is_coroutine : String → Bool)
    (call : String → Event → Registry × W → Registry × W) where
  unfoldable pub deliver : List String → Event → Registry × W → Registry × W
  deliver [] event s = s
  deliver (x ∷ xs) event s = deliver xs event (if is_coroutine x then s else call x event s)

  -- `publish`: the snapshot is taken before the first call.
  unfoldable pub publish : Event → Registry × W → Registry × W
  unfolding gather deliver
  publish event s = deliver (gather event.type s.0) event s

-- In a bus without duplicates, subscribing to a type makes exactly one subscriber new to the
-- snapshots of exactly that type, or of every type for the wildcard; and there are still no
-- duplicates.
subscribe-gather :
    (event_type subscriber : String) (bus : Registry)
    → IsValid bus
    → IsValid (subscribe event_type subscriber bus)
      × ((t y : String)
          → has y (gather t (subscribe event_type subscriber bus)) ≡ (
              ((str_eq event_type "*" || str_eq event_type t) && str_eq subscriber y)
              || has y (gather t bus)))
unfolding subscribe gather
subscribe-gather event_type subscriber bus h =
    let (valid, members) = add-has event_type subscriber bus h in
    (
      valid,
      λ t y.
          has-append y (entries "*" (add event_type subscriber bus))
            (entries t (add event_type subscriber bus))
          ∙ (ap₂ (λ a b. a || b) (members "*" y) (members t y)
              ∙ (merge (str_eq event_type "*") (str_eq event_type t) (str_eq subscriber y)
                    (has y (entries "*" bus)) (has y (entries t bus))
                  ∙ ap
                      (λ b.
                        ((str_eq event_type "*" || str_eq event_type t) && str_eq subscriber y)
                        || b)
                      (sym (has-append y (entries "*" bus) (entries t bus))))),
    )
  where
    merge :
        (a b c d e : Bool) → (((a && c) || d) || ((b && c) || e)) ≡ (((a || b) && c) || (d || e))
    merge a b c d e = ground arith
