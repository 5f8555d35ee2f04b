-- ===== src/Agent/Loop/Manager.antt =====
-- The truncating context managers as a run's context manager, for a context limit of `l + 1`: its
-- `should_compact` notes the limit, which the `compact` that may follow reads.
use kinetic_sdk_agents.Prelude.{ℕ, Option, none, some, List, Bool, false, suc}
use kinetic_sdk_agents.Conversation.{Message}
use kinetic_sdk_agents.Context.{Codec, Manager}
use kinetic_sdk_agents.Context.Estimate.{should_compact}
use kinetic_sdk_agents.Context.Compact.{compact}
use kinetic_sdk_agents.Context.Compact.Replay.{IsPlainElider, compact-IsReplayable}
use kinetic_sdk_agents.Agent.Loop.{ContextManager}
use kinetic_sdk_agents.Agent.Loop.Replay.{KeepsReplayable}

abbrev pub decided : Option (Bool × Manager) → Bool
decided none = false
decided (some (yes_, m)) = yes_

abbrev pub noted : Option (Bool × Manager) → Manager → Manager
noted none m = m
noted (some (yes_, m')) m = m'

abbrev pub truncating : Codec → Manager → (List Message → ℕ → Message) → ℕ → ContextManager
truncating codec m elide l = record {
  should_compact = λ s. decided (should_compact codec m s (suc l));
  compact = λ s. compact codec (noted (should_compact codec m s (suc l)) m) elide s;
}

-- Whatever its settings, a truncating manager whose stand-in message carries no tool block keeps a
-- history replayable and sets no cap.
pub truncating-KeepsReplayable :
    (codec : Codec) (m : Manager) (elide : List Message → ℕ → Message) (l : ℕ)
    → IsPlainElider elide
    → KeepsReplayable (truncating codec m elide l)
unfolding compact
truncating-KeepsReplayable codec m elide l plain = record {
  replayable = λ s h.
      compact-IsReplayable codec (noted (should_compact codec m s (suc l)) m) elide plain s h;
  uncapped = λ s h. h;
}
