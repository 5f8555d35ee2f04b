-- ===== src/Registry.antt =====
-- Ordered registries without duplicates, which are what kinetic_sdk/event/bus.py (`EventBus`, by
-- event type) and kinetic_sdk/hooks/registry.py (`HookRegistry`, by hook point) keep: a dictionary
-- of lists. Subscribers and hooks are named by texts.
pub mod Laws
pub mod Bus
pub mod Hooks
use kinetic_sdk_agents.Prelude.{
  String, Bool, true, false, Option, none, some, List, [], ◌∷◌, ◌++◌, if◌then◌else◌, str_eq,
}
use kinetic_sdk_agents.Prelude.Dict.{Dict, get, put}
use kinetic_sdk_agents.Prelude.Sets.{has}

abbrev pub Registry : Type 0
Registry = Dict (List String)

abbrev pub or_empty : Option (List String) → List String
or_empty none = []
or_empty (some xs) = xs

-- `d.get(key, [])`
unfoldable pub entries : String → Registry → List String
unfolding get
entries key d = or_empty (get key d)

-- `setdefault(key, [])`, and `append` unless the entry is there.
abbrev pub added : String → List String → List String
added x xs = if has x xs then xs else xs ++ x ∷ []

unfoldable pub add : String → String → Registry → Registry
unfolding has put entries
add key x d = put key (added x (entries key d)) d

-- `list.remove`: the first occurrence.
unfoldable pub remove_first : String → List String → List String
remove_first x [] = []
remove_first x (y ∷ ys) = let rest = remove_first x ys in if str_eq x y then ys else y ∷ rest

-- `if xs and x in xs: xs.remove(x)`
abbrev pub dropped : String → String → Registry → Option (List String) → Registry
dropped key x d none = d
dropped key x d (some xs) = if has x xs then put key (remove_first x xs) d else d

unfoldable pub discard : String → String → Registry → Registry
unfolding get put has remove_first
discard key x d = dropped key x d (get key d)
