-- ===== src/Registry/Hooks.antt =====
-- kinetic_sdk/hooks/registry.py, `HookRegistry`. `trigger` iterates over the list that `register`
-- and `unregister` change in place, so its loop is on an index into what the list is by then, with
-- fuel, since a hook may register further hooks.
use kinetic_sdk_agents.Prelude.{
  ℕ, zero, suc, ◌<◌, ◌≡◌, refl, sym, ap, ◌∙◌, String, Option, none, some, List, [], ◌∷◌, length,
  drop, get_elem?, arith,
}
use kinetic_sdk_agents.Agent.{HookResult}
use kinetic_sdk_agents.Registry.{Registry, entries, add, discard}

-- What one call of a hook gives: an exception, an awaitable (closed and skipped), nothing, a result.
pub data Reply : Type 0 where
  raised awaitable nothing : Reply
  result : HookResult → Reply

unfoldable pub register : String → String → Registry → Registry
unfolding add
register point hook hooks = add point hook hooks

unfoldable pub unregister : String → String → Registry → Registry
unfolding discard
unregister point hook hooks = discard point hook hooks

unfoldable pub hooks_for : String → Registry → List String
unfolding entries
hooks_for point hooks = entries point hooks

abbrev pub collect : Reply → List HookResult → List HookResult
collect raised rs = rs
collect awaitable rs = rs
collect nothing rs = rs
collect (result r) rs = r ∷ rs

module _ {W : Type 0} (call : String → Registry × W → (Registry × W) × Reply) where
  abbrev pub collected :
      Reply → Option ((Registry × W) × List HookResult) → Option ((Registry × W) × List HookResult)
  collected reply none = none
  collected reply (some (s, rs)) = some (s, collect reply rs)

  -- One round at what stands at the index, and then the `rest`.
  abbrev pub round :
      Option String
      → Registry × W
      → (Registry × W → Option ((Registry × W) × List HookResult))
      → Option ((Registry × W) × List HookResult)
  round none s rest = some (s, [])
  round (some hook) s rest = let (s', reply) = call hook s in collected reply (rest s')

  -- `none` is a loop that has not ended with this fuel.
  unfoldable pub trigger_from :
      ℕ → ℕ → String → Registry × W → Option ((Registry × W) × List HookResult)
  unfolding hooks_for
  trigger_from zero i point s = none
  trigger_from (suc fuel) i point s =
      round (get_elem? (hooks_for point s.0) i) s (λ s'. trigger_from fuel (suc i) point s')

  unfoldable pub trigger : ℕ → String → Registry × W → Option ((Registry × W) × List HookResult)
  unfolding trigger_from
  trigger fuel point s = trigger_from fuel 0 point s

  -- Every hook of a list once, in order, with the results of those that gave one.
  unfoldable pub run_each : List String → Registry × W → (Registry × W) × List HookResult
  run_each [] s = (s, [])
  run_each (hook ∷ hooks) s =
      let (s', reply) = call hook s in
      let (last, rs) = run_each hooks s' in (last, collect reply rs)

-- What stands at an index, in front of what is behind it.
abbrev at_front : Option String → List String → List String
at_front none xs = []
at_front (some x) xs = x ∷ xs

drop-at : (xs : List String) (i : ℕ) → drop i xs ≡ at_front (get_elem? xs i) (drop (suc i) xs)
drop-at [] zero = refl
drop-at [] (suc i) = refl
drop-at (x ∷ xs) zero = refl
drop-at (x ∷ xs) (suc i) = drop-at xs i

module _ {W : Type 0} (call : String → Registry × W → (Registry × W) × Reply) (point : String)
    (stable : (hook : String) (s : Registry × W)
      → hooks_for point (call hook s).0.0 ≡ hooks_for point s.0) where
  trigger_from-run_each :
      (fuel i : ℕ) (s : Registry × W)
      → length (drop i (hooks_for point s.0)) < fuel
      → trigger_from call fuel i point s ≡ some (run_each call (drop i (hooks_for point s.0)) s)
  unfolding trigger_from run_each
  trigger_from-run_each zero i s enough = ground arith
  trigger_from-run_each (suc fuel) i s enough =
      go (get_elem? (hooks_for point s.0) i) (drop (suc i) (hooks_for point s.0)) refl
        (drop-at (hooks_for point s.0) i) (λ s'. trigger_from-run_each fuel (suc i) s')
    where
      hooks : List String
      hooks = hooks_for point s.0

      go :
          (o : Option String) (behind : List String)
          → behind ≡ drop (suc i) hooks
          → drop i hooks ≡ at_front o behind
          → ((s' : Registry × W)
              → length (drop (suc i) (hooks_for point s'.0)) < fuel
              → trigger_from call fuel (suc i) point s'
                ≡ some (run_each call (drop (suc i) (hooks_for point s'.0)) s'))
          → round call o s (λ s'. trigger_from call fuel (suc i) point s')
            ≡ some (run_each call (drop i hooks) s)
      go none behind e split rest = rw split refl
      go (some hook) behind e split rest =
          let s' : Registry × W = (call hook s).0 in
          let same : drop (suc i) (hooks_for point s'.0) ≡ behind =
            ap (drop (suc i)) (stable hook s) ∙ sym e in
          let shorter : length (drop (suc i) (hooks_for point s'.0)) < fuel =
            omega (arith, ap length same, ap length split, enough) in
          let ended : trigger_from call fuel (suc i) point s' ≡ some (run_each call behind s') =
            rest s' shorter ∙ ap (λ xs. some (run_each call xs s')) same in
          rw (split, ended) refl

  -- If no hook's call changes which hooks stand at the point, then triggering it ends within one
  -- round more than there are hooks, has run each of them once and in order, whatever they raised,
  -- and returns the results of those that gave one.
  pub trigger-run_each :
      (s : Registry × W)
      → trigger call (suc (length (hooks_for point s.0))) point s
        ≡ some (run_each call (hooks_for point s.0) s)
  unfolding trigger
  trigger-run_each s = trigger_from-run_each (suc (length (hooks_for point s.0))) 0 s (omega arith)
