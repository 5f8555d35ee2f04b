-- ===== src/FileLock/Acquire.antt =====
-- kinetic_sdk/subagent/filelock.py, `acquire`: one round of its loop and the loop, with the clocks
-- and the other agents, who act while it sleeps, as parameters.
use Prim.Native.Char.{code}
use kinetic_sdk_agents.Prelude.{
  ℕ, zero, suc, ◌+◌, String, Bool, true, false, not, ◌&&◌, ◌||◌, Option, none, some, leb, ◌==◌,
  str_eq, if◌then◌else◌, Result, ok, err,
}
use kinetic_sdk_agents.FileLock.{
  FileLockInfo, FileLockRegistry, Store, Error, value_error, timed_out, is_expired, is_positive,
  expiry, or_default, canonical_path, read_info, try_create, remove_if_unchanged,
}

-- `str.isspace` of one character
unfoldable pub is_space : ℕ → Bool
is_space c =
    (leb 9 c && leb c 13)
    || (leb 28 c && leb c 32)
    || c == 133
    || c == 160
    || c == 5760
    || (leb 8192 c && leb c 8202)
    || c == 8232
    || c == 8233
    || c == 8239
    || c == 8287
    || c == 12288

-- `not text.strip()`
unfoldable pub is_blank : String → Bool
unfolding is_space
is_blank String.[] = true
is_blank (String.◌∷◌ c s) = is_space (code c) && is_blank s

-- `time.time`, `time.monotonic`, and `time.sleep`, during which others may change the records.
pub record Host (W : Type 0) : Type 0 where
  pub time : W → ℕ × W
  pub monotonic : W → ℕ × W
  pub sleep : Store → W → Store × W

-- How a round of the loop ends: `held` names the holder that stands in the way.
pub data Attempt : Type 0 where
  acquired reclaimed : Attempt
  held : Option String → Attempt

module _ (r : FileLockRegistry) where
  abbrev pub judged : Option FileLockInfo → String → String → ℕ → Store → Store × Attempt
  judged none canonical owner_id now s = (s, held none)
  judged (some existing) canonical owner_id now s =
      if str_eq existing.owner_id owner_id
      then (s, acquired)
      else (if is_expired existing now
          then (remove_if_unchanged r canonical existing s, reclaimed)
          else (s, held (some existing.owner_id)))

  unfoldable pub attempt : String → String → Option ℕ → ℕ → Store → Store × Attempt
  unfolding try_create read_info is_expired remove_if_unchanged
  attempt canonical owner_id lease now s =
      let info : FileLockInfo = record {
        path = canonical;
        owner_id = owner_id;
        acquired_at = now;
        expires_at = expiry lease now;
      } in
      let (s', made) = try_create r info s in
      if made then (s', acquired) else judged (read_info r canonical s') canonical owner_id now s'

module _ {W : Type 0} (r : FileLockRegistry) (h : Host W) where
  abbrev pub Acquisition : Type 0
  Acquisition = Store × W × Result Error String

  -- `deadline is not None and time.monotonic() >= deadline`, else a sleep and the next round
  abbrev pub waited :
      Bool → Option String → Store → W → (Store → W → Option Acquisition) → Option Acquisition
  waited true holder s w again = some (s, w, err (timed_out holder))
  waited false holder s w again = let (s', w') = h.sleep s w in again s' w'

  abbrev pub blocked :
      Option ℕ → Option String → Store → W → (Store → W → Option Acquisition) → Option Acquisition
  blocked none holder s w again = waited false holder s w again
  blocked (some deadline) holder s w again =
      let (m, w') = h.monotonic w in waited (leb deadline m) holder s w' again

  abbrev pub next :
      Attempt
      → String
      → Option ℕ
      → Store
      → W
      → (Store → W → Option Acquisition)
      → Option Acquisition
  next acquired canonical deadline s w again = some (s, w, ok canonical)
  next reclaimed canonical deadline s w again = again s w
  next (held holder) canonical deadline s w again = blocked deadline holder s w again

  -- The `while` loop, on fuel; a lease is returned as its canonical path.
  unfoldable pub acquire_loop :
      ℕ → String → String → Option ℕ → Option ℕ → Store → W → Option Acquisition
  unfolding attempt
  acquire_loop zero canonical owner_id lease deadline s w = none
  acquire_loop (suc fuel) canonical owner_id lease deadline s w =
      let (now, w') = h.time w in
      let (s', a) = attempt r canonical owner_id lease now s in
      next a canonical deadline s' w' (acquire_loop fuel canonical owner_id lease deadline)

  abbrev pub with_deadline : Option ℕ → W → (Option ℕ → W → Option Acquisition) → Option Acquisition
  with_deadline none w loop = loop none w
  with_deadline (some timeout) w loop = let (m, w') = h.monotonic w in loop (some (m + timeout)) w'

  unfoldable pub acquire :
      ℕ → String → String → Option ℕ → Option ℕ → Store → W → Option Acquisition
  unfolding canonical_path is_blank acquire_loop
  acquire fuel path owner_id timeout lease_seconds s w =
      let lease = or_default lease_seconds r.default_lease_seconds in
      elim (canonical_path r path) [
        | err e ↦ some (s, w, err e)
        | ok canonical ↦
            if is_blank owner_id || not (is_positive lease)
            then some (s, w, err value_error)
            else with_deadline timeout w
                (λ deadline w'. acquire_loop fuel canonical owner_id lease deadline s w')
      ]
