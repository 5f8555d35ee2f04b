-- ===== src/FileLock/Listing.antt =====
-- kinetic_sdk/subagent/filelock.py, `locked_paths`, `release_all` and the handles. The directory
-- is listed in the order of the store, and each record is judged by a clock reading of its own.
use Prim.Native.String.{compare}
use Prim.Native.Nat.{Ordering}
use kinetic_sdk_agents.Prelude.{
  ℕ, suc, ◌+◌, String, Bool, true, false, List, [], ◌∷◌, map, Option, none, some, if◌then◌else◌,
  str_eq, Result, ok, err,
}
use kinetic_sdk_agents.Prelude.Dict.{get}
use kinetic_sdk_agents.FileLock.{
  FileLockInfo, FileLockRegistry, Store, Error, contents, is_expired, remove_if_unchanged, release,
}

-- `a <= b` of texts, by code points
abbrev pub text_le : String → String → Bool
text_le a b = elim (compare a b) [ Ordering.gt ↦ false | _ ↦ true ]

-- `sorted(live, key=lambda item: item.path)`, which is stable
unfoldable pub insert_by_path : FileLockInfo → List FileLockInfo → List FileLockInfo
insert_by_path x [] = x ∷ []
insert_by_path x (y ∷ ys) =
    let rest = insert_by_path x ys in if text_le x.path y.path then x ∷ y ∷ ys else y ∷ rest

unfoldable pub sorted_by_path : List FileLockInfo → List FileLockInfo
unfolding insert_by_path
sorted_by_path [] = []
sorted_by_path (x ∷ xs) = insert_by_path x (sorted_by_path xs)

module _ (r : FileLockRegistry) (time : ℕ → ℕ) where
  abbrev pub listed :
      Option FileLockInfo
      → ℕ
      → Store
      → (Store → Store × List FileLockInfo)
      → Store × List FileLockInfo
  listed none i s rest = rest s
  listed (some info) i s rest =
      let removed = rest (remove_if_unchanged r info.path info s) in
      let (s', live) = rest s in if is_expired info (time i) then removed else (s', info ∷ live)

  -- The files of the directory from the i-th on; an expired record is removed on the way.
  unfoldable pub live_of : ℕ → List String → Store → Store × List FileLockInfo
  unfolding is_expired remove_if_unchanged get
  live_of i [] s = (s, [])
  live_of i (file ∷ files) s = listed (contents (get file s)) i s (live_of (suc i) files)

  unfoldable pub locked_paths : Store → Store × List FileLockInfo
  unfolding live_of sorted_by_path
  locked_paths s = let (s', live) = live_of 0 (map (λ f. f.0) s) s in (s', sorted_by_path live)

  -- A lock that somebody else released or took in the meantime is not counted.
  abbrev pub counted : Result Error Unit → ℕ → ℕ
  counted (ok u) n = n + 1
  counted (err e) n = n

  unfoldable pub release_each : String → List FileLockInfo → Store → Store × ℕ
  unfolding release
  release_each owner_id [] s = (s, 0)
  release_each owner_id (info ∷ infos) s =
      let (freed, outcome) = release r info.path owner_id s in
      let (s', n) = release_each owner_id infos freed in
      let other = release_each owner_id infos s in
      if str_eq info.owner_id owner_id then (s', counted outcome n) else other

  unfoldable pub release_all : String → Store → Store × ℕ
  unfolding locked_paths release_each
  release_all owner_id s = let (s', infos) = locked_paths s in release_each owner_id infos s'

-- `FileLock`, the handle that an acquisition gives
pub record FileLock : Type 0 where
  pub path : String
  pub owner_id : String
  pub is_released : Bool

-- Only the first release of a handle reaches the registry; one that fails may be tried again.
abbrev pub handle_after :
    Store × Result Error Unit → FileLock → Store × FileLock × Result Error Unit
handle_after (s, ok u) lock = (s, record lock { is_released = true }, ok u)
handle_after (s, err e) lock = (s, lock, err e)

unfoldable pub release_handle :
    FileLockRegistry → FileLock → Store → Store × FileLock × Result Error Unit
unfolding release
release_handle r lock s =
    if lock.is_released
    then (s, lock, ok tt)
    else handle_after (release r lock.path lock.owner_id s) lock
