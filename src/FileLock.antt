-- ===== src/FileLock.antt =====
-- kinetic_sdk/subagent/filelock.py: leases on workspace files, kept as one file per lease in a
-- directory that all agents share. Times are in the clock's own ticks. What a file of the directory
-- holds is what `_read_record` makes of it; a digest names the file of a path.
pub mod Acquire
pub mod Listing
pub mod Steps
mod Backed
mod Sound
pub mod Exclusion
mod Rounds
pub mod Liveness
use kinetic_sdk_agents.Prelude.{
  ℕ, ◌+◌, String, Bool, true, false, not, ◌&&◌, Option, none, some, List, [], ◌∷◌, leb, ◌==◌,
  str_eq, if◌then◌else◌, Result, ok, err,
}
use kinetic_sdk_agents.Prelude.Dict.{Dict, get, put, remove}

pub record FileLockInfo : Type 0 where
  pub path : String
  pub owner_id : String
  pub acquired_at : ℕ
  pub expires_at : Option ℕ

-- A file whose text is not a lease's is `unreadable`: one that is still being written, for example.
pub data Record : Type 0 where
  unreadable : Record
  readable : FileLockInfo → Record

abbrev pub Store : Type 0
Store = Dict Record

pub data Error : Type 0 where
  value_error path_traversal not_held not_owner : Error
  -- the holder, where the file names one
  timed_out : Option String → Error

-- `LocalWorkspace.resolve`, which asks the file system and may refuse a path, and the digest that
-- `_record_path` takes, with the settings of the constructor.
pub record FileLockRegistry : Type 0 where
  pub resolve : String → Option String
  pub record_path : String → String
  pub default_lease_seconds : Option ℕ

unfoldable pub is_expired : FileLockInfo → ℕ → Bool
is_expired info now = elim info.expires_at [ none ↦ false | some e ↦ leb e now ]

-- `==` of the data class
abbrev pub same_time : Option ℕ → Option ℕ → Bool
same_time none none = true
same_time (some a) (some b) = a == b
same_time none (some b) = false
same_time (some a) none = false

unfoldable pub same_info : FileLockInfo → FileLockInfo → Bool
same_info a b =
    str_eq a.path b.path
    && (str_eq a.owner_id b.owner_id
        && (a.acquired_at == b.acquired_at && same_time a.expires_at b.expires_at))

abbrev pub contents : Option Record → Option FileLockInfo
contents none = none
contents (some unreadable) = none
contents (some (readable info)) = some info

abbrev pub is_positive : Option ℕ → Bool
is_positive none = true
is_positive (some n) = leb 1 n

-- `None if lease_seconds is None else now + lease_seconds`
abbrev pub expiry : Option ℕ → ℕ → Option ℕ
expiry none now = none
expiry (some n) now = some (now + n)

abbrev pub or_default : Option ℕ → Option ℕ → Option ℕ
or_default none d = d
or_default (some n) d = some n

module _ (r : FileLockRegistry) where
  abbrev pub canonical : Option String → Result Error String
  canonical none = err path_traversal
  canonical (some c) = ok c

  unfoldable pub canonical_path : String → Result Error String
  canonical_path path = if str_eq path "" then err value_error else canonical (r.resolve path)

  unfoldable pub read_info : String → Store → Option FileLockInfo
  unfolding get
  read_info canonical s = contents (get (r.record_path canonical) s)

  -- `O_CREAT | O_EXCL`: only an absent file is made, and it is empty at first.
  abbrev pub created : FileLockInfo → Option Record → Store → Store × Bool
  created info (some old) s = (s, false)
  created info none s = (put (r.record_path info.path) unreadable s, true)

  unfoldable pub open_exclusive : FileLockInfo → Store → Store × Bool
  unfolding get put
  open_exclusive info s = created info (get (r.record_path info.path) s) s

  unfoldable pub write_payload : FileLockInfo → Store → Store
  unfolding put
  write_payload info s = put (r.record_path info.path) (readable info) s

  abbrev pub filled : FileLockInfo → Store × Bool → Store × Bool
  filled info (s, made) = if made then (write_payload info s, true) else (s, false)

  unfoldable pub try_create : FileLockInfo → Store → Store × Bool
  unfolding open_exclusive write_payload
  try_create info s = filled info (open_exclusive info s)

  abbrev pub removed_if : Option FileLockInfo → String → FileLockInfo → Store → Store
  removed_if none canonical expected s = s
  removed_if (some current) canonical expected s =
      if same_info current expected then remove (r.record_path canonical) s else s

  unfoldable pub remove_if_unchanged : String → FileLockInfo → Store → Store
  unfolding read_info same_info remove
  remove_if_unchanged canonical expected s = removed_if (read_info canonical s) canonical expected s

  abbrev pub unlinked : Bool → String → Store → Store × Result Error Unit
  unlinked false canonical s = (s, err not_owner)
  unlinked true canonical s = (remove (r.record_path canonical) s, ok tt)

  abbrev pub released : Option FileLockInfo → String → String → Store → Store × Result Error Unit
  released none canonical owner_id s = (s, err not_held)
  released (some info) canonical owner_id s = unlinked (str_eq info.owner_id owner_id) canonical s

  abbrev pub released_at : Result Error String → String → Store → Store × Result Error Unit
  released_at (err e) owner_id s = (s, err e)
  released_at (ok canonical) owner_id s = released (read_info canonical s) canonical owner_id s

  unfoldable pub release : String → String → Store → Store × Result Error Unit
  unfolding canonical_path read_info remove
  release path owner_id s = released_at (canonical_path path) owner_id s

  abbrev pub replaced : Bool → FileLockInfo → Store → Store × Result Error FileLockInfo
  replaced false updated s = (s, err not_owner)
  replaced true updated s = (put (r.record_path updated.path) (readable updated) s, ok updated)

  abbrev pub renewed :
      Option FileLockInfo
      → String
      → String
      → Option ℕ
      → ℕ
      → Store
      → Store × Result Error FileLockInfo
  renewed none canonical owner_id lease now s = (s, err not_owner)
  renewed (some info) canonical owner_id lease now s =
      replaced (str_eq info.owner_id owner_id)
        (record {
          path = canonical;
          owner_id = owner_id;
          acquired_at = info.acquired_at;
          expires_at = expiry lease now;
        })
        s

  abbrev pub renewed_if :
      Bool → String → String → Option ℕ → ℕ → Store → Store × Result Error FileLockInfo
  renewed_if false canonical owner_id lease now s = (s, err value_error)
  renewed_if true canonical owner_id lease now s =
      renewed (read_info canonical s) canonical owner_id lease now s

  abbrev pub renewed_at :
      Result Error String → String → Option ℕ → ℕ → Store → Store × Result Error FileLockInfo
  renewed_at (err e) owner_id lease now s = (s, err e)
  renewed_at (ok canonical) owner_id lease now s =
      renewed_if (is_positive lease) canonical owner_id lease now s

  -- `os.replace` puts the whole text in place at once.
  unfoldable pub renew : String → String → Option ℕ → ℕ → Store → Store × Result Error FileLockInfo
  unfolding canonical_path read_info put
  renew path owner_id lease_seconds now s =
      renewed_at (canonical_path path) owner_id (or_default lease_seconds r.default_lease_seconds)
        now s

  abbrev pub kept_if : Bool → String → FileLockInfo → Store → Store × Option FileLockInfo
  kept_if true canonical info s = (remove_if_unchanged canonical info s, none)
  kept_if false canonical info s = (s, some info)

  abbrev pub live_or_removed :
      Option FileLockInfo → String → ℕ → Store → Store × Option FileLockInfo
  live_or_removed none canonical now s = (s, none)
  live_or_removed (some info) canonical now s = kept_if (is_expired info now) canonical info s

  abbrev pub looked_up :
      Result Error String → ℕ → Store → Store × Result Error (Option FileLockInfo)
  looked_up (err e) now s = (s, err e)
  looked_up (ok canonical) now s =
      let (s', found) = live_or_removed (read_info canonical s) canonical now s in (s', ok found)

  unfoldable pub owner_of : String → ℕ → Store → Store × Result Error (Option FileLockInfo)
  unfolding canonical_path read_info remove_if_unchanged is_expired
  owner_of path now s = looked_up (canonical_path path) now s
