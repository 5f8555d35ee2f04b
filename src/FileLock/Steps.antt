-- ===== src/FileLock/Steps.antt =====
-- The calls of a kinetic_sdk/subagent/filelock.py registry by agents that share it, each of them in
-- its atomic parts: the registry's mutex and `O_EXCL` make these parts indivisible for the threads
-- of one process. Beside the files there is what the agents were told: their leases.
use kinetic_sdk_agents.Prelude.{
  ℕ, ◌≤◌, ◌≡◌, String, true, ◌&&◌, Option, some, List, [], ◌∷◌, str_eq, if◌then◌else◌, Result, ok,
  err,
}
use kinetic_sdk_agents.Prelude.Dict.{Dict, get, put, remove}
use kinetic_sdk_agents.FileLock.{
  FileLockInfo, FileLockRegistry, Store, Error, is_expired, canonical_path, read_info,
  open_exclusive, write_payload, remove_if_unchanged, release, renew, owner_of,
}

-- A lease on a file of the directory, as its owner knows it.
pub record Lease : Type 0 where
  pub file : String
  pub owner_id : String
  pub expires_at : Option ℕ

-- `writing` has the files that were opened and not yet written, and by what they will be.
pub record System : Type 0 where
  pub store : Store
  pub writing : Dict FileLockInfo
  pub now : ℕ
  pub leases : List Lease

-- A release ends every lease of its owner on the file: there is no count of them.
unfoldable pub without : String → String → List Lease → List Lease
without file owner_id [] = []
without file owner_id (l ∷ ls) =
    let rest = without file owner_id ls in
    if str_eq l.file file && str_eq l.owner_id owner_id then rest else l ∷ rest

abbrev pub after_release : Result Error Unit → String → String → List Lease → List Lease
after_release (err e) file owner_id ls = ls
after_release (ok u) file owner_id ls = without file owner_id ls

abbrev pub after_renew : Result Error FileLockInfo → String → String → List Lease → List Lease
after_renew (err e) file owner_id ls = ls
after_renew (ok info) file owner_id ls =
    record { file = file; owner_id = owner_id; expires_at = info.expires_at }
    ∷ without file owner_id ls

module _ (r : FileLockRegistry) where
  abbrev pub lease_of : FileLockInfo → Lease
  lease_of info = record {
    file = r.record_path info.path;
    owner_id = info.owner_id;
    expires_at = info.expires_at;
  }

  -- A clock reading that a call uses may be older than the step it leads to.
  pub data Step : System → System → Type 0 where
    passed : {s : System} → (t : ℕ) → s.now ≤ t → Step s (record s { now = t })
    opened :
        {s : System}
        → (info : FileLockInfo) → (open_exclusive r info s.store).1 ≡ true
        → Step s (record s {
          store = (open_exclusive r info s.store).0;
          writing = put (r.record_path info.path) info s.writing;
        })
    wrote :
        {s : System}
        → (info : FileLockInfo) → get (r.record_path info.path) s.writing ≡ some info
        → Step s (record s {
          store = write_payload r info s.store;
          writing = remove (r.record_path info.path) s.writing;
          leases = lease_of info ∷ s.leases;
        })
    -- the write failed, and the file is removed
    gave_up :
        {s : System}
        → (info : FileLockInfo) → get (r.record_path info.path) s.writing ≡ some info
        → Step s (record s {
          store = remove (r.record_path info.path) s.store;
          writing = remove (r.record_path info.path) s.writing;
        })
    -- `acquire` by the owner that the file names
    entered :
        {s : System}
        → (canonical : String) (info : FileLockInfo) → read_info r canonical s.store ≡ some info
        → Step s (record s {
          leases =
              record {
                file = r.record_path canonical;
                owner_id = info.owner_id;
                expires_at = info.expires_at;
              }
              ∷ s.leases;
        })
    -- `acquire`, `owner_of` and `locked_paths`, after they read an expired record
    reclaimed :
        {s : System}
        → (canonical : String) (info : FileLockInfo) (t : ℕ) → t ≤ s.now
        → is_expired info t ≡ true
        → Step s (record s { store = remove_if_unchanged r canonical info s.store })
    released :
        {s : System}
        → (path canonical owner_id : String) → canonical_path r path ≡ ok canonical
        → Step s (record s {
          store = (release r path owner_id s.store).0;
          leases =
              after_release
                (release r path owner_id s.store).1
                (r.record_path canonical)
                owner_id
                s.leases;
        })
    renewed :
        {s : System}
        → (path canonical owner_id : String) (lease : Option ℕ) (t : ℕ)
        → canonical_path r path ≡ ok canonical
        → Step s (record s {
          store = (renew r path owner_id lease t s.store).0;
          leases =
              after_renew
                (renew r path owner_id lease t s.store).1
                (r.record_path canonical)
                owner_id
                s.leases;
        })
    looked :
        {s : System}
        → (path : String) (t : ℕ) → t ≤ s.now
        → Step s (record s { store = (owner_of r path t s.store).0 })

  abbrev pub start : ℕ → System
  start now = record { store = []; writing = []; now = now; leases = [] }

  -- What any number of agents can do, in any order.
  pub data Reachable : System → Type 0 where
    started : (now : ℕ) → Reachable (start now)
    stepped : {s s' : System} → Reachable s → Step s s' → Reachable s'
