-- ===== src/Tests/Locks.antt =====
-- Runs of kinetic_sdk/subagent/filelock.py.
use kinetic_sdk_agents.Prelude.{ℕ, suc, String, ◌≡◌, refl, none, some, [], ◌∷◌, ok, err, arith}
use kinetic_sdk_agents.Prelude.Dict.{remove}
use kinetic_sdk_agents.FileLock.{
  FileLockInfo, FileLockRegistry, Record, readable, unreadable, Store, timed_out, release,
  not_owner,
}
use kinetic_sdk_agents.FileLock.Acquire.{Host, acquired, reclaimed, attempt, acquire_loop, acquire}
use kinetic_sdk_agents.FileLock.Listing.{release_all}
use kinetic_sdk_agents.FileLock.Liveness.{Ticks, Ended, acquire_loop-Ended}
use kinetic_sdk_agents.FileLock.Steps.{Lease, System}

abbrev locks : FileLockRegistry
locks = record { resolve = λ p. some p; record_path = λ p. p; default_lease_seconds = some 300 }

-- A clock that a sleep moves by one, and nobody else about.
abbrev host : Host ℕ
host = record { time = λ w. (w, w); monotonic = λ w. (w, w); sleep = λ s w. (s, suc w) }

host-Ticks : Ticks host (λ w. w)
host-Ticks = record {
  reads = λ w. (refl, omega arith);
  kept = λ w. omega arith;
  moved = λ s w. omega arith;
}

abbrev lease : FileLockInfo
lease = record { path = "f"; owner_id = "a"; acquired_at = 0; expires_at = some 5 }

abbrev held_by_a : Store
held_by_a = ("f", readable lease) ∷ []

-- "b" waits for "a" until its deadline, or until the lease expires.
waits :
    acquire locks host 9 "f" "b" (some 2) none held_by_a 0
    ≡ some (held_by_a, 2, err (timed_out (some "a")))
unfolding acquire
waits = refl

takes_over :
    acquire locks host 9 "f" "b" (some 9) (some 7) held_by_a 0
    ≡ some (
      ("f", readable (record { path = "f"; owner_id = "b"; acquired_at = 5; expires_at = some 12 }))
          ∷ [],
      5,
      ok "f",
    )
unfolding acquire
takes_over = refl

stranger : release locks "f" "b" held_by_a ≡ (held_by_a, err not_owner)
unfolding release
stranger = refl

-- An owner that comes back after its lease expired is let in, and the next agent takes the file.
not_renewed :
    (attempt locks "f" "a" (some 7) 6 held_by_a ≡ (held_by_a, acquired))
    × (attempt locks "f" "b" (some 7) 6 held_by_a ≡ ([], reclaimed))
unfolding attempt
not_renewed = (refl, refl)

abbrev lock_of : String → String → ℕ → String × Record
lock_of path owner_id e = (
  path,
  readable (record { path = path; owner_id = owner_id; acquired_at = 0; expires_at = some e }),
)

abbrev several : Store
several = lock_of "g" "a" 9 ∷ lock_of "f" "a" 9 ∷ lock_of "e" "a" 3 ∷ lock_of "h" "b" 9 ∷ []

-- At time 5, one of the three locks of "a" has expired.
releases_two : release_all locks (λ i. 5) "a" several ≡ (lock_of "h" "b" 9 ∷ [], 2)
unfolding release_all
releases_two = refl

-- Two processes see the same expired record, and each compares it before either unlinks it: the
-- first unlinks it and makes its own, which the second then unlinks. Both were let in.
abbrev first_in : Store
first_in = (attempt locks "f" "b" (some 7) 6 []).0

both_in :
    ((attempt locks "f" "b" (some 7) 6 []).1 ≡ acquired)
    × ((attempt locks "f" "c" (some 7) 6 (remove "f" first_in)).1 ≡ acquired)
unfolding attempt remove
both_in = (refl, refl)

-- A file whose writing was cut off is never reclaimed.
never_reclaimed :
    acquire locks host 9 "f" "b" (some 2) none (("f", unreadable) ∷ []) 0
    ≡ some (("f", unreadable) ∷ [], 2, err (timed_out none))
unfolding acquire
never_reclaimed = refl

acquire_loop-Ended_example :
    Ended locks host
      (λ w. w)
      "f"
      "b"
      2
      (acquire_loop locks host 4 "f" "b" (some 7) (some 2) held_by_a 0)
acquire_loop-Ended_example =
    acquire_loop-Ended locks host (λ w. w) 2 "f" "b" (some 7) 2 held_by_a 0 host-Ticks (omega arith)

abbrev lease_of_a : Lease
lease_of_a = record { file = "f"; owner_id = "a"; expires_at = some 5 }

abbrev twice : System
twice = record { store = held_by_a; writing = []; now = 0; leases = lease_of_a ∷ lease_of_a ∷ [] }
