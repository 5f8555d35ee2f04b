-- ===== src/FileLock/Liveness.antt =====
-- `acquire` of kinetic_sdk/subagent/filelock.py ends, and gets what is free.
use kinetic_sdk_agents.Prelude.{
  inl, inr, ℕ, zero, suc, ◌+◌, ◌≤◌, ◌<◌, ◌≡◌, refl, String, Bool, true, false, Option, none, some,
  leb, leb→le, ok, err, arith,
}
use kinetic_sdk_agents.Prelude.Dict.{get}
use kinetic_sdk_agents.FileLock.{FileLockRegistry, Store, timed_out}
use kinetic_sdk_agents.FileLock.Acquire.{
  Host, Attempt, acquired, reclaimed, held, attempt, Acquisition, next, waited, acquire_loop,
}
use kinetic_sdk_agents.FileLock.Rounds.{Owned, Leased, Leased-owner, Came, attempt-Came}

-- The monotonic clock's reading of a state: it never goes back, and a sleep moves it on.
pub record Ticks {W : Type 0} (h : Host W) (reading : W → ℕ) : Type 0 where
  pub reads : (w : W) → ((h.monotonic w).0 ≡ reading w) × (reading w ≤ reading (h.monotonic w).1)
  pub kept : (w : W) → reading w ≤ reading (h.time w).1
  pub moved : (s : Store) (w : W) → reading w < reading (h.sleep s w).1

module _ {W : Type 0} (r : FileLockRegistry) (h : Host W) where
  -- A lease was taken: the file has a new one from a reading of the clock on, or the owner's own
  -- record, as it was in an earlier store.
  abbrev pub Taken : String → String → Option ℕ → Store → Option (Acquisition r h) → Type 0
  Taken canonical owner_id lease s0 none = ⊥
  Taken canonical owner_id lease s0 (some (s, w, err e)) = ⊥
  Taken canonical owner_id lease s0 (some (s, w, ok c)) =
      (c ≡ canonical) × ((w' : W) × Leased r canonical owner_id lease (h.time w').0 s0 s)

  acquire_loop-absent :
      (fuel : ℕ) (canonical owner_id : String) (lease deadline : Option ℕ) (s0 s : Store) (w : W)
      → get (r.record_path canonical) s ≡ none
      → Taken canonical owner_id lease s0
          (acquire_loop r h (suc fuel) canonical owner_id lease deadline s w)
  unfolding acquire_loop
  acquire_loop-absent fuel canonical owner_id lease deadline s0 s w e =
      go (attempt r canonical owner_id lease (h.time w).0 s)
        (attempt-Came r canonical owner_id lease (h.time w).0 s)
    where
      go :
          (a : Store × Attempt)
          → Came r canonical owner_id lease (h.time w).0 s a
          → Taken canonical owner_id lease s0 (
              next r h a.1 canonical deadline a.0
                (h.time w).1
                (acquire_loop r h fuel canonical owner_id lease deadline))
      go (s', acquired) (inl new) = (refl, (w, inl new))
      go (s', acquired) (inr (info, there, own, same)) = let clash : ⊥ = cc in elim clash [ ]
      go (s', reclaimed) (gone, (i, there)) = let clash : ⊥ = cc in elim clash [ ]
      go (s', held holder) blocked_ = elim (blocked_ (rw e tt)) [ ]

  -- A lease, or a timeout that is not early.
  abbrev pub Ended : (W → ℕ) → String → String → ℕ → Option (Acquisition r h) → Type 0
  Ended reading canonical owner_id d none = ⊥
  Ended reading canonical owner_id d (some (s, w, err e)) =
      ((holder : Option String) × (e ≡ timed_out holder)) × (d ≤ reading w)
  Ended reading canonical owner_id d (some (s, w, ok c)) =
      (c ≡ canonical) × Owned r s canonical owner_id

  Taken-Ended :
      (reading : W → ℕ) (canonical owner_id : String) (lease : Option ℕ) (s0 : Store) (d : ℕ)
      (o : Option (Acquisition r h))
      → Taken canonical owner_id lease s0 o
      → Ended reading canonical owner_id d o
  Taken-Ended reading canonical owner_id lease s0 d none t = t
  Taken-Ended reading canonical owner_id lease s0 d (some (s, w, err e)) t = elim t [ ]
  Taken-Ended reading canonical owner_id lease s0 d (some (s, w, ok c)) (e, (w', t)) =
      (e, Leased-owner r canonical owner_id lease (h.time w').0 s0 s t)

  -- One round before a deadline, where a later round ends as well.
  round-Ended :
      (reading : W → ℕ) (fuel : ℕ) (canonical owner_id : String) (lease : Option ℕ) (d : ℕ)
      (s : Store) (w : W)
      → Ticks h reading
      → ((s' : Store) (w' : W)
          → reading w < d
          → reading w < reading w'
          → Ended reading canonical owner_id d
              (acquire_loop r h (suc fuel) canonical owner_id lease (some d) s' w'))
      → Ended reading canonical owner_id d
          (acquire_loop r h (suc (suc fuel)) canonical owner_id lease (some d) s w)
  unfolding acquire_loop
  round-Ended reading fuel canonical owner_id lease d s w ticks later =
      go (attempt r canonical owner_id lease (h.time w).0 s)
        (attempt-Came r canonical owner_id lease (h.time w).0 s)
    where
      waits :
          (b : Bool) (holder : Option String) (s' : Store)
          → leb d (h.monotonic (h.time w).1).0 ≡ b
          → Ended reading canonical owner_id d (
              waited r h b holder s'
                (h.monotonic (h.time w).1).1
                (acquire_loop r h (suc fuel) canonical owner_id lease (some d)))
      waits true holder s' due = (
        (holder, refl),
        omega (arith, leb→le d (h.monotonic (h.time w).1).0 due, ticks.reads (h.time w).1),
      )
      waits false holder s' early =
          later (h.sleep s' (h.monotonic (h.time w).1).1).0
            (h.sleep s' (h.monotonic (h.time w).1).1).1
            (ground (arith, ticks.reads (h.time w).1, ticks.kept w))
            (omega (
              arith,
              ticks.reads (h.time w).1,
              ticks.kept w,
              ticks.moved s' (h.monotonic (h.time w).1).1,
            ))

      go :
          (a : Store × Attempt)
          → Came r canonical owner_id lease (h.time w).0 s a
          → Ended reading canonical owner_id d (
              next r h a.1 canonical
                (some d)
                a.0
                (h.time w).1
                (acquire_loop r h (suc fuel) canonical owner_id lease (some d)))
      go (s', acquired) owned =
          (refl, Leased-owner r canonical owner_id lease (h.time w).0 s s' owned)
      go (s', reclaimed) (gone, (i, there)) =
          Taken-Ended reading canonical owner_id lease s d
            (acquire_loop r h (suc fuel) canonical owner_id lease (some d) s' (h.time w).1)
            (acquire_loop-absent fuel canonical owner_id lease (some d) s s' (h.time w).1 gone)
      go (s', held holder) blocked_ = waits (leb d (h.monotonic (h.time w).1).0) holder s' refl

  -- Whatever the other agents do while it sleeps, `acquire` with a deadline ends: `n + 2` rounds are
  -- enough where the deadline is at most `n` ahead of the monotonic clock. It ends with the lease,
  -- or with a timeout that is not early.
  pub acquire_loop-Ended :
      (reading : W → ℕ) (n : ℕ) (canonical owner_id : String) (lease : Option ℕ) (d : ℕ) (s : Store)
      (w : W)
      → Ticks h reading
      → d ≤ reading w + n
      → Ended reading canonical owner_id d
          (acquire_loop r h (suc (suc n)) canonical owner_id lease (some d) s w)
  acquire_loop-Ended reading zero canonical owner_id lease d s w ticks near =
      round-Ended reading 0 canonical owner_id lease d s w ticks
        (λ s' w' before later. let clash : ⊥ = omega arith in elim clash [ ])
  acquire_loop-Ended reading (suc n) canonical owner_id lease d s w ticks near =
      round-Ended reading (suc n) canonical owner_id lease d s w ticks (λ s' w' before later.
        acquire_loop-Ended reading n canonical owner_id lease d s' w' ticks (omega arith))
