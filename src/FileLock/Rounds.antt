-- ===== src/FileLock/Rounds.antt =====
-- What one round of `acquire` in kinetic_sdk/subagent/filelock.py comes to.
use kinetic_sdk_agents.Prelude.{
  ℕ, ◌≡◌, refl, sym, subst, ap, ◌∙◌, ◌⊎◌, inl, inr, String, Bool, true, false, Option, none, some,
  str_eq, str_eq_refl, eq_iff, if◌then◌else◌, arith,
}
use kinetic_sdk_agents.Prelude.Dict.{get, put, get-put-here, get-remove-here}
use kinetic_sdk_agents.FileLock.{
  FileLockInfo, FileLockRegistry, Record, unreadable, readable, Store, is_expired, same_info,
  same_time, expiry, contents, created, filled, read_info, try_create, remove_if_unchanged,
}
use kinetic_sdk_agents.FileLock.Acquire.{Attempt, acquired, reclaimed, held, judged, attempt}

same_time_refl : (t : Option ℕ) → same_time t t ≡ true
same_time_refl none = refl
same_time_refl (some n) = ground arith

same_info_refl : (i : FileLockInfo) → same_info i i ≡ true
unfolding same_info
same_info_refl i =
    ground (arith, str_eq_refl i.path, str_eq_refl i.owner_id, same_time_refl i.expires_at)

module _ (r : FileLockRegistry) where
  -- The file of a path names an owner.
  abbrev pub Owned : Store → String → String → Type 0
  Owned s canonical owner_id =
      (info : FileLockInfo) × (read_info r canonical s ≡ some info) × (info.owner_id ≡ owner_id)

  -- The lease that an acquisition at a time writes.
  abbrev pub fresh : String → String → Option ℕ → ℕ → FileLockInfo
  fresh canonical owner_id lease now = record {
    path = canonical;
    owner_id = owner_id;
    acquired_at = now;
    expires_at = expiry lease now;
  }

  -- A new lease was written, or the owner's own record was found, which stays as it is, expired or
  -- not.
  abbrev pub Leased : String → String → Option ℕ → ℕ → Store → Store → Type 0
  Leased canonical owner_id lease now s s' =
      (read_info r canonical s' ≡ some (fresh canonical owner_id lease now))
      ⊎ ((info : FileLockInfo) × (get (r.record_path canonical) s ≡ some (readable info))
          × (info.owner_id ≡ owner_id)
          × (s' ≡ s))

  -- No other agent's lease stands in the way at a time: nothing does, or the owner's own lease,
  -- or one that has expired. A file that cannot be read does stand in the way.
  abbrev pub Free : Option Record → String → ℕ → Type 0
  Free none owner_id now = Unit
  Free (some unreadable) owner_id now = ⊥
  Free (some (readable info)) owner_id now =
      (str_eq info.owner_id owner_id ≡ true) ⊎ (is_expired info now ≡ true)

  -- What a round can come to: the lease, an emptied place, or a holder in the way.
  abbrev pub Came : String → String → Option ℕ → ℕ → Store → Store × Attempt → Type 0
  Came canonical owner_id lease now s (s', acquired) = Leased canonical owner_id lease now s s'
  Came canonical owner_id lease now s (s', reclaimed) =
      (get (r.record_path canonical) s' ≡ none)
      × ((i : FileLockInfo) × (get (r.record_path canonical) s ≡ some (readable i)))
  Came canonical owner_id lease now s (s', held holder) =
      Free (get (r.record_path canonical) s) owner_id now → ⊥

  removed-absent :
      (canonical : String) (i : FileLockInfo) (s : Store)
      → get (r.record_path canonical) s ≡ some (readable i)
      → get (r.record_path canonical) (remove_if_unchanged r canonical i s) ≡ none
  unfolding remove_if_unchanged read_info
  removed-absent canonical i s e =
      rw e (rw (same_info_refl i) (get-remove-here (r.record_path canonical) s))

  judged-Came :
      (canonical owner_id : String) (lease : Option ℕ) (now : ℕ) (s : Store) (i : FileLockInfo)
      → get (r.record_path canonical) s ≡ some (readable i)
      → Came canonical owner_id lease now s (judged r (some i) canonical owner_id now s)
  unfolding read_info
  judged-Came canonical owner_id lease now s i e =
      own (str_eq i.owner_id owner_id) (is_expired i now) refl refl
    where
      own :
          (b c : Bool)
          → str_eq i.owner_id owner_id ≡ b
          → is_expired i now ≡ c
          → Came canonical owner_id lease now s (
              if b
              then (s, acquired)
              else (if c
                  then (remove_if_unchanged r canonical i s, reclaimed)
                  else (s, held (some i.owner_id))))
      own true c same e' = inr (i, e, (eq_iff i.owner_id owner_id).0 same, refl)
      own false true other e' = (removed-absent canonical i s e, (i, e))
      own false false other e' = rw e (λ f. elim f [ inl a ↦ cc | inr b ↦ cc ])

  attempt-there :
      (canonical owner_id : String) (lease : Option ℕ) (now : ℕ) (s : Store) (i : FileLockInfo)
      → get (r.record_path canonical) s ≡ some (readable i)
      → attempt r canonical owner_id lease now s ≡ judged r (some i) canonical owner_id now s
  unfolding attempt try_create read_info
  attempt-there canonical owner_id lease now s i e =
      ap
        (λ o.
          let (s', made) = filled r info (created r info o s) in
          if made
          then (s', acquired)
          else judged r (read_info r canonical s') canonical owner_id now s')
        e
      ∙ ap (λ o. judged r (contents o) canonical owner_id now s) e
    where
      info : FileLockInfo
      info = record {
        path = canonical;
        owner_id = owner_id;
        acquired_at = now;
        expires_at = expiry lease now;
      }

  pub attempt-Came :
      (canonical owner_id : String) (lease : Option ℕ) (now : ℕ) (s : Store)
      → Came canonical owner_id lease now s (attempt r canonical owner_id lease now s)
  unfolding attempt try_create read_info
  attempt-Came canonical owner_id lease now s = go (get (r.record_path canonical) s) refl
    where
      info : FileLockInfo
      info = record {
        path = canonical;
        owner_id = owner_id;
        acquired_at = now;
        expires_at = expiry lease now;
      }

      go :
          (o : Option Record)
          → get (r.record_path canonical) s ≡ o
          → Came canonical owner_id lease now s (attempt r canonical owner_id lease now s)
      go none e = rw e (
          inl (
            ap contents (
              get-put-here (r.record_path canonical) (readable info)
                (put (r.record_path canonical) unreadable s))))
      go (some unreadable) e = rw e (rw e (λ f. subst (λ o. Free o owner_id now) e f))
      go (some (readable i)) e =
          subst (λ a. Came canonical owner_id lease now s a)
            (sym (attempt-there canonical owner_id lease now s i e))
            (judged-Came canonical owner_id lease now s i e)

  -- In both cases the file names the owner.
  pub Leased-owner :
      (canonical owner_id : String) (lease : Option ℕ) (now : ℕ) (s s' : Store)
      → Leased canonical owner_id lease now s s'
      → Owned s' canonical owner_id
  unfolding read_info
  Leased-owner canonical owner_id lease now s s' (inl e) =
      (fresh canonical owner_id lease now, e, refl)
  Leased-owner canonical owner_id lease now s s' (inr (info, there, own, same)) =
      (info, ap contents (ap (get (r.record_path canonical)) same ∙ there), own)
