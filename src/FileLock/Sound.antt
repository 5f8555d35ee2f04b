-- ===== src/FileLock/Sound.antt =====
-- Each step of kinetic_sdk/subagent/filelock.py keeps leases backed by their files.
use kinetic_sdk_agents.Prelude.{
  ℕ, ◌≤◌, ◌≡◌, refl, sym, subst, ◌∙◌, String, Bool, true, false, Option, none, some, str_eq, eq_iff,
  if◌then◌else◌, arith,
}
use kinetic_sdk_agents.Prelude.Dict.{get, put, remove, get-put-here, get-remove-here}
use kinetic_sdk_agents.FileLock.{
  FileLockInfo, FileLockRegistry, Record, unreadable, readable, Store, is_expired, same_info,
  unlinked, replaced, released, renewed, expiry, contents, created, removed_if, read_info,
  open_exclusive, remove_if_unchanged,
}
use kinetic_sdk_agents.FileLock.Steps.{System, after_release, after_renew}
use kinetic_sdk_agents.FileLock.Backed.{
  Before, expired-Before, Guarded, kept-All, without-All, put-elsewhere, remove-elsewhere, Unread,
  kept-Unread, Sound, same_info-expires_at,
}

-- What stands in a file stands there for the owner it names.
own-Guarded :
    (file owner_id : String) (s : Store) (i : FileLockInfo)
    → get file s ≡ some (readable i)
    → str_eq i.owner_id owner_id ≡ true
    → (other : String) (t : ℕ) (now : ℕ) → now ≤ t
    → Guarded (get file s) other t
    → other ≡ owner_id
own-Guarded file owner_id s i e same other t now later g =
    sym (subst (λ x. Guarded x other t) e g).0 ∙ (eq_iff i.owner_id owner_id).0 same

module _ (r : FileLockRegistry) where
  pub open-Sound :
      (s : System) (info : FileLockInfo)
      → (open_exclusive r info s.store).1 ≡ true
      → Sound s
      → Sound (record s {
        store = (open_exclusive r info s.store).0;
        writing = put (r.record_path info.path) info s.writing;
      })
  unfolding open_exclusive
  open-Sound s info made (backed, writing) = go (get (r.record_path info.path) s.store) refl made
    where
      go :
          (o : Option Record)
          → get (r.record_path info.path) s.store ≡ o
          → (created r info o s.store).1 ≡ true
          → Sound (record s {
            store = (created r info o s.store).0;
            writing = put (r.record_path info.path) info s.writing;
          })
      go (some old) e no_ = let clash : ⊥ = cc in elim clash [ ]
      go none e yes_ = (
        kept-All s.now (r.record_path info.path) s.store
            (put (r.record_path info.path) unreadable s.store) s.leases
            (put-elsewhere (r.record_path info.path) unreadable s.store)
            (λ o t later g. subst (λ x. Guarded x o t) e g) backed,
        kept-Unread (r.record_path info.path) s.writing
            (put (r.record_path info.path) info s.writing) s.store
            (put (r.record_path info.path) unreadable s.store)
            (put-elsewhere (r.record_path info.path) unreadable s.store)
            (put-elsewhere (r.record_path info.path) info s.writing)
            (λ i e'. get-put-here (r.record_path info.path) unreadable s.store) writing,
      )

  -- The end of a write, whether it puts the text in place or removes the file.
  pub write-Sound :
      (s : System) (info : FileLockInfo) (new : Store)
      → ((g : String) → str_eq (r.record_path info.path) g ≡ false → get g new ≡ get g s.store)
      → get (r.record_path info.path) s.writing ≡ some info
      → Sound s
      → Sound (record s { store = new; writing = remove (r.record_path info.path) s.writing })
  write-Sound s info new same e (backed, writing) = (
    kept-All s.now (r.record_path info.path) s.store new s.leases same
        (λ o t later g. subst (λ x. Guarded x o t) (writing (r.record_path info.path) info e) g)
        backed,
    kept-Unread (r.record_path info.path) s.writing (remove (r.record_path info.path) s.writing)
        s.store new same (remove-elsewhere (r.record_path info.path) s.writing)
        (λ i e'.
          let gone : get (r.record_path info.path) (remove (r.record_path info.path) s.writing)
              ≡ none =
            get-remove-here (r.record_path info.path) s.writing in
          cc)
        writing,
  )

  -- A change of a file that could be read.
  change-Unread :
      (s : System) (file : String) (i : FileLockInfo) (new : Store)
      → get file s.store ≡ some (readable i)
      → ((g : String) → str_eq file g ≡ false → get g new ≡ get g s.store)
      → Unread s.writing s.store
      → Unread s.writing new
  change-Unread s file i new e same writing =
      kept-Unread file s.writing s.writing s.store new same (λ g e'. refl)
        (λ j e'. let u : get file s.store ≡ some unreadable = writing file j e' in cc) writing

  pub reclaim-Sound :
      (s : System) (canonical : String) (info : FileLockInfo) (t : ℕ)
      → t ≤ s.now
      → is_expired info t ≡ true
      → Sound s
      → Sound (record s { store = remove_if_unchanged r canonical info s.store })
  unfolding remove_if_unchanged read_info
  reclaim-Sound s canonical info t past expired (backed, writing) =
      go (get (r.record_path canonical) s.store) refl
    where
      removed :
          (i : FileLockInfo)
          → get (r.record_path canonical) s.store ≡ some (readable i)
          → i.expires_at ≡ info.expires_at
          → Sound (record s { store = remove (r.record_path canonical) s.store })
      removed i e e' = (
        kept-All s.now (r.record_path canonical) s.store (remove (r.record_path canonical) s.store)
            s.leases (remove-elsewhere (r.record_path canonical) s.store)
            (λ o u later g.
              expired-Before info t u expired (omega arith)
                (subst (λ x. Before u x) e' (subst (λ x. Guarded x o u) e g).1))
            backed,
        change-Unread s (r.record_path canonical) i (remove (r.record_path canonical) s.store) e
            (remove-elsewhere (r.record_path canonical) s.store) writing,
      )

      go :
          (o : Option Record)
          → get (r.record_path canonical) s.store ≡ o
          → Sound (record s { store = removed_if r (contents o) canonical info s.store })
      go none e = (backed, writing)
      go (some unreadable) e = (backed, writing)
      go (some (readable i)) e = same (same_info i info) refl
        where
          same :
              (b : Bool)
              → same_info i info ≡ b
              → Sound (record s {
                store = if b then remove (r.record_path canonical) s.store else s.store;
              })
          same false e' = (backed, writing)
          same true e' = removed i e (same_info-expires_at i info e')

  pub release-Sound :
      (s : System) (canonical owner_id : String)
      → Sound s
      → Sound (record s {
        store = (released r (read_info r canonical s.store) canonical owner_id s.store).0;
        leases =
            after_release
              (released r (read_info r canonical s.store) canonical owner_id s.store).1
              (r.record_path canonical)
              owner_id
              s.leases;
      })
  unfolding read_info
  release-Sound s canonical owner_id (backed, writing) =
      go (get (r.record_path canonical) s.store) refl
    where
      go :
          (o : Option Record)
          → get (r.record_path canonical) s.store ≡ o
          → Sound (record s {
            store = (released r (contents o) canonical owner_id s.store).0;
            leases =
                after_release
                  (released r (contents o) canonical owner_id s.store).1
                  (r.record_path canonical)
                  owner_id
                  s.leases;
          })
      go none e = (backed, writing)
      go (some unreadable) e = (backed, writing)
      go (some (readable i)) e = owned (str_eq i.owner_id owner_id) refl
        where
          owned :
              (b : Bool)
              → str_eq i.owner_id owner_id ≡ b
              → Sound (record s {
                store = (unlinked r b canonical s.store).0;
                leases =
                    after_release
                      (unlinked r b canonical s.store).1
                      (r.record_path canonical)
                      owner_id
                      s.leases;
              })
          owned false e' = (backed, writing)
          owned true e' = (
            without-All s.now (r.record_path canonical) owner_id s.store
                (remove (r.record_path canonical) s.store) s.leases
                (remove-elsewhere (r.record_path canonical) s.store)
                (λ other t later g.
                  own-Guarded (r.record_path canonical) owner_id s.store i e e' other t s.now later
                    g)
                backed,
            change-Unread s (r.record_path canonical) i (remove (r.record_path canonical) s.store) e
                (remove-elsewhere (r.record_path canonical) s.store) writing,
          )

  pub renew-Sound :
      (s : System) (canonical owner_id : String) (lease : Option ℕ) (t : ℕ)
      → Sound s
      → Sound (record s {
        store = (renewed r (read_info r canonical s.store) canonical owner_id lease t s.store).0;
        leases =
            after_renew
              (renewed r (read_info r canonical s.store) canonical owner_id lease t s.store).1
              (r.record_path canonical)
              owner_id
              s.leases;
      })
  unfolding read_info
  renew-Sound s canonical owner_id lease t (backed, writing) =
      go (get (r.record_path canonical) s.store) refl
    where
      update : FileLockInfo → FileLockInfo
      update i = record {
        path = canonical;
        owner_id = owner_id;
        acquired_at = i.acquired_at;
        expires_at = expiry lease t;
      }

      go :
          (o : Option Record)
          → get (r.record_path canonical) s.store ≡ o
          → Sound (record s {
            store = (renewed r (contents o) canonical owner_id lease t s.store).0;
            leases =
                after_renew
                  (renewed r (contents o) canonical owner_id lease t s.store).1
                  (r.record_path canonical)
                  owner_id
                  s.leases;
          })
      go none e = (backed, writing)
      go (some unreadable) e = (backed, writing)
      go (some (readable i)) e = owned (str_eq i.owner_id owner_id) refl
        where
          new : Store
          new = put (r.record_path canonical) (readable (update i)) s.store

          owned :
              (b : Bool)
              → str_eq i.owner_id owner_id ≡ b
              → Sound (record s {
                store = (replaced r b (update i) s.store).0;
                leases =
                    after_renew
                      (replaced r b (update i) s.store).1
                      (r.record_path canonical)
                      owner_id
                      s.leases;
              })
          owned false e' = (backed, writing)
          owned true e' = (
            (
              λ u later before.
                  subst (λ x. Guarded x owner_id u)
                    (sym (get-put-here (r.record_path canonical) (readable (update i)) s.store))
                    (refl, before),
              without-All s.now (r.record_path canonical) owner_id s.store new s.leases
                  (put-elsewhere (r.record_path canonical) (readable (update i)) s.store)
                  (λ other u later g.
                    own-Guarded (r.record_path canonical) owner_id s.store i e e' other u s.now
                      later g)
                  backed,
            ),
            change-Unread s (r.record_path canonical) i new e
                (put-elsewhere (r.record_path canonical) (readable (update i)) s.store) writing,
          )
