-- ===== src/FileLock/Backed.antt =====
-- When a change of the files of kinetic_sdk/subagent/filelock.py keeps what leases rest on.
use kinetic_sdk_agents.Prelude.{
  ℕ, suc, ◌≤◌, ◌≡◌, refl, sym, subst, ap, ◌∙◌, inl, inr, String, Bool, true, false, ◌&&◌, ◌==◌,
  Option, none, some, List, [], ◌∷◌, All, leb, str_eq, eq_iff, if◌then◌else◌, Bool-cases, arith,
}
use kinetic_sdk_agents.Prelude.Dict.{Dict, get, put, remove, get-put, get-remove}
use kinetic_sdk_agents.FileLock.{
  FileLockInfo, Record, unreadable, readable, Store, is_expired, same_info, same_time,
}
use kinetic_sdk_agents.FileLock.Steps.{Lease, System, without}

-- A time at which an expiry has not come.
abbrev pub Before : ℕ → Option ℕ → Type 0
Before t none = Unit
Before t (some e) = suc t ≤ e

pub expired-Before :
    (i : FileLockInfo) (t u : ℕ) → is_expired i t ≡ true → t ≤ u → Before u i.expires_at → ⊥
unfolding is_expired
expired-Before i t u h later before = go i.expires_at h before
  where
    go : (e : Option ℕ) → (elim e [ none ↦ false | some e' ↦ leb e' t ]) ≡ true → Before u e → ⊥
    go none h' b = cc
    go (some e) h' b = ground arith

-- A file that an owner's lease stands in until a time.
abbrev pub Guarded : Option Record → String → ℕ → Type 0
Guarded none owner_id t = ⊥
Guarded (some unreadable) owner_id t = ⊥
Guarded (some (readable i)) owner_id t = (i.owner_id ≡ owner_id) × Before t i.expires_at

-- From now on a lease is in its file, for as long as it lasts.
abbrev pub Backed : ℕ → Store → Lease → Type 0
Backed now s l = (t : ℕ) → now ≤ t → Before t l.expires_at → Guarded (get l.file s) l.owner_id t

-- A change of one file keeps a lease backed, where the lease did not stand in that file.
kept-Backed :
    (now : ℕ) (file : String) (old new : Store) (l : Lease)
    → ((g : String) → str_eq file g ≡ false → get g new ≡ get g old)
    → ((t : ℕ) → now ≤ t → l.file ≡ file → Guarded (get file old) l.owner_id t → ⊥)
    → Backed now old l
    → Backed now new l
kept-Backed now file old new l same apart backed t later before =
    elim (Bool-cases (str_eq file l.file)) [
      | inl here ↦
          let e : l.file ≡ file = sym ((eq_iff file l.file).0 here) in
          elim (apart t later e
            (subst (λ g. Guarded (get g old) l.owner_id t) e (backed t later before))) [ ]
      | inr other ↦
          subst (λ o. Guarded o l.owner_id t) (sym (same l.file other)) (backed t later before)
    ]

pub kept-All :
    (now : ℕ) (file : String) (old new : Store) (ls : List Lease)
    → ((g : String) → str_eq file g ≡ false → get g new ≡ get g old)
    → ((owner_id : String) (t : ℕ) → now ≤ t → Guarded (get file old) owner_id t → ⊥)
    → All (Backed now old) ls
    → All (Backed now new) ls
kept-All now file old new [] same apart h = tt
kept-All now file old new (l ∷ ls) same apart (first, rest) = (
  kept-Backed now file old new l same (λ t later e g. apart l.owner_id t later g) first,
  kept-All now file old new ls same apart rest,
)

-- The owner of a file may change it where its leases there are dropped.
pub without-All :
    (now : ℕ) (file owner_id : String) (old new : Store) (ls : List Lease)
    → ((g : String) → str_eq file g ≡ false → get g new ≡ get g old)
    → ((other : String) (t : ℕ) → now ≤ t → Guarded (get file old) other t → other ≡ owner_id)
    → All (Backed now old) ls
    → All (Backed now new) (without file owner_id ls)
unfolding without
without-All now file owner_id old new [] same own h = tt
without-All now file owner_id old new (l ∷ ls) same own (first, rest) =
    go (str_eq l.file file) (str_eq l.owner_id owner_id) refl refl
      (without-All now file owner_id old new ls same own rest)
  where
    go :
        (b c : Bool)
        → str_eq l.file file ≡ b
        → str_eq l.owner_id owner_id ≡ c
        → All (Backed now new) (without file owner_id ls)
        → All
            (Backed now new)
            (if b && c then without file owner_id ls else l ∷ without file owner_id ls)
    go true true here mine others = others
    go true false here other others = (
      kept-Backed now file old new l same
          (λ t later e g.
            let same_ : str_eq l.owner_id owner_id ≡ true =
              (eq_iff l.owner_id owner_id).1 (own l.owner_id t later g) in
            cc)
          first,
      others,
    )
    go false c away e' others = (
      kept-Backed now file old new l same
          (λ t later e g. let there : str_eq l.file file ≡ true = (eq_iff l.file file).1 e in cc)
          first,
      others,
    )

pub later-All :
    (now t : ℕ) (s : Store) (ls : List Lease)
    → now ≤ t
    → All (Backed now s) ls
    → All (Backed t s) ls
later-All now t s [] h a = tt
later-All now t s (l ∷ ls) h (first, rest) =
    (λ u later before. first u (omega arith) before, later-All now t s ls h rest)

-- Only the file of that name changes.
pub put-elsewhere :
    {V : Type 0} (file : String) (x : V) (s : Dict V) (g : String)
    → str_eq file g ≡ false
    → get g (put file x s) ≡ get g s
put-elsewhere file x s g e = get-put file g x s ∙ rw e refl

pub remove-elsewhere :
    {V : Type 0} (file : String) (s : Dict V) (g : String)
    → str_eq file g ≡ false
    → get g (remove file s) ≡ get g s
remove-elsewhere file s g e = get-remove file g s ∙ rw e refl

-- A file that is being written cannot be read yet.
abbrev pub Unread : Dict FileLockInfo → Store → Type 0
Unread w s = (f : String) (i : FileLockInfo) → get f w ≡ some i → get f s ≡ some unreadable

pub kept-Unread :
    (file : String) (w w' : Dict FileLockInfo) (old new : Store)
    → ((g : String) → str_eq file g ≡ false → get g new ≡ get g old)
    → ((g : String) → str_eq file g ≡ false → get g w' ≡ get g w)
    → ((i : FileLockInfo) → get file w' ≡ some i → get file new ≡ some unreadable)
    → Unread w old
    → Unread w' new
kept-Unread file w w' old new same same' here h g i e = elim (Bool-cases (str_eq file g)) [
  | inl at_ ↦
      let there : file ≡ g = (eq_iff file g).0 at_ in
      subst (λ f. get f new ≡ some unreadable) there
        (here i (subst (λ f. get f w' ≡ some i) (sym there) e))
  | inr other ↦ same g other ∙ h g i (sym (same' g other) ∙ e)
]

abbrev pub Sound : System → Type 0
Sound s = All (Backed s.now s.store) s.leases × Unread s.writing s.store

same_time-eq : (a b : Option ℕ) → same_time a b ≡ true → a ≡ b
same_time-eq none none h = refl
same_time-eq (some a) (some b) h = let e : a ≡ b = ground arith in ap (λ n. some n) e
same_time-eq none (some b) h = cc
same_time-eq (some a) none h = cc

pub same_info-expires_at : (i j : FileLockInfo) → same_info i j ≡ true → i.expires_at ≡ j.expires_at
unfolding same_info
same_info-expires_at i j h = same_time-eq i.expires_at j.expires_at (
    go (str_eq i.path j.path) (str_eq i.owner_id j.owner_id) (i.acquired_at == j.acquired_at)
      (same_time i.expires_at j.expires_at) h)
  where
    go : (a b c d : Bool) → (a && (b && (c && d))) ≡ true → d ≡ true
    go true true true d h' = h'
    go true true false d h' = cc
    go true false c d h' = cc
    go false b c d h' = cc
