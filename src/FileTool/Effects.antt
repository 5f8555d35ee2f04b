-- ===== src/FileTool/Effects.antt =====
-- What the actions of kinetic_sdk/files/tool.py do to the files and to the undo texts.
use kinetic_sdk_agents.Prelude.{
  ◌≡◌, refl, ap, ◌∙◌, ◌⊎◌, inl, inr, String, Bool, true, false, Option, none, some, str_eq,
}
use kinetic_sdk_agents.Prelude.Dict.{Dict, get, get-put, get-remove}
use kinetic_sdk_agents.FileTool.{
  Backend, State, Reply, done, failed, raised, Failure, Change, write_text, delete_file,
  apply_change, unlocked, unlocked_after, changed, snapshotted, under_lease, write_locked,
  then_undo,
}

-- Only the entry of that path may differ.
abbrev pub Elsewhere : {V : Type 0} → String → Dict V → Dict V → Type 0
Elsewhere path old new = (q : String) → str_eq path q ≡ false → get q new ≡ get q old

pub apply_change-Elsewhere :
    (path : String) (change : Change) (files : Dict String)
    → Elsewhere path files (apply_change path change files)
unfolding apply_change
apply_change-Elsewhere path (write_text content) files q other =
    get-put path q content files ∙ rw other refl
apply_change-Elsewhere path delete_file files q other = get-remove path q files ∙ rw other refl

module _ {W : Type 0} where
  -- What a write under a lease comes to: an error without a change, the change, or an exception
  -- either before or after it.
  abbrev pub Wrote :
      {A : Type 0}
      → String
      → Change
      → (Dict (Option String) → Dict (Option String))
      → A
      → State W
      → State W × Reply A
      → Type 0
  Wrote path change entry answer s (s', failed e) = (s'.files ≡ s.files) × (s'.undo ≡ s.undo)
  Wrote path change entry answer s (s', raised) =
      ((s'.files ≡ s.files) ⊎ (s'.files ≡ apply_change path change s.files)) × (s'.undo ≡ s.undo)
  Wrote path change entry answer s (s', done a) =
      (s'.files ≡ apply_change path change s.files) × (s'.undo ≡ entry s.undo) × (a ≡ answer)

  module _ (b : Backend W) (path : String) (change : Change) where
    unlocked_after-Wrote :
        (e : Failure) (u : Bool × W) (s : State W)
        → Wrote path change (λ d. d) tt s (unlocked_after b e u s)
    unlocked_after-Wrote e (true, w) s = (inl refl, refl)
    unlocked_after-Wrote e (false, w) s = (refl, refl)

    changed-Wrote :
        (o : Option Failure × W) (s : State W)
        → Wrote path change (λ d. d) tt s (changed b path change o s)
    changed-Wrote (some e, w) s = unlocked_after-Wrote e (b.unlock path w) s
    changed-Wrote (none, w) s = go (b.unlock path w)
      where
        go :
            (u : Bool × W)
            → Wrote path change
                (λ d. d)
                tt
                s
                (unlocked b u (record s { files = apply_change path change s.files }))
        go (true, w') = (inr refl, refl)
        go (false, w') = (refl, refl, refl)

    snapshotted-Wrote :
        (o : Option Failure × W) (s : State W)
        → Wrote path change (λ d. d) tt s (snapshotted b path change o s)
    snapshotted-Wrote (some e, w) s = unlocked_after-Wrote e (b.unlock path w) s
    snapshotted-Wrote (none, w) s = changed-Wrote (b.refuses path w) s

    write_locked-Wrote :
        (previous : Option String) (s : State W)
        → Wrote path change (λ d. d) tt s (write_locked b path previous change s)
    unfolding write_locked
    write_locked-Wrote previous s = go previous (b.lock path s.world)
      where
        go :
            (p : Option String) (o : Option Failure × W)
            → Wrote path change (λ d. d) tt s (under_lease b path p change o s)
        go p (some e, w) = (refl, refl)
        go none (none, w) = changed-Wrote (b.refuses path w) s
        go (some content) (none, w) = snapshotted-Wrote (b.snapshot path content w) s

    pub then_undo-Wrote :
        {A : Type 0} (entry : Dict (Option String) → Dict (Option String)) (answer : A)
        (previous : Option String) (s : State W)
        → Wrote path change entry answer s
            (then_undo b entry answer (write_locked b path previous change s))
    then_undo-Wrote entry answer previous s =
        go (write_locked b path previous change s) (write_locked-Wrote previous s)
      where
        go :
            (r : State W × Reply Unit)
            → Wrote path change (λ d. d) tt s r
            → Wrote path change entry answer s (then_undo b entry answer r)
        go (s', failed e) h = h
        go (s', raised) h = h
        go (s', done u) (f, d, e) = (f, ap entry d, refl)
