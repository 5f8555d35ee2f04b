-- ===== src/FileTool/Undo.antt =====
-- `execute` of kinetic_sdk/files/tool.py, and an undo behind it.
use kinetic_sdk_agents.Prelude.{
  ℕ, ◌≡◌, refl, sym, ap, ◌∙◌, subst, inl, inr, String, Bool, true, false, Option, none, some, List,
  str_eq, eq_iff, Bool-cases,
}
use kinetic_sdk_agents.Prelude.Int.{ℤ}
use kinetic_sdk_agents.Prelude.Dict.{Dict, get, put, remove, get-put-here, get-remove-here}
use kinetic_sdk_agents.FileTool.{
  Backend, State, Read, text_of, rejected, missing_as, file_not_found, is_directory, unreadable,
  Reply, unknown_action, reserved_path, done, failed, raised, Change, write_text, delete_file,
  apply_change, read_text, is_internal_snapshot_path,
}
use kinetic_sdk_agents.FileTool.Actions.{
  Output, reverted, undid_create, str_replace, insert, create, revert, revert_read, undo_entry,
  undo_edit,
}
use kinetic_sdk_agents.FileTool.View.{Params, view, is_action}
use kinetic_sdk_agents.FileTool.Effects.{Elsewhere, Wrote, then_undo-Wrote, apply_change-Elsewhere}
use kinetic_sdk_agents.FileTool.Did.{
  Did, Created, Reverted, Replaced, InsertedAt, refused, passed_on, edited_to, unmade, brought_back,
  str_replace-Did, insert-Did, create-Did,
}

change-Elsewhere :
    (path : String) (change : Change) (old new : Dict String)
    → new ≡ apply_change path change old
    → Elsewhere path old new
change-Elsewhere path change old new e q other =
    ap (get q) e ∙ apply_change-Elsewhere path change old q other

module _ {W : Type 0} where
  -- A reply without an error leaves every file as it was in an earlier state.
  abbrev pub Back : State W → State W × Reply Output → Type 0
  Back s (s2, failed e) = Unit
  Back s (s2, raised) = Unit
  Back s (s2, done o) = (q : String) → get q s2.files ≡ get q s.files

  -- Behind an edit, the write that puts back what the path had.
  edit-then :
      (path content : String) (change : Change) (before : Option String) (s : State W)
      (files2 files1 : Dict String)
      → files1 ≡ apply_change path (write_text content) s.files
      → files2 ≡ apply_change path change files1
      → get path (apply_change path change files1) ≡ get path s.files
      → (q : String) → get q files2 ≡ get q s.files
  edit-then path content change before s files2 files1 e1 e2 here q =
      elim (Bool-cases (str_eq path q)) [
        | inl same_ ↦
            let at_ : path ≡ q = (eq_iff path q).0 same_ in
            subst (λ x. get x files2 ≡ get x s.files) at_ (ap (get path) e2 ∙ here)
        | inr other ↦
            change-Elsewhere path change files1 files2 e2 q other
            ∙ change-Elsewhere path (write_text content) s.files files1 e1 q other
      ]

module _ {W : Type 0} (b : Backend W) (similar : List String → List String → Bool) where
  -- An undo of an edit, whatever of it is refused, does not leave anything but the old files.
  undo-Back :
      (path content : String) (s s1 : State W)
      → s1.files ≡ apply_change path (write_text content) s.files
      → s1.undo ≡ put path (get path s.files) s.undo
      → Back s (undo_edit b similar path s1)
  unfolding undo_edit apply_change
  undo-Back path content s s1 f u = go (get path s.files) refl
    where
      entry : get path s1.undo ≡ some (get path s.files)
      entry = ap (get path) u ∙ get-put-here path (get path s.files) s.undo

      undone :
          (change : Change) (to : Dict (Option String) → Dict (Option String))
          (r : State W × Reply Output)
          → get path (apply_change path change s1.files) ≡ get path s.files
          → (answer : Output) → Wrote path change to answer s1 r
          → Back s r
      undone change to (s2, failed e) here answer h = tt
      undone change to (s2, raised) here answer h = tt
      undone change to (s2, done o) here answer (f2, u2, same) =
          edit-then path content change none s s2.files s1.files f f2 here

      by_read :
          (previous : String) (r : Read)
          → get path s.files ≡ some previous
          → Back s (revert_read b similar path previous r s1)
      by_read previous (text_of current) g =
          undone (write_text previous) (put path (some current))
            (revert b similar path previous current s1)
            (get-put-here path previous s1.files ∙ sym g) reverted
            (then_undo-Wrote b path (write_text previous) (put path (some current)) reverted none
              s1)
      by_read previous rejected g = tt
      by_read previous (missing_as is_directory) g = tt
      by_read previous (missing_as unreadable) g = tt
      by_read previous (missing_as file_not_found) g =
          undone (write_text previous) (put path (some "")) (revert b similar path previous "" s1)
            (get-put-here path previous s1.files ∙ sym g) reverted
            (then_undo-Wrote b path (write_text previous) (put path (some "")) reverted none s1)

      go : (o : Option String) → get path s.files ≡ o → Back s (undo_edit b similar path s1)
      go none g =
          subst (λ x. Back s (undo_entry b similar path x s1)) (sym (entry ∙ ap (λ x. some x) g))
            (undone delete_file (remove path) (undo_entry b similar path (some none) s1)
              (get-remove-here path s1.files ∙ sym g) undid_create
              (then_undo-Wrote b path delete_file (remove path) undid_create none s1))
      go (some previous) g =
          subst (λ x. Back s (undo_entry b similar path x s1)) (sym (entry ∙ ap (λ x. some x) g))
            (by_read previous (read_text b path s1) g)

  -- An undo behind a call that ended well.
  abbrev pub UndoneAfter : String → State W → State W × Reply Output → Type 0
  UndoneAfter path s (s1, failed e) = Unit
  UndoneAfter path s (s1, raised) = Unit
  UndoneAfter path s (s1, done o) = Back s (undo_edit b similar path s1)

  Did-UndoneAfter :
      (Writes : String → Output → Type 0) (path : String) (s : State W) (r : State W × Reply Output)
      → Did Writes false path s r
      → UndoneAfter path s r
  Did-UndoneAfter Writes path s _ (refused s' e f u) = tt
  Did-UndoneAfter Writes path s _ (passed_on s' change f u) = tt
  Did-UndoneAfter Writes path s _ (edited_to s' content o x f u) = undo-Back path content s s' f u
  Did-UndoneAfter Writes path s _ (unmade s' v h f u) = let clash : ⊥ = cc in elim clash [ ]
  Did-UndoneAfter Writes path s _ (brought_back s' previous v g h f u) =
      let clash : ⊥ = cc in elim clash [ ]

  -- Where a create, a replacement or an insertion ends well, and then an undo of it does, every file
  -- is as it was before.
  pub edits-UndoneAfter :
      (path : String) (file_text old_str new_str : Option String) (all : Bool) (line : Option ℤ)
      (s : State W)
      → UndoneAfter path s (create b similar path file_text s)
        × UndoneAfter path s (str_replace b similar path old_str new_str all s)
        × UndoneAfter path s (insert b similar path line new_str s)
  edits-UndoneAfter path file_text old_str new_str all line s = (
    Did-UndoneAfter _ path s _ (create-Did b similar false path file_text s),
    Did-UndoneAfter _ path s _ (str_replace-Did b similar false path old_str new_str all s),
    Did-UndoneAfter _ path s _ (insert-Did b similar false path line new_str s),
  )

module _ {W : Type 0} (b : Backend W) (similar : List String → List String → Bool)
    (max_view_lines : ℕ) where
  -- What a call does, by its action.
  pub data Does (action path : String) (params : Params) (s : State W)
      : State W × Reply Output → Type 0 where
    unknown :
        is_action b similar max_view_lines action ≡ false
        → Does action path params s (s, failed unknown_action)
    reserved :
        is_internal_snapshot_path path ≡ true → Does action path params s (s, failed reserved_path)
    shown :
        action ≡ "view"
        → Does action path params s (s, view b max_view_lines path params.view_range s)
    created_by :
        (r : State W × Reply Output)
        → action ≡ "create"
        → Did (Created params.file_text path s) false path s r
        → Does action path params s r
    replaced_by :
        (r : State W × Reply Output)
        → action ≡ "str_replace"
        → Did
            (Replaced b similar params.old_str params.new_str params.replace_all path s)
            false
            path
            s
            r
        → Does action path params s r
    inserted_by :
        (r : State W × Reply Output)
        → action ≡ "insert"
        → Did (InsertedAt b similar params.insert_line params.new_str path s) false path s r
        → Does action path params s r
    undone_by :
        (r : State W × Reply Output)
        → action ≡ "undo_edit"
        → Did (Reverted path s) true path s r
        → Does action path params s r
