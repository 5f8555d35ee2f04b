-- ===== src/FileTool/Did.antt =====
-- What each action of kinetic_sdk/files/tool.py does, on every branch.
use kinetic_sdk_agents.Prelude.{
  ℕ, ◌≡◌, refl, sym, subst, ◌⊎◌, String, Bool, true, false, Option, none, some, List, if◌then◌else◌,
}
use kinetic_sdk_agents.Prelude.Dict.{get, put, remove}
use kinetic_sdk_agents.Prelude.Int.{ℤ}
use kinetic_sdk_agents.FileTool.{
  Backend, State, Read, text_of, rejected, missing_as, file_not_found, is_directory, unreadable,
  Reply, done, failed, raised, Failure, Change, write_text, delete_file, apply_change, found,
  read_text,
}
use kinetic_sdk_agents.FileTool.Actions.{
  Output, Edit, rewrite, refuse, edit_with, edit_read, str_replace, insert, insert_at, line_answer,
  create, create_read, revert_read, undo_entry, undo_edit, created, reverted, undid_create, edited,
  replacement_of,
}
use kinetic_sdk_agents.FileTool.Effects.{Wrote, then_undo-Wrote}

module _ {W : Type 0} where
  -- What one call did, or one that undoes. An `edited_to` keeps for undo what the path had before.
  pub data Did (Writes : String → Output → Type 0) (undoing : Bool) (path : String) (s : State W)
      : State W × Reply Output → Type 0 where
    refused :
        (s' : State W) (e : Failure)
        → s'.files ≡ s.files
        → s'.undo ≡ s.undo
        → Did Writes undoing path s (s', failed e)
    passed_on :
        (s' : State W) (change : Change)
        → (s'.files ≡ s.files) ⊎ (s'.files ≡ apply_change path change s.files)
        → s'.undo ≡ s.undo
        → Did Writes undoing path s (s', raised)
    edited_to :
        (s' : State W) (content : String) (o : Output)
        → Writes content o
        → s'.files ≡ apply_change path (write_text content) s.files
        → s'.undo ≡ put path (get path s.files) s.undo
        → Did Writes undoing path s (s', done o)
    unmade :
        (s' : State W)
        → undoing ≡ true
        → get path s.undo ≡ some none
        → s'.files ≡ apply_change path delete_file s.files
        → s'.undo ≡ remove path s.undo
        → Did Writes undoing path s (s', done undid_create)
    brought_back :
        (s' : State W) (previous : String)
        → undoing ≡ true
        → get path s.files ≡ none
        → get path s.undo ≡ some (some previous)
        → s'.files ≡ apply_change path (write_text previous) s.files
        → s'.undo ≡ put path (some "") s.undo
        → Did Writes undoing path s (s', done reverted)

  -- A write that keeps what the path had.
  write-Did :
      (Writes : String → Output → Type 0) (undoing : Bool) (path content : String)
      (before : Option String) (answer : Output) (s : State W) (r : State W × Reply Output)
      → Writes content answer
      → get path s.files ≡ before
      → Wrote path (write_text content) (put path before) answer s r
      → Did Writes undoing path s r
  write-Did Writes undoing path content before answer s (s', failed e) x h (f, u) = refused s' e f u
  write-Did Writes undoing path content before answer s (s', raised) x h (f, u) =
      passed_on s' (write_text content) f u
  write-Did Writes undoing path content before answer s (s', done o) x h (f, u, same) =
      edited_to s' content o (subst (Writes content) (sym same) x) f
        (subst (λ y. s'.undo ≡ put path y s.undo) (sym h) u)

  -- What each action writes, and answers.
  abbrev pub Created : Option String → String → State W → String → Output → Type 0
  Created file_text path s content o =
      (get path s.files ≡ none) × (file_text ≡ some content) × (o ≡ created)

  abbrev pub Reverted : String → State W → String → Output → Type 0
  Reverted path s content o =
      ((current : String) × (get path s.files ≡ some current))
      × (get path s.undo ≡ some (some content))
      × (o ≡ reverted)

  module _ (b : Backend W) (similar : List String → List String → Bool) where
    -- What was read is what the path has.
    abbrev pub ReadOf : String → State W → Read → Type 0
    ReadOf path s (text_of content) = get path s.files ≡ some content
    ReadOf path s rejected = Unit
    ReadOf path s (missing_as m) = get path s.files ≡ none

    pub read_text-ReadOf : (path : String) (s : State W) → ReadOf path s (read_text b path s)
    unfolding read_text
    read_text-ReadOf path s = go (b.resolves path) (get path s.files) refl
      where
        go :
            (r : Bool) (o : Option String)
            → get path s.files ≡ o
            → ReadOf path s (if r then found b o path s.world else rejected)
        go false o e = tt
        go true none e = e
        go true (some content) e = e

    abbrev pub EditedBy :
        (String → Edit) → (ℕ → Output) → String → State W → String → Output → Type 0
    EditedBy edit answer path s content o =
        (old : String) × (n : ℕ) × (get path s.files ≡ some old)
        × (edit old ≡ rewrite content n)
        × (o ≡ answer n)

    abbrev pub Replaced :
        Option String → Option String → Bool → String → State W → String → Output → Type 0
    Replaced (some old_str) (some new_str) all path s =
        EditedBy (replacement_of similar all old_str new_str) edited path s
    Replaced old_str new_str all path s = λ content o. ⊥

    abbrev pub InsertedAt : Option ℤ → Option String → String → State W → String → Output → Type 0
    InsertedAt (some line) (some new_str) path s =
        EditedBy (insert_at b similar line new_str) (line_answer b similar line) path s
    InsertedAt line new_str path s = λ content o. ⊥

    edit_read-Did :
        (undoing : Bool) (path : String) (answer : ℕ → Output) (edit : String → Edit) (s : State W)
        → Did
            (EditedBy edit answer path s)
            undoing
            path
            s
            (edit_read b similar path answer edit (read_text b path s) s)
    edit_read-Did undoing path answer edit s = go (read_text b path s) (read_text-ReadOf path s)
      where
        go :
            (r : Read)
            → ReadOf path s r
            → Did
                (EditedBy edit answer path s)
                undoing
                path
                s
                (edit_read b similar path answer edit r s)
        go rejected h = refused s _ refl refl
        go (missing_as m) h = refused s _ refl refl
        go (text_of content) h = by_edit (edit content) refl
          where
            by_edit :
                (e : Edit)
                → edit content ≡ e
                → Did
                    (EditedBy edit answer path s)
                    undoing
                    path
                    s
                    (edit_with b similar path answer content e s)
            by_edit (refuse e) same = refused s e refl refl
            by_edit (rewrite new_content n) same =
                write-Did (EditedBy edit answer path s) undoing path new_content (some content)
                  (answer n) s _ (content, n, h, same, refl) h
                  (then_undo-Wrote b path (write_text new_content) (put path (some content))
                    (answer n) (some content) s)

    pub str_replace-Did :
        (undoing : Bool) (path : String) (old_str new_str : Option String) (all : Bool)
        (s : State W)
        → Did
            (Replaced old_str new_str all path s)
            undoing
            path
            s
            (str_replace b similar path old_str new_str all s)
    unfolding str_replace
    str_replace-Did undoing path (some old_str) (some new_str) all s =
        edit_read-Did undoing path edited (replacement_of similar all old_str new_str) s
    str_replace-Did undoing path (some old_str) none all s = refused s _ refl refl
    str_replace-Did undoing path none new_str all s = refused s _ refl refl

    pub insert-Did :
        (undoing : Bool) (path : String) (line : Option ℤ) (new_str : Option String) (s : State W)
        → Did (InsertedAt line new_str path s) undoing path s (insert b similar path line new_str s)
    unfolding insert
    insert-Did undoing path (some line) (some new_str) s =
        edit_read-Did undoing path (line_answer b similar line) (insert_at b similar line new_str) s
    insert-Did undoing path (some line) none s = refused s _ refl refl
    insert-Did undoing path none new_str s = refused s _ refl refl

    pub create-Did :
        (undoing : Bool) (path : String) (file_text : Option String) (s : State W)
        → Did (Created file_text path s) undoing path s (create b similar path file_text s)
    unfolding create
    create-Did undoing path none s = refused s _ refl refl
    create-Did undoing path (some file_text) s = go (read_text b path s) (read_text-ReadOf path s)
      where
        go :
            (r : Read)
            → ReadOf path s r
            → Did
                (Created (some file_text) path s)
                undoing
                path
                s
                (create_read b similar path file_text r s)
        go (text_of content) h = refused s _ refl refl
        go rejected h = refused s _ refl refl
        go (missing_as is_directory) h = refused s _ refl refl
        go (missing_as unreadable) h = refused s _ refl refl
        go (missing_as file_not_found) h =
            write-Did (Created (some file_text) path s) undoing path file_text none created s _
              (h, refl, refl) h
              (then_undo-Wrote b path (write_text file_text) (put path none) created none s)

    pub undo_edit-Did :
        (path : String) (s : State W)
        → Did (Reverted path s) true path s (undo_edit b similar path s)
    unfolding undo_edit
    undo_edit-Did path s = go (get path s.undo) refl
      where
        deleted :
            (r : State W × Reply Output)
            → get path s.undo ≡ some none
            → Wrote path delete_file (remove path) undid_create s r
            → Did (Reverted path s) true path s r
        deleted (s', failed e) h (f, u) = refused s' e f u
        deleted (s', raised) h (f, u) = passed_on s' delete_file f u
        deleted (s', done o) h (f, u, same) =
            subst (λ x. Did (Reverted path s) true path s (s', done x)) (sym same)
              (unmade s' refl h f u)

        came_back :
            (previous : String) (r : State W × Reply Output)
            → get path s.files ≡ none
            → get path s.undo ≡ some (some previous)
            → Wrote path (write_text previous) (put path (some "")) reverted s r
            → Did (Reverted path s) true path s r
        came_back previous (s', failed e) g h (f, u) = refused s' e f u
        came_back previous (s', raised) g h (f, u) = passed_on s' (write_text previous) f u
        came_back previous (s', done o) g h (f, u, same) =
            subst (λ x. Did (Reverted path s) true path s (s', done x)) (sym same)
              (brought_back s' previous refl g h f u)

        by_read :
            (previous : String) (r : Read)
            → ReadOf path s r
            → get path s.undo ≡ some (some previous)
            → Did (Reverted path s) true path s (revert_read b similar path previous r s)
        by_read previous (text_of current) g h =
            write-Did (Reverted path s) true path previous (some current) reverted s _
              ((current, g), h, refl) g
              (then_undo-Wrote b path (write_text previous) (put path (some current)) reverted none
                s)
        by_read previous rejected g h = refused s _ refl refl
        by_read previous (missing_as is_directory) g h = refused s _ refl refl
        by_read previous (missing_as unreadable) g h = refused s _ refl refl
        by_read previous (missing_as file_not_found) g h =
            came_back previous _ g h
              (then_undo-Wrote b path (write_text previous) (put path (some "")) reverted none s)

        go :
            (o : Option (Option String))
            → get path s.undo ≡ o
            → Did (Reverted path s) true path s (undo_entry b similar path o s)
        go none h = refused s _ refl refl
        go (some none) h =
            deleted _ h (then_undo-Wrote b path delete_file (remove path) undid_create none s)
        go (some (some previous)) h =
            by_read previous (read_text b path s) (read_text-ReadOf path s) h
