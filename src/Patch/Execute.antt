-- ===== src/Patch/Execute.antt =====
-- kinetic_sdk/files/patch.py, `ApplyPatchTool.execute` past the parsing of its patch. A workspace
-- is a dictionary of texts; which paths it resolves, which writes it refuses (the lock of
-- `_write_locked` included) and whether a lease can be released are parameters.
pub mod Atomic
use kinetic_sdk_agents.Prelude.{
  ℕ, String, Bool, true, false, Option, none, some, List, [], ◌∷◌, if◌then◌else◌, Result, ok, err,
}
use kinetic_sdk_agents.Prelude.Dict.{Dict, get, put}
use kinetic_sdk_agents.Patch.{Hunk, ApplyError, apply_file_patch}

pub record FilePatch : Type 0 where
  pub path : String
  pub hunks : List Hunk

pub record Workspace (W : Type 0) : Type 0 where
  pub resolves : String → Bool
  -- a write that raises before the file changes, and the release of the lease behind it, which raises
  -- where the lease has expired
  pub refuses : String → W → Bool × W
  pub release_raises : String → W → Bool × W

-- The texts of the files, the tool's undo texts, and the rest of the world.
pub record State (W : Type 0) : Type 0 where
  pub files : Dict String
  pub undo : Dict String
  pub world : W

-- A result without error; an error before anything was written; an error after the rollback, with
-- the paths whose rollback failed.
pub data Outcome : Type 0 where
  applied : Outcome
  aborted : Outcome
  rolled_back : (failed : List String) → Outcome

abbrev pub or_none : Result ApplyError String → Option String
or_none (ok content) = some content
or_none (err e) = none

-- The writes, in the order of the dictionary.
abbrev pub put_all : Dict String → Dict String → Dict String
put_all [] files = files
put_all ((path, content) ∷ contents) files = put_all contents (put path content files)

module _ {W : Type 0} (ws : Workspace W) where
  -- The text that a file patch starts from: what an earlier one made of it, or the file's.
  abbrev pub before :
      Option String → Option String → String → Dict String → Option (String × Dict String)
  before (some earlier) content path originals = some (earlier, originals)
  before none (some content) path originals = some (content, put path content originals)
  before none none path originals = none

  abbrev pub patched : FilePatch → String → Option String
  patched p original = or_none (apply_file_patch p.hunks original)

  abbrev pub noted :
      String
      → Option String
      → Dict String
      → Dict String
      → (Dict String → Dict String → Option (Dict String × Dict String))
      → Option (Dict String × Dict String)
  noted path none originals resolved rest = none
  noted path (some content) originals resolved rest = rest originals (put path content resolved)

  abbrev pub tried :
      FilePatch
      → Option (String × Dict String)
      → Dict String
      → (Dict String → Dict String → Option (Dict String × Dict String))
      → Option (Dict String × Dict String)
  tried p none resolved rest = none
  tried p (some (original, originals)) resolved rest =
      noted p.path (patched p original) originals resolved rest

  -- All hunks against texts in memory: the originals and the new texts, or `none` for an error.
  unfoldable pub dry_run :
      Dict String → List FilePatch → Dict String → Dict String → Option (Dict String × Dict String)
  unfolding get put apply_file_patch
  dry_run files [] originals resolved = some (originals, resolved)
  dry_run files (p ∷ ps) originals resolved =
      if ws.resolves p.path
      then tried p (before (get p.path resolved) (get p.path files) p.path originals) resolved
          (dry_run files ps)
      else none

  -- The writes up to the first that raises, with the paths written, the last first. A path whose
  -- lease cannot be released is changed, and is not one of them.
  abbrev pub after_write :
      Bool × W
      → (W → Bool × W)
      → String
      → String
      → List String
      → State W
      → (List String → State W → State W × List String × Bool)
      → State W × List String × Bool
  after_write (true, w) release path content written s rest =
      (record s { world = w }, written, false)
  after_write (false, w) release path content written s rest =
      let (late, w') = release w in
      let changed : State W = record s { files = put path content s.files; world = w' } in
      if late then (changed, written, false) else rest (path ∷ written) changed

  unfoldable pub write_all : Dict String → List String → State W → State W × List String × Bool
  unfolding put
  write_all [] written s = (s, written, true)
  write_all ((path, content) ∷ contents) written s =
      after_write (ws.refuses path s.world) (ws.release_raises path) path content written s
        (write_all contents)

  -- One file back to its original, and whether that raised.
  abbrev pub restored :
      Bool × W → (W → Bool × W) → Option String → String → State W → State W × Bool
  restored (true, w) release original path s = (record s { world = w }, true)
  restored (false, w) release none path s = (record s { world = (release w).1 }, true)
  restored (false, w) release (some original) path s =
      (record s { files = put path original s.files; world = (release w).1 }, (release w).0)

  abbrev pub with_failure : Bool → String → State W × List String → State W × List String
  with_failure failed path (s, paths) = (s, (if failed then path ∷ paths else paths))

  unfoldable pub rollback : Dict String → List String → State W → State W × List String
  unfolding get put
  rollback originals [] s = (s, [])
  rollback originals (path ∷ paths) s =
      let (s', failed) =
        restored (ws.refuses path s.world) (ws.release_raises path) (get path originals) path s in
      with_failure failed path (rollback originals paths s')

  abbrev pub finished : Dict String → State W × List String × Bool → State W × Outcome
  finished originals (s, written, true) = (record s { undo = put_all originals s.undo }, applied)
  finished originals (s, written, false) =
      let (s', failed) = rollback originals written s in (s', rolled_back failed)

  abbrev pub committed : Option (Dict String × Dict String) → State W → State W × Outcome
  committed none s = (s, aborted)
  committed (some (originals, resolved)) s = finished originals (write_all resolved [] s)

  unfoldable pub execute : List FilePatch → State W → State W × Outcome
  unfolding dry_run write_all rollback
  execute [] s = (s, aborted)
  execute (p ∷ ps) s = committed (dry_run s.files (p ∷ ps) [] []) s
