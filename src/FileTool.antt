-- ===== src/FileTool.antt =====
-- kinetic_sdk/files/tool.py, `FileTool`: an editor with one level of undo for each file. A workspace
-- is a dictionary of texts. The lock of `_write_locked`, the snapshot store, the backend's own
-- refusals and the listing of directories are parameters that read and change a world `W`.
pub mod Match
pub mod Actions
pub mod View
pub mod Effects
pub mod Did
pub mod Undo
pub mod Texts
use kinetic_sdk_agents.Prelude.{
  ℕ, String, Bool, true, false, Option, none, some, List, [], ◌∷◌, str_eq, if◌then◌else◌, any,
}
use kinetic_sdk_agents.Prelude.Dict.{Dict, get, put, remove}
use kinetic_sdk_agents.Policy.Paths.{split}

-- The errors, without the parts of their texts that vary.
pub data Failure : Type 0 where
  unknown_action reserved_path locked path_rejected filesystem missing_arguments : Failure
  already_exists no_such_file matches_many not_found fuzzy_many fuzzy_rejected : Failure
  replace_all_fuzzy bad_indentation out_of_range bad_range nothing_to_undo : Failure

-- What `execute` returns, or an exception that it lets through.
pub data Reply (A : Type 0) : Type 0 where
  done : A → Reply A
  failed : Failure → Reply A
  raised : Reply A

-- Why a path that has no text cannot be read.
pub data Missing : Type 0 where
  file_not_found is_directory unreadable : Missing

pub record Backend (W : Type 0) : Type 0 where
  -- `workspace.resolve`, which the backend's operations call
  pub resolves : String → Bool
  pub missing : String → W → Missing
  pub list_directory : String → W → Option (List String)
  -- the lease on the file: why it is not given, and whether its release raises
  pub lock : String → W → Option Failure × W
  pub unlock : String → W → Bool × W
  -- the snapshot of a text, and the write or deletion of a file, which may fail
  pub snapshot : String → String → W → Option Failure × W
  pub refuses : String → W → Option Failure × W

-- `_undo` has the previous text of a path, or `none` where the file was created.
pub record State (W : Type 0) : Type 0 where
  pub files : Dict String
  pub undo : Dict (Option String)
  pub world : W

-- `read_text`: a text, or why there is none.
pub data Read : Type 0 where
  text_of : String → Read
  rejected : Read
  missing_as : Missing → Read

-- `".kinetic" in Path(path).parts`
unfoldable pub is_internal_snapshot_path : String → Bool
unfolding split
is_internal_snapshot_path path =
    let (first, rest) = split path in any (str_eq ".kinetic") (first ∷ rest)

-- What a write does to the files.
pub data Change : Type 0 where
  write_text : String → Change
  delete_file : Change

unfoldable pub apply_change : String → Change → Dict String → Dict String
unfolding put remove
apply_change path (write_text content) files = put path content files
apply_change path delete_file files = remove path files

module _ {W : Type 0} (b : Backend W) where
  abbrev pub found : Option String → String → W → Read
  found (some content) path w = text_of content
  found none path w = missing_as (b.missing path w)

  unfoldable pub read_text : String → State W → Read
  unfolding get
  read_text path s = if b.resolves path then found (get path s.files) path s.world else rejected

  -- The rest of a write under its lease: the change, and then the release.
  abbrev pub unlocked : Bool × W → State W → State W × Reply Unit
  unlocked (true, w) s = (record s { world = w }, raised)
  unlocked (false, w) s = (record s { world = w }, done tt)

  -- Where the operation fails under its lease, the lease is released and its error goes on.
  abbrev pub unlocked_after : Failure → Bool × W → State W → State W × Reply Unit
  unlocked_after e (true, w) s = (record s { world = w }, raised)
  unlocked_after e (false, w) s = (record s { world = w }, failed e)

  abbrev pub changed : String → Change → Option Failure × W → State W → State W × Reply Unit
  changed path change (some e, w) s = unlocked_after e (b.unlock path w) s
  changed path change (none, w) s =
      unlocked (b.unlock path w) (record s { files = apply_change path change s.files })

  abbrev pub snapshotted : String → Change → Option Failure × W → State W → State W × Reply Unit
  snapshotted path change (some e, w) s = unlocked_after e (b.unlock path w) s
  snapshotted path change (none, w) s = changed path change (b.refuses path w) s

  -- The text to snapshot first, where there is one (`_snapshot_and_write`).
  abbrev pub under_lease :
      String → Option String → Change → Option Failure × W → State W → State W × Reply Unit
  under_lease path previous change (some e, w) s = (record s { world = w }, failed e)
  under_lease path none change (none, w) s = changed path change (b.refuses path w) s
  under_lease path (some content) change (none, w) s =
      snapshotted path change (b.snapshot path content w) s

  unfoldable pub write_locked : String → Option String → Change → State W → State W × Reply Unit
  unfolding apply_change
  write_locked path previous change s = under_lease path previous change (b.lock path s.world) s

  -- What follows a write that did not fail: the undo entry and the reply.
  abbrev pub then_undo :
      {A : Type 0}
      → (Dict (Option String) → Dict (Option String))
      → A
      → State W × Reply Unit
      → State W × Reply A
  then_undo entry answer (s, done u) = (record s { undo = entry s.undo }, done answer)
  then_undo entry answer (s, failed e) = (s, failed e)
  then_undo entry answer (s, raised) = (s, raised)
