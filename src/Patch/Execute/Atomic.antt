-- ===== src/Patch/Execute/Atomic.antt =====
-- A patch is applied to all of its files or to none.
use kinetic_sdk_agents.Prelude.{
  ◌≡◌, String, Bool, true, false, Option, none, some, List, [], ◌∷◌, ◌++◌,
}
use kinetic_sdk_agents.Prelude.Dict.{Dict, get}
use kinetic_sdk_agents.Prelude.Sets.{has}
use kinetic_sdk_agents.Patch.Execute.{
  FilePatch, Workspace, State, Outcome, applied, aborted, rolled_back, put_all, dry_run,
}

-- Every original is the text of its file.
abbrev Originals : Dict String → Dict String → Type 0
Originals files originals = (q t : String) → get q originals ≡ some t → get q files ≡ some t

-- Files that agree but for some paths.
abbrev pub AgreeBut : List String → Dict String → Dict String → Type 0
AgreeBut paths f g = (q : String) → has q paths ≡ false → get q f ≡ get q g

module _ {W : Type 0} (ws : Workspace W) where
  abbrev OriginalsIf : Dict String → Option (Dict String × Dict String) → Type 0
  OriginalsIf files none = Unit
  OriginalsIf files (some (originals, resolved)) = Originals files originals

  -- At most one path: a write whose lease could not be released.
  abbrev pub Late : List String → Type 0
  Late [] = Unit
  Late (path ∷ []) = (w : W) × ((ws.release_raises path w).0 ≡ true)
  Late (path ∷ path' ∷ paths) = ⊥

  -- What the writes leave: all of them done, or only the written paths touched, and a late one.
  abbrev Written : Dict String → Dict String → State W → State W × List String × Bool → Type 0
  Written f0 contents s (s', written, true) = s'.files ≡ put_all contents s.files
  Written f0 contents s (s', written, false) =
      (late : List String) × Late late × AgreeBut (written ++ late) s'.files f0

  -- What the caller of the tool may rely on, by its outcome.
  abbrev pub Atomic : List FilePatch → State W → State W × Outcome → Type 0
  Atomic ps s (s', aborted) = s' ≡ s
  Atomic ps s (s', rolled_back []) =
      (late : List String) × Late late × AgreeBut late s'.files s.files
  Atomic ps s (s', rolled_back (path ∷ paths)) = Unit
  Atomic ps s (s', applied) =
      (originals : Dict String) × (resolved : Dict String) × (dry_run ws s.files ps [] []
        ≡ some (originals, resolved))
      × (s'.files ≡ put_all resolved s.files)
