-- ===== src/Todo/Stores.antt =====
-- What kinetic_sdk/todo/store.py promises, and its two stores.
use kinetic_sdk_agents.Prelude.{
  ◌≡◌, refl, sym, ap, ◌∙◌, ◌≢◌, String, Bool, true, false, Option, none, some, All, if◌then◌else◌,
  str_ne,
}
use kinetic_sdk_agents.Prelude.Dict.{
  Dict, get, put, remove, get-put, get-remove, get-put-here, get-remove-here,
}
use kinetic_sdk_agents.Prelude.Json.{Json}
use kinetic_sdk_agents.Todo.{
  TodoList, TodoStore, unreadable, no_list, loaded, loaded_copy, copied, memory_load, in_memory,
  Disk, Folder, json_file, cleaned, renamed, put_in_place, dumped, list_to_dict, list_from_dict,
  payload_of, saved_as, read_payload, file_load,
}
use kinetic_sdk_agents.Todo.RoundTrip.{IsItem, list_from_dict-list_to_dict}

module _ {S : Type 0} (t : TodoStore S) where
  -- A list that was saved is loaded next; a save that raised leaves what was there.
  abbrev pub Saved : TodoList → S → S × Bool → Type 0
  Saved items s (s', true) = t.load s' ≡ loaded items
  Saved items s (s', false) = t.load s' ≡ t.load s

  abbrev pub IsStore : Type 0
  IsStore =
      ((items : TodoList) (s : S) → All IsItem items → Saved items s (t.save items s))
      × ((s : S) → t.load (t.delete s) ≡ no_list)

in_memory-Saved :
    (items : TodoList) (s : Option TodoList)
    → All IsItem items
    → Saved in_memory items s (in_memory.save items s)
unfolding in_memory
in_memory-Saved items s h = go (list_from_dict (list_to_dict items)) same
  where
    same : list_from_dict (list_to_dict items) ≡ some items
    same = list_from_dict-list_to_dict items h

    go : (o : Option TodoList) → o ≡ some items → Saved in_memory items s (copied o s)
    go none e = let clash : ⊥ = cc in elim clash [ ]
    go (some copy) e = ap memory_load e ∙ ap loaded_copy same

-- The store in memory keeps what is saved, and forgets it when it is deleted.
pub in_memory-IsStore : IsStore in_memory
unfolding in_memory
in_memory-IsStore = (in_memory-Saved, λ s. refl)

module _ {T W : Type 0} (d : Disk T W) (path : String) where
  -- `mkstemp` gives another name than the path: it adds a suffix.
  abbrev pub OtherName : Type 0
  OtherName =
      (files : Dict T) (w w' : W) (tmp : String) → d.make_temp files w ≡ (w', some tmp) → tmp ≢ path

  -- The file of the path is not touched by what is done to another.
  get-put-other :
      (tmp : String) (text : T) (files : Dict T)
      → tmp ≢ path
      → get path (put tmp text files) ≡ get path files
  get-put-other tmp text files other =
      get-put tmp path text files
      ∙ ap (λ b. if b then some text else get path files) (str_ne tmp path other)

  get-remove-other :
      (tmp : String) (files : Dict T) → tmp ≢ path → get path (remove tmp files) ≡ get path files
  get-remove-other tmp files other =
      get-remove tmp path files
      ∙ ap (λ b. if b then none else get path files) (str_ne tmp path other)

  -- A save that returns has put the text at the path, and one that raises has changed nothing there.
  abbrev Put : T → Dict T → Folder T W × Bool → Type 0
  Put text files (s, true) = get path s.files ≡ some text
  Put text files (s, false) = get path s.files ≡ get path files

  cleaned-Put :
      (tmp : String) (text : T) (files now : Dict T)
      → tmp ≢ path
      → get path now ≡ get path files
      → (r : W × Bool) → Put text files (cleaned d tmp r now)
  cleaned-Put tmp text files now other e (w, true) = get-remove-other tmp now other ∙ e
  cleaned-Put tmp text files now other e (w, false) = e

  put_in_place-Put :
      (tmp : String) (text : T) (files now : Dict T)
      → tmp ≢ path
      → get path now ≡ get path files
      → get tmp now ≡ some text
      → (r : W × Bool) → Put text files (put_in_place d tmp path r now)
  put_in_place-Put tmp text files now other e there (w, true) =
      ap (λ o. get path (renamed d tmp path o now)) there ∙ get-put-here path text (remove tmp now)
  put_in_place-Put tmp text files now other e there (w, false) =
      cleaned-Put tmp text files now other e (d.unlink w)

  dumped-Put :
      (tmp : String) (text : T) (files now : Dict T)
      → tmp ≢ path
      → get path now ≡ get path files
      → (r : W × Option T) → Put text files (dumped d tmp path text r now)
  dumped-Put tmp text files now other e (w, none) =
      put_in_place-Put tmp text files (put tmp text now) other
        (get-put-other tmp text now other ∙ e) (get-put-here tmp text now) (d.replace w)
  dumped-Put tmp text files now other e (w, some part) =
      cleaned-Put tmp text files (put tmp part now) other (get-put-other tmp part now other ∙ e)
        (d.unlink w)

  saved_as-Put :
      OtherName
      → (text : T) (files : Dict T) (w : W)
      → Put text files (saved_as d path text (d.make_temp files w) files)
  saved_as-Put others text files w = go (d.make_temp files w) refl
    where
      go :
          (r : W × Option String)
          → d.make_temp files w ≡ r
          → Put text files (saved_as d path text r files)
      go (w', none) e = refl
      go (w', some tmp) e =
          let other = others files w w' tmp e in
          dumped-Put tmp text files (put tmp d.empty files) other
            (get-put-other tmp d.empty files other) (d.dump text w')

  -- Where a file can be read, json reads back what it wrote, and a temporary file has another name
  -- than the path: a list that is saved to a file is the one that is loaded next, a save that raises,
  -- at any of its steps, leaves what is loaded from the path, and a deleted list is none.
  pub json_file-IsStore :
      OtherName
      → ((v : Json) → d.loads (d.dumps v) ≡ some v)
      → ((w : W) → d.readable w ≡ true)
      → d.is_one "1" ≡ true
      → IsStore (json_file d path)
  unfolding json_file
  json_file-IsStore others reads readable one = (
    λ items s h.
        let text = d.dumps (payload_of items) in
        saved items s h (saved_as d path text (d.make_temp s.files s.world) s.files)
          (saved_as-Put others text s.files s.world),
    λ s. ap (λ o. file_load d o s.world) (get-remove-here path s.files),
  )
    where
      payload_read :
          (items : TodoList)
          → read_payload d (some (payload_of items))
            ≡ loaded_copy (list_from_dict (list_to_dict items))
      payload_read items =
          ap (λ b. if b then loaded_copy (list_from_dict (list_to_dict items)) else unreadable) one

      load_written :
          (items : TodoList) (w : W)
          → All IsItem items
          → file_load d (some (d.dumps (payload_of items))) w ≡ loaded items
      load_written items w h =
          ap (λ b. if b then read_payload d (d.loads (d.dumps (payload_of items))) else unreadable)
            (readable w)
          ∙ ap (read_payload d) (reads (payload_of items))
          ∙ payload_read items
          ∙ ap loaded_copy (list_from_dict-list_to_dict items h)

      same_text : (o : Option T) (w v : W) → file_load d o w ≡ file_load d o v
      same_text none w v = refl
      same_text (some text) w v =
          ap (λ b. if b then read_payload d (d.loads text) else unreadable)
            (readable w ∙ sym (readable v))

      saved :
          (items : TodoList) (s : Folder T W)
          → All IsItem items
          → (r : Folder T W × Bool) → Put (d.dumps (payload_of items)) s.files r
          → Saved (json_file d path) items s r
      saved items s h (t, true) e = ap (λ o. file_load d o t.world) e ∙ load_written items t.world h
      saved items s h (t, false) e =
          ap (λ o. file_load d o t.world) e ∙ same_text (get path s.files) t.world s.world
