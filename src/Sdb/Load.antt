-- ===== src/Sdb/Load.antt =====
-- hw4/sdb.h, `sdb_load` and `sdb_vmmap`.
use advanced_unix_progr.Base.{
  ℕ, ◌+◌, ◌%◌, ◌^◌, not, Text, List, [], ◌∷◌, Option, none, some, str_eq, codes, take, drop, map,
  length, ltb, ◌==◌, ◌++◌, if◌then◌else◌,
}
use advanced_unix_progr.Cstd.{strtok, before_char, after_char, scan_hex}
use advanced_unix_progr.Elf.{Shdr, StrTab, Handle, Files}
use advanced_unix_progr.Elf.Load.{elf_open}
use advanced_unix_progr.Elf.Symbols.{Read, found, null, find_tab, forget, elf_load_all}
use advanced_unix_progr.Sdb.Host.{
  no_program, unable_to_open, unable_to_load, no_section_names, loaded, text_area, map_line,
  MapField, range, perms, mapped_file, file_offset, uninitialised, null_pointer, dangling_pointer,
  out_of_bounds, Cmd, ◌>>=◌, ◌>>◌, need, observe, pure, print, fail,
}
use advanced_unix_progr.Sdb.State.{
  Sdb, TabPointer, null_tab, dangling_tab, tab, no_pid, unuse, sdb_is_loaded, sdb_is_running,
}
use advanced_unix_progr.Sdb.Kernel.{Kernel}

-- The size of `path`.
abbrev pub path_size : ℕ
path_size = 128

-- The string at an offset of a string table; `none` where no NUL ends it.
abbrev pub string_at : Text → ℕ → Option Text
string_at contents offset = before_char 0 (drop offset contents)

-- A pointer into tables that are freed.
abbrev pub freed : TabPointer → TabPointer
freed null_tab = null_tab
freed dangling_tab = dangling_tab
freed (tab t) = dangling_tab

-- What `sdb_load` first does about a program that was loaded.
abbrev pub unload_handle : Sdb → Option Handle → Sdb
unload_handle sdb none = sdb
unload_handle sdb (some e) = record sdb { eh = none; strtab = freed sdb.strtab }

abbrev pub unload : Sdb → Sdb
unload sdb = unload_handle sdb sdb.eh

-- The state of the debugger once a program is loaded.
unfoldable pub loaded_sdb : Sdb → Handle → StrTab → Text → Sdb
loaded_sdb sdb e t filename = record sdb {
  eh = some e;
  strtab = tab t;
  path = filename;
  pid = no_pid;
  breaks = map unuse sdb.breaks;
  last_disasm_addr = 0;
}

-- The headers from header 1, where the loop over them reads any.
abbrev pub headers_from_1 : Handle → Option (List Shdr)
headers_from_1 e =
    if ltb 1 e.shnum
    then elim (e.shdr) [ none ↦ none | some s ↦ some (drop 1 (take e.shnum s)) ]
    else some []

module _ (K : Kernel) where
  open K use {World, maps}

  -- The loop that looks for the section `.text`.
  unfoldable pub find_text : Text → List Shdr → Cmd World (Option Shdr)
  find_text contents [] = pure none
  find_text contents (s ∷ rest) = do
    let next = find_text contents rest
    name ← need out_of_bounds (string_at contents s.name)
    if str_eq name (codes ".text") then pure (some s) else next

  abbrev pub say_loaded : Handle → Text → Option Shdr → Cmd World (Unit {0})
  say_loaded e filename none = pure tt
  say_loaded e filename (some s) = print (loaded filename e.entrypoint s.addr s.offset s.size)

  -- From the search of `.text` to the end.
  unfoldable pub load_text : Sdb → Handle → Text → StrTab → Cmd World Sdb
  load_text sdb e filename t = do
    shdr ← need null_pointer (headers_from_1 e)
    text ← find_text t.contents shdr
    say_loaded e filename text
    if ltb (length filename) path_size
        then pure (loaded_sdb sdb e t filename)
        else fail out_of_bounds

  -- From the search of the section names.
  abbrev pub load_names : Sdb → Handle → Text → Option StrTab → Cmd World Sdb
  load_names sdb e filename none =
      print no_section_names >> pure (record sdb { eh = some e; strtab = null_tab })
  load_names sdb e filename (some t) = load_text sdb e filename t

  abbrev pub load_tables : Sdb → Handle → Text → Read Handle → Cmd World Sdb
  load_tables sdb e filename Read.uninitialised = fail uninitialised
  load_tables sdb e filename null =
      print (unable_to_load filename) >> pure (record sdb { eh = some (forget e) })
  load_tables sdb e filename (found e') =
      load_names sdb e' filename (find_tab e'.shstrndx e'.strtab)

  abbrev pub load_handle : Files → Sdb → Text → Option Handle → Cmd World Sdb
  load_handle F sdb filename none =
      print (unable_to_open filename) >> pure (record sdb { eh = none })
  load_handle F sdb filename (some e) = load_tables sdb e filename (elf_load_all F e)

  unfoldable pub sdb_load : Files → Sdb → Text → Cmd World Sdb
  sdb_load F sdb new_filename = load_handle F (unload sdb) new_filename (elf_open F new_filename)

  -- The bytes that `&tab->data[...]` points into.
  abbrev pub names_of : TabPointer → Cmd World Text
  names_of null_tab = fail null_pointer
  names_of dangling_tab = fail dangling_pointer
  names_of (tab t) = pure t.contents

  abbrev pub say_text_area : Text → Option Shdr → Cmd World (Unit {0})
  say_text_area path none = pure tt
  say_text_area path (some s) = print (text_area s.addr ((s.addr + s.size) % 2 ^ 64) s.offset path)

  -- `vmmap` of a program that does not run. The names are looked at only if there is a section.
  unfoldable pub vmmap_file : Sdb → Cmd World (Unit {0})
  vmmap_file sdb = do
    e ← need null_pointer sdb.eh
    shdr ← need null_pointer (headers_from_1 e)
    elim shdr [
      | [] ↦ pure tt
      | s ∷ rest ↦
          (names_of sdb.strtab >>= λ names. find_text names (s ∷ rest) >>= say_text_area sdb.path)
    ]

  -- The `switch` on the token's number in `print_vm_maps`.
  unfoldable pub map_field : ℕ → Text → Cmd World (List MapField)
  map_field count token =
      if count == 0
      then (need null_pointer (before_char b'-' token) >>= λ first.
          need uninitialised (scan_hex first) >>= λ begin.
          need uninitialised (scan_hex (after_char b'-' token)) >>= λ end.
          pure (range begin end ∷ []))
      else if count == 1
      then pure (perms (take 3 token) ∷ [])
      else if count == 2
      then (need uninitialised (scan_hex token) >>= λ offset.
          pure (file_offset (offset % 2 ^ 32) ∷ []))
      else if count == 5
      then pure (mapped_file token ∷ [])
      else pure []

  unfoldable pub map_fields : ℕ → List Text → Cmd World (List MapField)
  map_fields count [] = pure []
  map_fields count (token ∷ rest) = do
    let next = map_fields (count + 1) rest
    field ← map_field count token
    fields ← next
    pure (field ++ fields)

  unfoldable pub print_vm_maps : Text → Cmd World (Unit {0})
  print_vm_maps line = do fields ← map_fields 0 (strtok (codes " \n") line); print (map_line fields)

  unfoldable pub print_lines : List Text → Cmd World (Unit {0})
  print_lines [] = pure tt
  print_lines (line ∷ rest) = do print_vm_maps line; print_lines rest

  unfoldable pub sdb_vmmap : Sdb → Cmd World (Unit {0})
  sdb_vmmap sdb =
      if not (sdb_is_loaded sdb)
      then print no_program
      else if not (sdb_is_running sdb)
      then vmmap_file sdb
      else do
        lines ← observe (maps sdb.pid)
        found_lines ← need null_pointer lines
        print_lines found_lines
