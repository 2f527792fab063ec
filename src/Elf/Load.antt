-- ===== src/Elf/Load.antt =====
-- hw4/elftool.c but for the symbol tables: `elf_open`, `elf_load_phdr`, `elf_load_shdr` and
-- `elf_load_strtab`. A function that keeps what it read in the handle returns the handle first.
use advanced_unix_progr.Base.{
  ℕ, zero, suc, ◌+◌, ◌%◌, ◌^◌, Bool, not, ◌||◌, Text, List, [], ◌∷◌, Option, none, some, take, set,
  get_or, ◌==◌, if◌then◌else◌,
}
use advanced_unix_progr.Elf.{Phdr, Shdr, StrTab, Handle, Ehdr, Files}

abbrev pub class32 : ℕ
class32 = 1

abbrev pub class64 : ℕ
class64 = 2

abbrev pub is_class : ℕ → Bool
is_class c = (c == class32) || (c == class64)

abbrev pub sht_strtab : ℕ
sht_strtab = 3

-- The handle of a file whose header was read.
abbrev pub new_handle : (fd elf clazz : ℕ) → Ehdr → Handle
new_handle fd elf clazz ehdr = record {
  fd = fd;
  elf = elf;
  clazz = clazz;
  type = ehdr.type;
  phnum = ehdr.phnum;
  shnum = ehdr.shnum;
  shstrndx = ehdr.shstrndx;
  entrypoint = ehdr.entry;
  phdr = none;
  shdr = none;
  strtab = [];
  sym = none;
  dsym = none;
}

-- What memory that was just allocated for `n` headers holds, from header `i`.
unfoldable pub fresh : (ℕ → Shdr) → ℕ → ℕ → List Shdr
fresh garbage i zero = []
fresh garbage i (suc n) = garbage i ∷ fresh garbage (i + 1) n

-- The loop over `elf_nextscn`.
unfoldable pub put_sections : ℕ → List (ℕ × Shdr) → List Shdr → List Shdr
put_sections shnum [] shdr = shdr
put_sections shnum ((ndx, s) ∷ rest) shdr = put_sections shnum rest (set shdr (ndx % shnum) s)

module _ (F : Files) where
  open F use {open_rdonly, elf_begin, elf_getident, getehdr, getphdr, sections, pread, garbage}

  -- `ident[4]` decides the class.
  abbrev pub handle_of : (fd elf : ℕ) → Text → Option Handle
  handle_of fd elf ident =
      let c = get_or ident 4 0 in
      if is_class c then some (new_handle fd elf c (getehdr c elf)) else none

  abbrev pub identified : (fd elf : ℕ) → Option Text → Option Handle
  identified fd elf none = none
  identified fd elf (some ident) = handle_of fd elf ident

  abbrev pub begun : ℕ → Option ℕ → Option Handle
  begun fd none = none
  begun fd (some elf) = identified fd elf (elf_getident elf)

  abbrev pub opened : Option ℕ → Option Handle
  opened none = none
  opened (some fd) = begun fd (elf_begin fd)

  unfoldable pub elf_open : Text → Option Handle
  elf_open filename = opened (open_rdonly filename)

  unfoldable pub elf_load_phdr : Handle → Handle × Option (List Phdr)
  elf_load_phdr e = elim (e.phdr) [
    | some phdr ↦ (e, some phdr)
    | none ↦
        if (e.phnum == 0) || not (is_class e.clazz)
        then (e, none)
        else let phdr = take e.phnum (getphdr e.clazz e.elf) in
          (record e { phdr = some phdr }, some phdr)
  ]

  unfoldable pub elf_load_shdr : Handle → Handle × Option (List Shdr)
  elf_load_shdr e = elim (e.shdr) [
    | some shdr ↦ (e, some shdr)
    | none ↦
        if (e.shnum == 0) || not (is_class e.clazz)
        then (e, none)
        else let shdr = put_sections e.shnum (sections e.clazz e.elf) (fresh garbage 0 e.shnum) in
          (record e { shdr = some shdr }, some shdr)
  ]

  -- A table whose bytes were read is put before the others. Its `datasize` is an `int`.
  abbrev pub add_tab : ℕ → Shdr → List StrTab → Option Text → Option (List StrTab)
  add_tab i s strtab none = none
  add_tab i s strtab (some contents) =
      some (record { id = i; datasize = s.size % 2 ^ 32; contents = contents } ∷ strtab)

  -- The body of the loop; `none` is the way to `err_quit`.
  unfoldable pub read_tab : (fd i : ℕ) → Shdr → List StrTab → Option (List StrTab)
  read_tab fd i s strtab =
      if not (s.type == sht_strtab)
      then some strtab
      else add_tab i s strtab (pread fd s.size s.offset)

  abbrev pub and_next :
      Option (List StrTab) → (List StrTab → Option (List StrTab)) → Option (List StrTab)
  and_next none k = none
  and_next (some strtab) k = k strtab

  -- The loop over the section headers, from header `i`.
  unfoldable pub read_tabs : (fd i : ℕ) → List Shdr → List StrTab → Option (List StrTab)
  read_tabs fd i [] strtab = some strtab
  read_tabs fd i (s ∷ rest) strtab = and_next (read_tab fd i s strtab) (read_tabs fd (i + 1) rest)

  -- What is kept and returned once the tables are read; after an error nothing is kept.
  abbrev pub keep_tabs : Handle → Option (List StrTab) → Handle × List StrTab
  keep_tabs e none = (e, [])
  keep_tabs e (some strtab) = (record e { strtab = strtab }, strtab)

  abbrev pub load_tabs : Handle × Option (List Shdr) → Handle × List StrTab
  load_tabs (e, none) = (e, [])
  load_tabs (e, some shdr) = keep_tabs e (read_tabs e.fd 0 (take e.shnum shdr) [])

  -- `[]` is `NULL`.
  abbrev pub kept_or_loaded : Handle → List StrTab → Handle × List StrTab
  kept_or_loaded e [] = load_tabs (elf_load_shdr e)
  kept_or_loaded e (t ∷ ts) = (e, t ∷ ts)

  unfoldable pub elf_load_strtab : Handle → Handle × List StrTab
  elf_load_strtab e = kept_or_loaded e e.strtab
