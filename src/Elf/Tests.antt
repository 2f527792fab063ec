-- ===== src/Elf/Tests.antt =====
-- The theorems about elftool.c at a concrete file with three sections behind header 0.
mod Symbols
use advanced_unix_progr.Base.{
  ℕ, ◌==◌, Bool, true, false, List, [], ◌∷◌, ◌++◌, none, some, ◌≡◌, refl, arith, codes,
  if◌then◌else◌, get_elem?,
}
use advanced_unix_progr.Elf.{Shdr, StrTab, Handle, Ehdr, Files}
use advanced_unix_progr.Elf.Load.{elf_open, elf_load_shdr, elf_load_strtab, new_handle}
use advanced_unix_progr.Elf.Release.{descriptor, elf_object, handle_block, elf_close, open_held}
use advanced_unix_progr.Elf.Release.Held.{elf_close-open_held}
use advanced_unix_progr.Elf.Symbols.{find_tab}
use advanced_unix_progr.Elf.Sections.{numbered, elf_load_shdr-sections}
use advanced_unix_progr.Elf.Tables.{tab_of, elf_load_strtab-find_tab}

abbrev section : (type size offset : ℕ) → Shdr
section type size offset = record {
  name = 1;
  type = type;
  flags = 0;
  addr = 0;
  offset = offset;
  size = size;
  link = 0;
  info = 0;
  addralign = 1;
  entsize = 0;
}

abbrev sections : List Shdr
sections = section 1 16 176 ∷ section 3 5 192 ∷ section 3 7 200 ∷ []

abbrev header : Ehdr
header = record { type = 2; phnum = 1; shnum = 4; shstrndx = 3; entry = 0x4000b0 }

-- The bytes at 192 can be read, and those at 200 where `whole` says so.
abbrev files : Bool → Files
files whole = record {
  open_rdonly = λ path. some 3;
  elf_begin = λ fd. some 0;
  elf_getident = λ elf. some (codes "ELF64");
  getehdr = λ c elf. header;
  getphdr = λ c elf. [];
  sections = λ c elf. numbered 1 sections;
  pread = λ fd size offset.
      if offset == 192
      then some (codes "a.out")
      else if whole
      then some (codes "symbols")
      else none;
  garbage = λ i. section 9 9 9;
}

abbrev elf : Handle
elf = new_handle 3 0 2 header

abbrev with_sections : Handle
with_sections = record elf { shdr = some (section 9 9 9 ∷ sections) }

elf_load_shdr-sections_example :
    elf_load_shdr (files true) elf ≡ (with_sections, some (section 9 9 9 ∷ sections))
elf_load_shdr-sections_example =
    elf_load_shdr-sections (files true) elf sections refl refl refl refl

headers_loaded :
    (whole : Bool)
    → elf_load_shdr (files whole) elf ≡ (with_sections, some (section 9 9 9 ∷ sections))
headers_loaded whole = elf_load_shdr-sections (files whole) elf sections refl refl refl refl

elf_load_strtab-find_tab_example :
    (tabs : List StrTab) × (elf_load_strtab (files true) elf
      ≡ (record with_sections { strtab = tabs }, tabs))
    × ((id : ℕ)
        → find_tab id tabs ≡ tab_of (files true) 3 id (get_elem? (section 9 9 9 ∷ sections) id))
elf_load_strtab-find_tab_example =
    elf_load_strtab-find_tab (files true) elf with_sections (section 9 9 9 ∷ sections) refl
      (headers_loaded true)
      (
        λ e. absurd (omega (arith, e)),
        (λ e. absurd (omega (arith, e)), (λ e p. ground arith, (λ e p. ground arith, tt))),
      )

abbrev class64_files : Files
class64_files = record (files true) { elf_getident = λ elf. some (127 ∷ codes "ELF" ++ (2 ∷ [])) }

abbrev open_handle : Handle
open_handle = new_handle 3 0 2 header

elf_close-open_held_example :
    let o = open_held class64_files true (codes "a.out") [] in
    (o.handle ≡ some open_handle)
    × (o.held ≡ some (handle_block ∷ elf_object 0 ∷ descriptor 3 ∷ []))
    × (elf_close open_handle (handle_block ∷ elf_object 0 ∷ descriptor 3 ∷ []) ≡ some [])
unfolding elf_open open_held
elf_close-open_held_example = elf_close-open_held class64_files true (codes "a.out") open_handle []
