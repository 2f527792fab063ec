-- ===== src/Elf/Release.antt =====
-- hw4/elftool.c, what is held and let go: the resources of `elf_open`, with its way out on an error,
-- and `elf_close` with `elf_free_strtab`.
pub mod Held
use advanced_unix_progr.Base.{
  ℕ, Bool, true, false, ◌&&◌, Text, List, [], ◌∷◌, ◌++◌, Option, none, some, get_or, ◌==◌,
  if◌then◌else◌,
}
use advanced_unix_progr.Elf.{StrTab, Handle, Files}
use advanced_unix_progr.Elf.Load.{new_handle, is_class}

-- A file descriptor, what elf_begin gives, and the blocks of memory of a handle: itself, its tables,
-- each string table with its bytes, by the number of its section, and the symbols of the two symbol
-- tables.
pub data Resource : Type 0 where
  descriptor elf_object tab_block text_block : ℕ → Resource
  handle_block phdr_block shdr_block sym_block dsym_block : Resource
  sym_symbols dsym_symbols : Resource

abbrev pub code_of : Resource → ℕ × ℕ
code_of (descriptor n) = (0, n)
code_of (elf_object n) = (1, n)
code_of (tab_block n) = (2, n)
code_of (text_block n) = (3, n)
code_of handle_block = (4, 0)
code_of phdr_block = (5, 0)
code_of shdr_block = (6, 0)
code_of sym_block = (7, 0)
code_of dsym_block = (8, 0)
code_of sym_symbols = (9, 0)
code_of dsym_symbols = (10, 0)

abbrev pub is_same : Resource → Resource → Bool
is_same a b = ((code_of a).0 == (code_of b).0) && ((code_of a).1 == (code_of b).1)

abbrev pub also_held : Resource → Option (List Resource) → Option (List Resource)
also_held r none = none
also_held r (some held) = some (r ∷ held)

-- `free`, `close` and `elf_end`; `none` is letting go what is not held.
unfoldable pub release : Resource → List Resource → Option (List Resource)
release r [] = none
release r (x ∷ held) =
    let rest = release r held in if is_same r x then some held else also_held x rest

abbrev pub then_release : Option (List Resource) → Resource → Option (List Resource)
then_release none r = none
then_release (some held) r = release r held

abbrev pub release_if : Bool → Resource → Option (List Resource) → Option (List Resource)
release_if b r o = if b then then_release o r else o

abbrev pub is_some {ℓ} : {A : Type ℓ} → Option A → Bool
is_some none = false
is_some (some a) = true

-- The loop of `elf_free_strtab`.
unfoldable pub elf_free_strtab : List StrTab → Option (List Resource) → Option (List Resource)
elf_free_strtab [] o = o
elf_free_strtab (t ∷ ts) o =
    elf_free_strtab ts (then_release (then_release o (text_block t.id)) (tab_block t.id))

unfoldable pub elf_close : Handle → List Resource → Option (List Resource)
elf_close e held =
    let after_dsym = release_if (is_some e.dsym) dsym_block (some held) in
    let after_sym = release_if (is_some e.sym) sym_block after_dsym in
    let after_tabs = elf_free_strtab e.strtab after_sym in
    let after_shdr = release_if (is_some e.shdr) shdr_block after_tabs in
    let after_phdr = release_if (is_some e.phdr) phdr_block after_shdr in
    then_release (then_release (then_release after_phdr (elf_object e.elf)) (descriptor e.fd))
      handle_block

-- What `elf_open` returns, and what is held then.
pub record Opened : Type 0 where
  pub handle : Option Handle
  pub held : Option (List Resource)

module _ (F : Files) (malloc_works : Bool) where
  open F use {open_rdonly, elf_begin, elf_getident, getehdr}

  -- `err_quit`, where a handle is there only for a file of another class.
  abbrev pub err_quit : (fd : ℕ) → (elf : Option ℕ) → (e : Bool) → List Resource → Opened
  err_quit fd none e held = record {
    handle = none;
    held = release_if e handle_block (release (descriptor fd) held);
  }
  err_quit fd (some elf) e held = record {
    handle = none;
    held = release_if e handle_block (then_release (release (elf_object elf) held) (descriptor fd));
  }

  abbrev pub with_ident : (fd elf : ℕ) → Option Text → List Resource → Opened
  with_ident fd elf none held = err_quit fd (some elf) false held
  with_ident fd elf (some ident) held =
      let c = get_or ident 4 0 in
      if malloc_works
      then (if is_class c
          then record {
            handle = some (new_handle fd elf c (getehdr c elf));
            held = some (handle_block ∷ held);
          }
          else err_quit fd (some elf) true (handle_block ∷ held))
      else err_quit fd (some elf) false held

  abbrev pub with_elf : ℕ → Option ℕ → List Resource → Opened
  with_elf fd none held = err_quit fd none false held
  with_elf fd (some elf) held = with_ident fd elf (elf_getident elf) (elf_object elf ∷ held)

  abbrev pub with_fd : Option ℕ → List Resource → Opened
  with_fd none held = record { handle = none; held = some held }
  with_fd (some fd) held = with_elf fd (elf_begin fd) (descriptor fd ∷ held)

  unfoldable pub open_held : Text → List Resource → Opened
  open_held filename held = with_fd (open_rdonly filename) held
