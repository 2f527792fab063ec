-- ===== src/Elf/Release/Held.antt =====
-- That nothing is lost and nothing is let go twice.
use advanced_unix_progr.Base.{
  ℕ, Bool, true, false, Text, List, [], ◌∷◌, ◌++◌, Option, none, some, ◌≡◌, refl, ap, ◌∙◌, arith,
  get_or, ◌==◌, if◌then◌else◌, Bool-cases, inl, inr,
}
use advanced_unix_progr.Elf.{StrTab, Handle, Files}
use advanced_unix_progr.Elf.Load.{is_class, identified, begun, opened, elf_open}
use advanced_unix_progr.Elf.Release.{
  Resource, descriptor, elf_object, tab_block, text_block, handle_block, phdr_block, shdr_block,
  sym_block, dsym_block, sym_symbols, dsym_symbols, is_same, release, then_release, release_if,
  is_some, elf_free_strtab, elf_close, Opened, with_ident, with_elf, with_fd, open_held,
}

release-head : (r : Resource) (held : List Resource) → release r (r ∷ held) ≡ some held
unfolding release
release-head r held = let same : is_same r r ≡ true = ground arith in rw same refl

abbrev pub if_some {ℓ} : {A : Type ℓ} → Option A → Resource → List Resource
if_some none r = []
if_some (some a) r = r ∷ []

abbrev pub of_tabs : List StrTab → List Resource
of_tabs [] = []
of_tabs (t ∷ ts) = text_block t.id ∷ tab_block t.id ∷ of_tabs ts

-- The symbols of a handle's two symbol tables, which `elf_load_symtab_internal` gets.
abbrev pub symbols : Handle → List Resource → List Resource
symbols e held = if_some e.dsym dsym_symbols ++ (if_some e.sym sym_symbols ++ held)

-- What a handle has: its tables, what `elf_open` got for it, and its symbols.
abbrev pub owned : Handle → List Resource → List Resource
owned e held =
    if_some e.dsym dsym_block
    ++ (if_some e.sym sym_block
        ++ (of_tabs e.strtab
            ++ (if_some e.shdr shdr_block
                ++ (if_some e.phdr phdr_block
                    ++ (handle_block ∷ elf_object e.elf ∷ descriptor e.fd ∷ symbols e held)))))

release_if-some :
    {A : Type 0} (o : Option A) (r : Resource) (held : List Resource)
    → release_if (is_some o) r (some (if_some o r ++ held)) ≡ some held
release_if-some none r held = refl
release_if-some (some a) r held = release-head r held

elf_free_strtab-of_tabs :
    (ts : List StrTab) (held : List Resource)
    → elf_free_strtab ts (some (of_tabs ts ++ held)) ≡ some held
unfolding elf_free_strtab
elf_free_strtab-of_tabs [] held = refl
elf_free_strtab-of_tabs (t ∷ ts) held =
    rw
      (
        release-head (text_block t.id) (tab_block t.id ∷ (of_tabs ts ++ held)),
        release-head (tab_block t.id) (of_tabs ts ++ held),
      )
      (elf_free_strtab-of_tabs ts held)

release_last :
    (elf fd : ℕ) (held : List Resource)
    → then_release
        (then_release
          (release (elf_object elf) (handle_block ∷ elf_object elf ∷ descriptor fd ∷ held))
          (descriptor fd))
        handle_block
      ≡ some held
unfolding release
release_last elf fd held =
    let same_elf : (elf == elf) ≡ true = ground arith in
    let same_fd : (fd == fd) ≡ true = ground arith in rw (same_elf, same_fd) refl

elf_close-owned :
    (e : Handle) (held : List Resource) → elf_close e (owned e held) ≡ some (symbols e held)
unfolding elf_close
elf_close-owned e held =
    let base = handle_block ∷ elf_object e.elf ∷ descriptor e.fd ∷ symbols e held in
    let phdr = if_some e.phdr phdr_block ++ base in
    let shdr = if_some e.shdr shdr_block ++ phdr in
    let tabs = of_tabs e.strtab ++ shdr in
    let syms = if_some e.sym sym_block ++ tabs in
    let last : Option (List Resource) → Option (List Resource) = λ o.
      then_release (then_release (then_release o (elf_object e.elf)) (descriptor e.fd))
        handle_block in
    let from_phdr : Option (List Resource) → Option (List Resource) =
      λ o. last (release_if (is_some e.phdr) phdr_block o) in
    let from_shdr : Option (List Resource) → Option (List Resource) =
      λ o. from_phdr (release_if (is_some e.shdr) shdr_block o) in
    let from_tabs : Option (List Resource) → Option (List Resource) =
      λ o. from_shdr (elf_free_strtab e.strtab o) in
    let from_sym : Option (List Resource) → Option (List Resource) =
      λ o. from_tabs (release_if (is_some e.sym) sym_block o) in
    ap from_sym (release_if-some e.dsym dsym_block syms)
    ∙ ap from_tabs (release_if-some e.sym sym_block tabs)
    ∙ ap from_shdr (elf_free_strtab-of_tabs e.strtab shdr)
    ∙ ap from_phdr (release_if-some e.shdr shdr_block phdr)
    ∙ ap last (release_if-some e.phdr phdr_block base)
    ∙ release_last e.elf e.fd (symbols e held)

-- What is held with the handle that `elf_open` returned.
abbrev pub held_with : Option Handle → List Resource → Option (List Resource)
held_with none held = some held
held_with (some e) held = some (owned e held)

release_both :
    (elf fd : ℕ) (held : List Resource)
    → then_release
        (release (elf_object elf) (elf_object elf ∷ descriptor fd ∷ held))
        (descriptor fd)
      ≡ some held
release_both elf fd held =
    rw (release-head (elf_object elf) (descriptor fd ∷ held)) (release-head (descriptor fd) held)

-- A handle is there if memory can be had for the one that is read, and what is held fits it.
abbrev Agrees : Bool → Option Handle → List Resource → Opened → Type 0
Agrees works e held o =
    (o.handle ≡ (if works then e else none)) × (o.held ≡ held_with o.handle held)

module _ (F : Files) where
  with_ident-Agrees :
      (works : Bool) (fd elf : ℕ) (ident : Option Text) (held : List Resource)
      → Agrees works
          (identified F fd elf ident)
          held
          (with_ident F works fd elf ident (elf_object elf ∷ descriptor fd ∷ held))
  with_ident-Agrees true fd elf none held = (refl, release_both elf fd held)
  with_ident-Agrees false fd elf none held = (refl, release_both elf fd held)
  with_ident-Agrees false fd elf (some ident) held = (refl, release_both elf fd held)
  with_ident-Agrees true fd elf (some ident) held =
      elim (Bool-cases (is_class (get_or ident 4 0))) [
        | inl known ↦ rw known (refl, refl)
        | inr other ↦ rw other (refl, release_last elf fd held)
      ]

  with_elf-Agrees :
      (works : Bool) (fd : ℕ) (elf : Option ℕ) (held : List Resource)
      → Agrees works (begun F fd elf) held (with_elf F works fd elf (descriptor fd ∷ held))
  with_elf-Agrees true fd none held = (refl, release-head (descriptor fd) held)
  with_elf-Agrees false fd none held = (refl, release-head (descriptor fd) held)
  with_elf-Agrees works fd (some elf) held =
      with_ident-Agrees works fd elf (F.elf_getident elf) held

  with_fd-Agrees :
      (works : Bool) (fd : Option ℕ) (held : List Resource)
      → Agrees works (opened F fd) held (with_fd F works fd held)
  with_fd-Agrees true none held = (refl, refl)
  with_fd-Agrees false none held = (refl, refl)
  with_fd-Agrees works (some fd) held = with_elf-Agrees works fd (F.elf_begin fd) held

-- `elf_open` returns a handle as the model without resources does, where memory can be had. Without a
-- handle all that it got is let go; with one, what the handle has is held; and `elf_close` of any
-- handle lets go what it has, nothing twice, but for the symbols of its symbol tables: the blocks that
-- `elf_load_symtab_internal` gets for them stay held.
pub elf_close-open_held :
    (F : Files) (works : Bool) (filename : Text) (e : Handle) (held : List Resource)
    → let o = open_held F works filename held in
      (o.handle ≡ (if works then elf_open F filename else none))
      × (o.held ≡ held_with o.handle held)
      × (elf_close e (owned e held) ≡ some (symbols e held))
unfolding open_held elf_open
elf_close-open_held F works filename e held =
    let (same, fits) = with_fd-Agrees F works (F.open_rdonly filename) held in
    (same, fits, elf_close-owned e held)
