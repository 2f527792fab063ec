-- ===== src/Elf/Sections.antt =====
-- What `elf_load_shdr` reads.
use advanced_unix_progr.Base.{
  ℕ, suc, ◌+◌, ◌%◌, true, false, List, [], ◌∷◌, ◌++◌, none, some, ◌≡◌, refl, ap, ◌∙◌, sym, arith,
  length, set, ◌==◌,
}
use mathlib.Core.List.{append_assoc}
use native.Mathlib.Nat.{mod-eq_of_lt}
use advanced_unix_progr.Elf.{Shdr, Handle, Files}
use advanced_unix_progr.Elf.Load.{is_class, fresh, put_sections, elf_load_shdr}

-- Sections with their numbers, from `i`.
abbrev pub numbered : ℕ → List Shdr → List (ℕ × Shdr)
numbered i [] = []
numbered i (s ∷ ss) = (i, s) ∷ numbered (i + 1) ss

set-append :
    (pre rest : List Shdr) (x v : Shdr) → set (pre ++ x ∷ rest) (length pre) v ≡ pre ++ v ∷ rest
set-append [] rest x v = refl
set-append (p ∷ pre) rest x v = ap (λ t. p ∷ t) (set-append pre rest x v)

length-snoc : (pre : List Shdr) (v : Shdr) → length (pre ++ v ∷ []) ≡ length pre + 1
length-snoc [] v = refl
length-snoc (p ∷ pre) v = omega (arith, length-snoc pre v)

put_sections-numbered :
    (n i : ℕ) (garbage : ℕ → Shdr) (pre ss : List Shdr)
    → length pre ≡ i
    → n ≡ i + length ss
    → put_sections n (numbered i ss) (pre ++ fresh garbage i (length ss)) ≡ pre ++ ss
unfolding put_sections fresh
put_sections-numbered n i garbage pre [] here all = refl
put_sections-numbered n i garbage pre (s ∷ ss) here all =
    let at : i % n ≡ length pre = mod-eq_of_lt (omega arith) ∙ sym here in
    let more =
      put_sections-numbered n (i + 1) garbage (pre ++ s ∷ []) ss (length-snoc pre s ∙ omega arith)
        (omega arith) in
    let placed : set (pre ++ garbage i ∷ fresh garbage (i + 1) (length ss)) (i % n) s
        ≡ (pre ++ s ∷ []) ++ fresh garbage (i + 1) (length ss) =
      ap (λ k. set (pre ++ garbage i ∷ fresh garbage (i + 1) (length ss)) k s) at
      ∙ set-append pre (fresh garbage (i + 1) (length ss)) (garbage i) s
      ∙ sym (append_assoc pre (s ∷ []) (fresh garbage (i + 1) (length ss))) in
    ap (put_sections n (numbered (i + 1) ss)) placed ∙ more ∙ append_assoc pre (s ∷ []) ss

-- `elf_load_shdr` on a handle without section headers, of a file whose sections libelf numbers from
-- 1: header `i` of the table is section `i` for every one of them, and the table is kept in the
-- handle. Header 0 is never written: it holds what the allocated memory held.
pub elf_load_shdr-sections :
    (F : Files) (e : Handle) (ss : List Shdr)
    → e.shdr ≡ none
    → is_class e.clazz ≡ true
    → F.sections e.clazz e.elf ≡ numbered 1 ss
    → e.shnum ≡ suc (length ss)
    → elf_load_shdr F e ≡ (record e { shdr = some (F.garbage 0 ∷ ss) }, some (F.garbage 0 ∷ ss))
unfolding elf_load_shdr fresh
elf_load_shdr-sections F e ss unread class scns number =
    let some_header : (suc (length ss) == 0) ≡ false = ground arith in
    rw (
      unread,
      class,
      scns,
      number,
      some_header,
      put_sections-numbered (suc (length ss)) 1 F.garbage (F.garbage 0 ∷ []) ss refl (omega arith),
    )
