-- ===== src/Sdb/Breaks/View.antt =====
-- The table of break points as its users see it: for each number, the address that it is taken for.
-- What free slots hold, and the saved words, are forgotten. The steps below are stated of these
-- lists alone.
pub mod Edits
use advanced_unix_progr.Base.{
  ℕ, zero, suc, ◌+◌, pos, true, false, List, [], ◌∷◌, Option, none, some, ◌≡◌, refl, ap, arith,
  ◌==◌, if◌then◌else◌, map, length, alter, Bool-cases, Option-cases, inl, inr,
}
use advanced_unix_progr.Sdb.State.{Bp}
use advanced_unix_progr.Sdb.Breaks.{free_slot, occupy}
use advanced_unix_progr.Sdb.Breaks.Table.{entry, without}

abbrev pub View : Type 0
View = List (Option ℕ)

abbrev slot_view : Bp → Option ℕ
slot_view bp = if bp.is_used then some bp.addr else none

abbrev pub view : List Bp → View
view bps = map slot_view bps

-- The first free number is taken for address `a`; `none` where no number is free.
abbrev pub take_first : ℕ → View → Option View
take_first a [] = none
take_first a (none ∷ v) = some (some a ∷ v)
take_first a (some b ∷ v) = elim (take_first a v) [ none ↦ none | some v' ↦ some (some b ∷ v') ]

-- Number `n` is free.
abbrev pub clear : ℕ → View → View
clear n [] = []
clear zero (a ∷ v) = none ∷ v
clear (suc n) (a ∷ v) = a ∷ clear n v

-- Where no slot is free, no number is.
pub take_first-full :
    (bps : List Bp) (i a : ℕ) → free_slot i bps ≡ none → take_first a (view bps) ≡ none
unfolding free_slot
take_first-full [] i a full = refl
take_first-full (bp ∷ rest) i a full = elim (Bool-cases bp.is_used) [
  | inr unused ↦ absurd (ground arith)
  | inl used ↦ rw (used, take_first-full rest (i + 1) a (rw used at full)) refl
]

-- The slot that is found free, once it is occupied, is the number that is taken.
pub take_first-occupy :
    (bps : List Bp) (i n a : ℕ)
    → free_slot i bps ≡ some n
    → (k : ℕ) × (n ≡ i + k) × (take_first a (view bps) ≡ some (view (alter (occupy a) k bps)))
unfolding free_slot
take_first-occupy [] i n a found = absurd (cc)
take_first-occupy (bp ∷ rest) i n a found = elim (Bool-cases bp.is_used) [
  | inr unused ↦ (0, ground arith, rw unused refl)
  | inl used ↦
      let (k, number, takes) = take_first-occupy rest (i + 1) n a (rw used at found) in
      (suc k, omega arith, rw (used, takes) refl)
]

-- Tables of the same length with the same entries have the same view.
pub view-entry :
    (bps bps' : List Bp)
    → length bps' ≡ length bps
    → ((j : ℕ) → entry bps' j ≡ entry bps j)
    → view bps ≡ view bps'
view-entry [] [] same entries = refl
view-entry [] (q ∷ rest') same entries = absurd (omega (arith, same))
view-entry (p ∷ rest) [] same entries = absurd (omega (arith, same))
view-entry (p ∷ rest) (q ∷ rest') same entries =
    rw (view-entry rest rest' (omega (arith, same)) (λ j. entries (suc j)), entries 0) refl

-- A table with the entries and the length of another, but for a number that is free.
pub view-without :
    (n : ℕ) (bps bps' : List Bp)
    → length bps' ≡ length bps
    → ((j : ℕ) → entry bps' j ≡ without (pos n) j (entry bps j))
    → clear n (view bps) ≡ view bps'
view-without n [] [] same entries = refl
view-without n [] (q ∷ rest') same entries = absurd (omega (arith, same))
view-without n (p ∷ rest) [] same entries = absurd (omega (arith, same))
view-without zero (p ∷ rest) (q ∷ rest') same entries =
    rw (view-entry rest rest' (omega (arith, same)) (λ j. later j), entries 0) refl
  where
    later : (j : ℕ) → entry rest' j ≡ entry rest j
    later j = let e = entries (suc j) in ground (arith, e)
view-without (suc n) (p ∷ rest) (q ∷ rest') same entries =
    rw (view-without n rest rest' (omega (arith, same)) later, first) refl
  where
    later : (j : ℕ) → entry rest' j ≡ without (pos n) j (entry rest j)
    later j = let e = entries (suc j) in ground (arith, e)

    first : slot_view q ≡ slot_view p
    first = let e = entries 0 in ground (arith, e)
