-- ===== src/Sdb/Breaks/View/Edits.antt =====
-- `break` and `delete`, in a program that does not run, as changes of the view.
use advanced_unix_progr.Base.{
  ℕ, ℤ, pos, negsuc, true, false, Text, List, [], ◌∷◌, Option, none, some, ◌≡◌, refl, ap, ◌∙◌, ◌⊎◌,
  inl, inr, alter, arith, length, Option-cases,
}
use advanced_unix_progr.Cstd.{scan_hex}
use advanced_unix_progr.Sdb.Host.{Fault, Host, Run, ok, fault, Cmd, ◌>>=◌, pure, uninitialised}
use advanced_unix_progr.Sdb.State.{Bp, Sdb, max_break, sdb_is_loaded, sdb_is_running}
use advanced_unix_progr.Sdb.Kernel.{Kernel}
use advanced_unix_progr.Sdb.Breaks.{
  skip_prefix, free_slot, occupy, put_break, sdb_set_break, sdb_delete,
}
use advanced_unix_progr.Sdb.Breaks.Table.{entry, without, sdb_delete_table}
use advanced_unix_progr.Sdb.Breaks.View.{
  View, view, take_first, clear, take_first-full, take_first-occupy, view-entry, view-without,
}
use advanced_unix_progr.Sdb.Valid.Breaks.{length-alter}

-- One command, with the operand that it is given.
pub data Edit : Type 0 where
  break_at : Text → Edit
  delete : ℤ → Edit

-- What a command makes of a view; `none` is undefined behaviour: an address that cannot be read, or
-- no free number.
abbrev take_address : View → Option ℕ → Option View
take_address v none = none
take_address v (some a) = take_first a v

pub step : Edit → View → Option View
step (break_at s) v = take_address v (scan_hex (skip_prefix s))
step (delete (pos i)) v = some (clear i v)
step (delete (negsuc i)) v = some v

abbrev then_step : Option View → (View → Option View) → Option View
then_step none later = none
then_step (some v) later = later v

pub steps : List Edit → View → Option View
steps [] v = some v
steps (e ∷ es) v = then_step (step e v) (steps es)

module _ (K : Kernel) where
  open K use {World}

  abbrev pub edit : Edit → Sdb → Cmd World Sdb
  edit (break_at s) sdb = sdb_set_break K sdb s
  edit (delete index) sdb = sdb_delete K sdb index

  abbrev pub edits : List Edit → Sdb → Cmd World Sdb
  edits [] sdb = pure sdb
  edits (e ∷ es) sdb = edit e sdb >>= edits es

  -- The view of the table that a run returns.
  abbrev pub view_of : Run World Sdb → Option View
  view_of (ok sdb h) = some (view sdb.breaks)
  view_of _ = none

  -- A program is loaded and does not run, and the table has ten slots.
  abbrev pub IsEditable : Sdb → Type 0
  IsEditable sdb =
      (sdb_is_loaded sdb ≡ true) × (sdb_is_running sdb ≡ false) × (length sdb.breaks ≡ max_break)

  -- A command returns with the view that the step has, or is undefined where the step is.
  abbrev Follows : Edit → Sdb → Host World → Type 0
  Follows e sdb h =
      ((sdb' : Sdb) × (h' : Host World) × (edit e sdb h ≡ ok sdb' h')
        × IsEditable sdb'
        × (step e (view sdb.breaks) ≡ some (view sdb'.breaks)))
      ⊎ ((f : Fault) × (edit e sdb h ≡ fault f) × (step e (view sdb.breaks) ≡ none))

  editable :
      (sdb : Sdb) (bps : List Bp)
      → IsEditable sdb
      → length bps ≡ length sdb.breaks
      → IsEditable (record sdb { breaks = bps })
  unfolding sdb_is_loaded sdb_is_running
  editable sdb bps (loaded, idle, ten) same = (loaded, idle, same ∙ ten)

  break_at-Follows :
      (s : Text) (sdb : Sdb) (h : Host World) → IsEditable sdb → Follows (break_at s) sdb h
  unfolding sdb_set_break step
  break_at-Follows s sdb h (loaded, idle, ten) = elim (Option-cases (scan_hex (skip_prefix s))) [
    | inl unread ↦ inr (uninitialised, rw (loaded, unread) refl, rw unread refl)
    | inr (addr, read) ↦ elim (Option-cases (free_slot 0 sdb.breaks)) [
      | inl full ↦ inr (
        uninitialised,
        rw (loaded, read, full) refl,
        rw (read, take_first-full sdb.breaks 0 addr full) refl,
      )
      | inr (n, free) ↦
          let (k, number, takes) = take_first-occupy sdb.breaks 0 n addr free in
          let e : k ≡ n = omega (arith, number) in
          inl (
            put_break n addr sdb,
            h,
            rw (loaded, read, free, idle) refl,
            editable sdb _ (loaded, idle, ten) (length-alter (occupy addr) n sdb.breaks),
            rw read (takes ∙ ap (λ m. some (view (alter (occupy addr) m sdb.breaks))) e),
          )
    ]
  ]

  step-delete :
      (index : ℤ) (bps bps' : List Bp)
      → length bps' ≡ length bps
      → ((j : ℕ) → entry bps' j ≡ without index j (entry bps j))
      → step (delete index) (view bps) ≡ some (view bps')
  unfolding step
  step-delete (pos n) bps bps' same entries = ap some (view-without n bps bps' same entries)
  step-delete (negsuc n) bps bps' same entries = ap some (view-entry bps bps' same entries)

  delete-Follows :
      (index : ℤ) (sdb : Sdb) (h : Host World) → IsEditable sdb → Follows (delete index) sdb h
  unfolding step
  delete-Follows index sdb h (loaded, idle, ten) =
      let (breaks', h', runs, kept, entries, told) = sdb_delete_table K sdb h index ten in
      inl (
        record sdb { breaks = breaks' },
        h',
        runs,
        editable sdb breaks' (loaded, idle, ten) kept,
        step-delete index sdb.breaks breaks' kept entries,
      )

  edit-Follows : (e : Edit) (sdb : Sdb) (h : Host World) → IsEditable sdb → Follows e sdb h
  edit-Follows (break_at s) sdb h ready = break_at-Follows s sdb h ready
  edit-Follows (delete index) sdb h ready = delete-Follows index sdb h ready

  -- Any sequence of `break` and `delete`, from a table of ten slots and with a program that is loaded
  -- and does not run, does to the table what the steps do to its view: it returns with the view that
  -- they lead to, and runs into undefined behaviour where a step has none. What the free slots hold,
  -- the saved words and the system do not matter.
  pub edits-steps :
      (es : List Edit) (sdb : Sdb) (h : Host World)
      → IsEditable sdb
      → view_of (edits es sdb h) ≡ steps es (view sdb.breaks)
  unfolding steps
  edits-steps [] sdb h ready = refl
  edits-steps (e ∷ es) sdb h ready = elim (edit-Follows e sdb h ready) [
    | inl (sdb', h', runs, ready', moves) ↦ rw (runs, moves) (edits-steps es sdb' h' ready')
    | inr (f, fails, stuck) ↦ rw (fails, stuck) refl
  ]
