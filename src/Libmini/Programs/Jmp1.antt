-- ===== src/Libmini/Programs/Jmp1.antt =====
-- hw3/jmp1.c: ten functions, each of which jumps back to `main`.
use advanced_unix_progr.Base.{
  ℕ, zero, suc, ◌+◌, ◌%◌, ◌^◌, Text, List, [], ◌∷◌, Option, none, some, map, codes, get_elem?, ltb,
  ◌==◌, if◌then◌else◌,
}
use advanced_unix_progr.Libmini.Jumps.{Regs, Masks, setjmp, longjmp}
use advanced_unix_progr.Libmini.Jumps.Back.{returned}
use advanced_unix_progr.Libmini.Programs.{Program, assign, print}

-- What `a` to `j` print; they jump with 1 to 10.
abbrev pub funs : List Text
funs = map codes (
    "This is function a().\n" ∷ "This is function b().\n" ∷ "This is function c().\n"
    ∷ "This is function d().\n" ∷ "This is function e().\n" ∷ "This is function f().\n"
    ∷ "This is function g().\n" ∷ "This is function h().\n" ∷ "This is function i().\n"
    ∷ "This is function j().\n" ∷ [])

-- `if(setjmp(jb) != 0) i++`, for the `int` that is returned.
abbrev pub count : {W : Type 0} → Regs → Program W → Program W
count regs s = if regs.rax % 2 ^ 32 == 0 then s else assign regs.rbp (s.local regs.rbp + 1) s

module _ {W : Type 0} (kernel : Masks W) (put : Text → W → W) where
  -- `FUNBODY`
  unfoldable pub funbody : Text → ℕ → Program W → Regs × Program W
  funbody m from s =
      let s' = print put m s in
      let (regs, w) = longjmp kernel s'.jb from s'.world in (regs, record s' { world = w })

  -- `funs[i]()`, where `again` is the program behind the return of `setjmp`, at `place`; `none` is a
  -- read behind the array, or a jump to another address.
  unfoldable pub call_fun :
      ℕ → (Regs → Program W → Option (Program W)) → ℕ → Program W → Option (Program W)
  call_fun place again i s = elim (get_elem? funs i) [
    | none ↦ none
    | some m ↦
        let (regs, s') = funbody m (i + 1) s in if regs.rip == place then again regs s' else none
  ]

  -- `main` from the return of `setjmp` at `place`; `none` is also more than `fuel` returns.
  unfoldable pub behind_setjmp : (fuel place : ℕ) → Regs → Program W → Option (Program W)
  behind_setjmp zero place regs s = none
  behind_setjmp (suc fuel) place regs s =
      let s' = count regs s in
      let i = s'.local regs.rbp in
      if ltb i 10 then call_fun place (behind_setjmp fuel place) i s' else some s'

  -- `main`; `inside` is the registers inside of `setjmp`, whose frame has that of `main` behind it.
  unfoldable pub main : (fuel : ℕ) → (inside : Regs) → Program W → Option (Program W)
  main fuel inside s =
      let regs = returned kernel inside 0 s.world in
      let (env, w) = setjmp kernel inside s.world in
      behind_setjmp fuel regs.rip regs (record (assign regs.rbp 0 s) { jb = env; world = w })
