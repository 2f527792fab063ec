-- ===== src/Libmini/Programs/Visits.antt =====
-- What hw3/jmp1.c prints.
use advanced_unix_progr.Base.{
  ℕ, zero, suc, ◌+◌, ◌%◌, ◌^◌, ◌≤◌, ◌<◌, Text, List, [], ◌∷◌, some, ◌≡◌, refl, sym, ◌∙◌, arith, ap,
  get_elem?, get_elem?-some, drop, ltb, ◌==◌, if◌then◌else◌, Bool, true, false,
}
use advanced_unix_progr.Libmini.Jumps.{Regs, JmpBuf, Masks, setjmp, longjmp}
use advanced_unix_progr.Libmini.Jumps.Back.{returned}
use advanced_unix_progr.Libmini.Programs.{Program, assign}
use advanced_unix_progr.Libmini.Programs.Jmp1.{funs, funbody, count, call_fun, behind_setjmp, main}

-- Texts that are printed behind others.
abbrev pub printed_onto : List Text → List Text → List Text
printed_onto [] out = out
printed_onto (m ∷ ms) out = printed_onto ms (m ∷ out)

same_self : (n : ℕ) → (n == n) ≡ true
same_self n = ground arith

drop-get_elem? :
    (xs : List Text) (n : ℕ) (m : Text) → get_elem? xs n ≡ some m → drop n xs ≡ m ∷ drop (suc n) xs
drop-get_elem? [] n m e = absurd (cc)
drop-get_elem? (x ∷ xs) zero m e = cc
drop-get_elem? (x ∷ xs) (suc n) m e = drop-get_elem? xs n m e

module _ {W : Type 0} (regs : Regs) (s : Program W) where
  count-cases :
      (b : Bool)
      → let s' : Program W = if b then s else assign regs.rbp (s.local regs.rbp + 1) s in
        (s'.jb ≡ s.jb) × (s'.out ≡ s.out)
  count-cases true = (refl, refl)
  count-cases false = (refl, refl)

  -- The variable behind a jump.
  count-jumped :
      (n : ℕ)
      → n < 10
      → regs.rax ≡ (if n + 1 == 0 then n + 1 + 1 else n + 1)
      → s.local regs.rbp ≡ n
      → (count regs s).local regs.rbp ≡ suc n
  count-jumped n h rax i =
      let jumped : ((if n + 1 == 0 then n + 1 + 1 else n + 1) % 2 ^ 32 == 0) ≡ false =
        ground arith in
      rw (rax, jumped, same_self regs.rbp, i) (omega arith)

module _ {W : Type 0} (kernel : Masks W) (put : Text → W → W) (place : ℕ) where
  -- A round that calls a function is followed by the one behind its jump.
  one_round :
      (fuel n : ℕ) (m : Text) (regs : Regs) (s : Program W)
      → n < 10
      → get_elem? funs n ≡ some m
      → (count regs s).local regs.rbp ≡ n
      → (count regs s).jb.reg7 ≡ place
      → let (regs', s') = funbody kernel put m (n + 1) (count regs s) in
        behind_setjmp kernel put (suc fuel) place regs s
        ≡ behind_setjmp kernel put fuel place regs' s'
  unfolding behind_setjmp call_fun funbody longjmp
  one_round fuel n m regs s below here i back =
      let goes : ltb n 10 ≡ true = ground arith in rw (i, goes, here, back, same_self place) refl

  -- The rounds from the one in which the variable becomes `n`.
  visits :
      (k fuel n : ℕ) (regs : Regs) (s : Program W)
      → n + k ≡ 10
      → k < fuel
      → (count regs s).local regs.rbp ≡ n
      → s.jb.reg2 ≡ regs.rbp
      → s.jb.reg7 ≡ place
      → (s' : Program W) × (behind_setjmp kernel put fuel place regs s ≡ some s')
        × (s'.out ≡ printed_onto (drop n funs) s.out)
  unfolding behind_setjmp funbody longjmp
  visits k zero n regs s e enough i frame back = elim enough [ ]
  visits zero (suc fuel) n regs s e enough i frame back =
      let last : n ≡ 10 = omega (arith, e) in
      (count regs s, rw (i, last) refl, rw last (count-cases regs s _).1)
  visits (suc k) (suc fuel) n regs s e enough i frame back =
      let below : n < 10 = omega (arith, e) in
      let (m, here) = get_elem?-some funs n below in
      let (jb, out) = count-cases regs s (regs.rax % 2 ^ 32 == 0) in
      let base : (count regs s).jb.reg2 ≡ regs.rbp = ap (λ (b : JmpBuf). b.reg2) jb ∙ frame in
      let home : (count regs s).jb.reg7 ≡ place = ap (λ (b : JmpBuf). b.reg7) jb ∙ back in
      let (regs', s') = funbody kernel put m (n + 1) (count regs s) in
      let variable : s'.local regs'.rbp ≡ n = ap (count regs s).local base ∙ i in
      let (s'', runs, prints) =
        visits k fuel (suc n) regs' s' (omega (arith, e)) (omega (arith, enough))
          (count-jumped regs' s' n below refl variable) refl home in
      (
        s'',
        one_round fuel n m regs s below here i home ∙ runs,
        prints
            ∙ ap (λ o. printed_onto (drop (suc n) funs) (m ∷ o)) out
            ∙ ap (λ ms. printed_onto ms s.out) (sym (drop-get_elem? funs n m here)),
      )

-- For every system and every registers with which `setjmp` is called, `main` returns with eleven
-- returns of `setjmp` or more, and has called each of the ten functions once, in their order: what
-- they print is what was written.
pub main-funs :
    {W : Type 0} (kernel : Masks W) (put : Text → W → W) (fuel : ℕ) (inside : Regs) (s : Program W)
    → 11 ≤ fuel
    → (s' : Program W) × (main kernel put fuel inside s ≡ some s')
      × (s'.out ≡ printed_onto funs s.out)
unfolding main setjmp
main-funs {W = W} kernel put fuel inside s enough =
    let frame = kernel.word_at inside.rbp s.world in
    let (env, w) = setjmp kernel inside s.world in
    let i : (if frame == frame then 0 else s.local frame) ≡ 0 = rw (same_self frame) refl in
    let s₀ : Program W = record (assign frame 0 s) { jb = env; world = w } in
    visits kernel put env.reg7 10 fuel 0 (returned kernel inside 0 s.world) s₀ refl
      (omega (arith, enough)) i refl refl
