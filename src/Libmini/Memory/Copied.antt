-- ===== src/Libmini/Memory/Copied.antt =====
-- What the loops over memory leave.
use advanced_unix_progr.Base.{
  ℕ, zero, suc, ◌+◌, ◌-◌, ◌%◌, ◌^◌, ◌≤◌, ◌<◌, true, false, ◌&&◌, some, ◌≡◌, refl, ap, ◌∙◌, sym,
  arith, ltb, leb, ◌==◌, if◌then◌else◌, Bool-cases, inl, inr, ◌⊎◌,
}
use advanced_unix_progr.Libmini.Memory.{Memory, store, bzero, strlen, copy_from, memcpy}

-- The loop where no address wraps.
unfoldable copy_plain : (left i dst src : ℕ) → Memory → Memory
copy_plain zero i dst src m = m
copy_plain (suc left) i dst src m =
    copy_plain left (i + 1) dst src (store (dst + i) (m (src + i)) m)

copy_from-copy_plain :
    (left i dst src : ℕ) (m : Memory)
    → dst + i + left ≤ 2 ^ 64
    → src + i + left ≤ 2 ^ 64
    → copy_from left i dst src m ≡ copy_plain left i dst src m
unfolding copy_from copy_plain
copy_from-copy_plain zero i dst src m to from = refl
copy_from-copy_plain (suc left) i dst src m to from =
    let here : (dst + i) % 2 ^ 64 ≡ dst + i = omega arith in
    let there : (src + i) % 2 ^ 64 ≡ src + i = omega arith in
    rw (here, there)
      (copy_from-copy_plain left (i + 1) dst src (store (dst + i) (m (src + i)) m) (omega arith)
        (omega arith))

copy_plain-outside :
    (left i dst src : ℕ) (m : Memory) (a : ℕ)
    → (a < dst + i) ⊎ (dst + i + left ≤ a)
    → copy_plain left i dst src m a ≡ m a
unfolding copy_plain
copy_plain-outside zero i dst src m a h = refl
copy_plain-outside (suc left) i dst src m a h =
    let apart : (a == dst + i) ≡ false = ground (arith, h) in
    copy_plain-outside left (i + 1) dst src (store (dst + i) (m (src + i)) m) a (ground (arith, h))
    ∙ rw apart refl

-- With a destination that does not begin inside of the source behind its start, and ends anywhere.
copy_plain-inside :
    (left i dst src : ℕ) (m : Memory) (k : ℕ)
    → (dst ≤ src) ⊎ (src + i + left ≤ dst)
    → k < left
    → copy_plain left i dst src m (dst + i + k) ≡ m (src + i + k)
unfolding copy_plain
copy_plain-inside zero i dst src m k h below = absurd (omega arith)
copy_plain-inside (suc left) i dst src m zero h below =
    let next = store (dst + i) (m (src + i)) m in
    let here : dst + i + 0 ≡ dst + i = omega arith in
    let there : src + i + 0 ≡ src + i = omega arith in
    let hit : (dst + i == dst + i) ≡ true = ground arith in
    rw (here, there)
      (copy_plain-outside left (i + 1) dst src next (dst + i) (inl (omega arith)) ∙ rw hit refl)
copy_plain-inside (suc left) i dst src m (suc k) h below =
    let next = store (dst + i) (m (src + i)) m in
    let here : dst + i + suc k ≡ dst + (i + 1) + k = omega arith in
    let there : src + i + suc k ≡ src + (i + 1) + k = omega arith in
    let apart : (src + (i + 1) + k == dst + i) ≡ false = ground (arith, h) in
    rw (here, there)
      (copy_plain-inside left (i + 1) dst src next k (ground (arith, h)) (omega arith)
        ∙ rw apart refl)

-- Of fewer than 2 ^ 31 bytes, with both ends at most 2 ^ 64, and where the destination does not begin
-- inside of the source behind its start: `memcpy` returns, every byte of the destination is what the
-- source had at first, also where the two overlap, and no other byte of the memory changes.
pub memcpy-store :
    (dst src num : ℕ) (m : Memory)
    → num < 2 ^ 31
    → dst + num ≤ 2 ^ 64
    → src + num ≤ 2 ^ 64
    → (dst ≤ src) ⊎ (src + num ≤ dst)
    → (m' : Memory) × (memcpy dst src num m ≡ some m')
      × ((a : ℕ) → m' a ≡ (if leb dst a && ltb a (dst + num) then m (src + (a - dst)) else m a))
unfolding memcpy
memcpy-store dst src num m small to from h =
    let int : ltb num (2 ^ 31) ≡ true = ground arith in
    (
      copy_plain num 0 dst src m,
      rw int (ap some (copy_from-copy_plain num 0 dst src m (omega arith) (omega arith))),
      copied,
    )
  where
    copied :
        (a : ℕ)
        → copy_plain num 0 dst src m a
          ≡ (if leb dst a && ltb a (dst + num) then m (src + (a - dst)) else m a)
    copied a = elim (Bool-cases (leb dst a && ltb a (dst + num))) [
      | inl within ↦
          let above : dst ≤ a = ground (arith, within) in
          let below : a < dst + num = ground (arith, within) in
          let here : a ≡ dst + 0 + (a - dst) = omega arith in
          let there : src + 0 + (a - dst) ≡ src + (a - dst) = omega arith in
          rw within (
            ap (copy_plain num 0 dst src m) here
            ∙ copy_plain-inside num 0 dst src m (a - dst) (ground (arith, h)) (omega arith)
            ∙ ap m there)
      | inr outside ↦ rw outside (copy_plain-outside num 0 dst src m a (ground (arith, outside)))
    ]

-- The number of bytes before the first NUL is found by any fuel that is more.
pub strlen-first :
    (n fuel s count : ℕ) (m : Memory)
    → ((j : ℕ) → j < n → (m (s + j) == 0) ≡ false)
    → m (s + n) ≡ 0
    → n < fuel
    → strlen fuel s count m ≡ some (count + n)
unfolding strlen
strlen-first n zero s count m full ends h = absurd (omega arith)
strlen-first zero (suc fuel) s count m full ends h =
    let here : s + 0 ≡ s = omega arith in
    let nul : m s ≡ 0 = ap m (sym here) ∙ ends in
    let stop : (m s == 0) ≡ true = rw nul refl in rw stop (ap some (omega arith))
strlen-first (suc n) (suc fuel) s count m full ends h =
    let here : s + 0 ≡ s = omega arith in
    let more : (m s == 0) ≡ false = ap (λ a. m a == 0) (sym here) ∙ full 0 (omega arith) in
    let shift : (j : ℕ) → s + 1 + j ≡ s + suc j = λ j. omega arith in
    let rest =
      strlen-first n fuel (s + 1) (count + 1) m
        (λ j below. ap (λ a. m a == 0) (shift j) ∙ full (suc j) (omega arith))
        (ap m (shift n) ∙ ends) (omega arith) in
    rw (more, rest) (ap some (omega arith))

-- The bytes are 0 then, and no other byte changes.
pub bzero-store :
    (s size : ℕ) (m : Memory) (a : ℕ)
    → bzero s size m a ≡ (if leb s a && ltb a (s + size) then 0 else m a)
unfolding bzero
bzero-store s zero m a = ground arith
bzero-store s (suc size) m a = ground (arith, bzero-store (s + 1) size (store s 0 m) a)
