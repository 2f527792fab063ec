-- ===== src/Sdb/Patch/Word.antt =====
-- The masks of `sdb_patch_all_bp` as arithmetic: only the lowest byte of the word is replaced.
use advanced_unix_progr.Base.{
  ℕ, ◌+◌, ◌*◌, ◌/◌, ◌%◌, ◌^◌, ◌<◌, ◌≡◌, arith, bit_and_high, bit_and_ones, bit_or_disjoint, ◌==◌,
  zero, suc, if◌then◌else◌,
}
use native.Mathlib.Nat.{pow-suc, div-div-eq-div-mul}
use advanced_unix_progr.Sdb.Patch.{trap_word, is_trapped}

pub trap_word_lem : (word : ℕ) → word < 2 ^ 64 → trap_word word ≡ word / 256 * 256 + 0xcc
unfolding trap_word
trap_word_lem word h = rw (bit_and_high word h) (bit_or_disjoint 8 (word / 256) 0xcc (omega arith))

pub is_trapped_lem : (word : ℕ) → is_trapped word ≡ (word % 256 == 0xcc)
unfolding is_trapped
is_trapped_lem word = rw (bit_and_ones 8 word)

-- The bytes of the word that is written.
pub trap_word_byte :
    (word i : ℕ)
    → word < 2 ^ 64
    → trap_word word / 256 ^ i % 256 ≡ (if i == 0 then 0xcc else word / 256 ^ i % 256)
trap_word_byte word zero h = omega (arith, trap_word_lem word h)
trap_word_byte word (suc i) h =
    let e : 256 ^ suc i ≡ 256 * 256 ^ i = omega (arith, pow-suc 256 i) in
    let q : (word / 256 * 256 + 0xcc) / 256 ≡ word / 256 = omega arith in
    rw (trap_word_lem word h, e, ← div-div-eq-div-mul, ← div-div-eq-div-mul, q) (ground arith)
