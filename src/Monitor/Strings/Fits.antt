-- ===== src/Monitor/Strings/Fits.antt =====
-- How long the text of a `struct stat` is.
use native.Mathlib.Nat.{pow-suc}
use advanced_unix_progr.Base.{
  length-append, ℕ, zero, suc, ◌+◌, ◌/◌, ◌%◌, ◌^◌, ◌≤◌, ◌<◌, ℤ, pos, negsuc, Bool, true, false,
  Text, [], ◌∷◌, ◌++◌, some, ◌≡◌, refl, arith, length, ltb, lt→ltb, ◌==◌, if◌then◌else◌, Bool-cases,
  inl, inr, codes, bit_and,
}
use advanced_unix_progr.Cstd.{int_of_u32}
use advanced_unix_progr.Monitor.{Stat}
use advanced_unix_progr.Monitor.Strings.{
  show_digits, show_int, s_ifmt, file_type, stat_text, get_verbose_stat,
}

div_ten : (k n : ℕ) → n < 10 ^ suc (suc k) → n / 10 < 10 ^ suc k
div_ten k n h = let e = pow-suc 10 (suc k) in omega (arith, e)

length-show_digits :
    (fuel k n : ℕ) (more : Text)
    → n < 10 ^ suc k
    → length (show_digits fuel n more) ≤ suc k + length more
unfolding show_digits
length-show_digits zero k n more h = omega arith
length-show_digits (suc fuel) zero n more h = ground arith
length-show_digits (suc fuel) (suc k) n more h =
    let shorter = length-show_digits fuel k (n / 10) ((48 + n % 10) ∷ more) (div_ten k n h) in
    elim (Bool-cases (ltb n 10)) [
      | inl last ↦ rw last (omega arith)
      | inr next ↦ rw next (omega (arith, shorter))
    ]

-- What a `long` holds.
abbrev pub IsLong : ℤ → Type 0
IsLong (pos n) = n < 2 ^ 63
IsLong (negsuc n) = n < 2 ^ 63

length-show_int : (a : ℤ) → IsLong a → length (show_int a) ≤ 20
length-show_int (pos n) h = omega (arith, length-show_digits (suc n) 18 n [] (omega arith))
length-show_int (negsuc n) h =
    omega (arith, length-show_digits (suc (n + 1)) 18 (n + 1) [] (omega arith))

length_if :
    (b : Bool) (s t : Text) (n : ℕ) → length s ≤ n → length t ≤ n → length (if b then s else t) ≤ n
length_if true s t n hs ht = hs
length_if false s t n hs ht = ht

length-file_type : (kind : ℕ) → length (file_type kind) ≤ 16
length-file_type kind = length_if (kind == 24576) _ _ 16 (omega arith) (
    length_if (kind == 8192) _ _ 16 (omega arith) (
      length_if (kind == 16384) _ _ 16 (omega arith) (
        length_if (kind == 4096) _ _ 16 (omega arith) (
          length_if (kind == 40960) _ _ 16 (omega arith) (
            length_if (kind == 32768) _ _ 16 (omega arith)
              (length_if (kind == 49152) _ _ 16 (omega arith) (omega arith)))))))

-- The three numbers of the text, and what stands between them.
length-parts :
    (a b c : Text)
    → length (codes "{type=" ++ a ++ codes ", mode=" ++ b ++ codes ", size=" ++ c ++ codes "}")
      ≡ length a + length b + length c + 21
length-parts a b c = simp length-append (omega arith)

length-show_mode : (mode : ℕ) → mode < 2 ^ 16 → length (show_int (int_of_u32 mode)) ≤ 5
length-show_mode mode h =
    let small : ltb mode (2 ^ 31) ≡ true = ground arith in
    rw small (length-show_digits (suc mode) 4 mode [] (omega arith))

pub get_verbose_stat-stat_text :
    (s : Stat) → s.st_mode < 2 ^ 16 → IsLong s.st_size → get_verbose_stat s ≡ some (stat_text s)
unfolding get_verbose_stat
get_verbose_stat-stat_text s h l =
    let kind = bit_and s.st_mode s_ifmt in
    let parts =
      length-parts (file_type kind) (show_int (int_of_u32 s.st_mode)) (show_int s.st_size) in
    let fits : length (stat_text s) < 64 = omega (
      arith,
      parts,
      length-file_type kind,
      length-show_mode s.st_mode h,
      length-show_int s.st_size l,
    ) in
    rw (lt→ltb (length (stat_text s)) 64 fits) refl
