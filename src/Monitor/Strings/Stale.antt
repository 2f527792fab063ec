-- ===== src/Monitor/Strings/Stale.antt =====
-- What is shown of a text that ends with a newline: strncpy writes no NUL behind what it copies.
use advanced_unix_progr.Base.{
  ℕ, suc, ◌≤◌, false, Text, [], ◌∷◌, ◌++◌, none, some, ◌≡◌, refl, ap, arith, length, take, drop,
  length-append, ltb, codes,
}
use advanced_unix_progr.Cstd.{byte_at, before_char}
use advanced_unix_progr.Monitor.{Process}
use advanced_unix_progr.Monitor.Strings.{buff1_size, convert_to_verbose_newline}

take-length : (s t : Text) → take (length s) (s ++ t) ≡ s
take-length [] t = refl
take-length (c ∷ s) t = ap (λ more. c ∷ more) (take-length s t)

byte_at-length : (s : Text) (c : ℕ) → byte_at (s ++ (c ∷ [])) (length s) ≡ c
byte_at-length [] c = refl
byte_at-length (d ∷ s) c = byte_at-length s c

before_char-append :
    (s t old : Text)
    → before_char 0 s ≡ none
    → before_char 0 t ≡ some old
    → before_char 0 (s ++ t) ≡ some (s ++ old)
unfolding before_char
before_char-append [] t old h e = e
before_char-append (c ∷ s) t old h e = ground (arith, h, before_char-append s t old)

line_length : (c : ℕ) (s : Text) → length (s ++ (c ∷ [])) ≡ suc (length s)
line_length c s = omega (arith, length-append s (c ∷ []))

-- For a text of at most 128 bytes and a newline, the buffer gets the text, and keeps what it has
-- behind it: what is shown is the text, then what an earlier, longer one left up to a NUL, and the
-- newline written out, cut to 131 bytes.
pub convert_to_verbose_newline-stale :
    {W : Type 0} (s old : Text) (p : Process W)
    → length s ≤ buff1_size
    → before_char 0 s ≡ none
    → before_char 0 (drop (length s) p.buff1) ≡ some old
    → convert_to_verbose_newline (some (s ++ (b'\n' ∷ []))) p
      ≡ some (
        some (take 131 (s ++ old ++ codes "\\n")),
        record p { buff1 = s ++ drop (length s) p.buff1 },
      )
unfolding convert_to_verbose_newline
convert_to_verbose_newline-stale [] old p short whole left = rw left refl
convert_to_verbose_newline-stale (c ∷ s) old p short whole left =
    let fits : ltb buff1_size (length (c ∷ s)) ≡ false = ground (arith, short) in
    let n = line_length b'\n' s in
    let newline = byte_at-length (c ∷ s) b'\n' in
    let shown = before_char-append (c ∷ s) (drop (length (c ∷ s)) p.buff1) old whole left in
    rw (n, newline, fits, take-length s (b'\n' ∷ []), shown) refl
