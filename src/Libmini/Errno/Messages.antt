-- ===== src/Libmini/Errno/Messages.antt =====
-- What `perror` writes.
use advanced_unix_progr.Base.{
  ℕ, ℤ, pos, negsuc, is_negative, false, Text, none, some, get_elem?-some, codes, ltb, ◌≡◌, refl,
  ap, arith, Bool-cases, inl, inr,
}
use advanced_unix_progr.Libmini.Errno.{
  State, errmsg, perrmsg_max, message, shown, write, say, say_message, perror,
}

shown_total : (z : ℤ) → (m : Text) × (shown z z ≡ some m)
shown_total (negsuc n) = (codes "Unknown", refl)
shown_total (pos n) = elim (Bool-cases (ltb perrmsg_max n)) [
  | inl beyond ↦ (codes "Unknown", rw beyond)
  | inr within ↦ let (m, e) = get_elem?-some errmsg n (ground arith) in (m, rw within e)
]

module _ {W : Type 0} (sys_write : ℕ → Text → W → ℤ × W) where
  -- The system writes on the standard error.
  abbrev pub Writes : Type 0
  Writes = (text : Text) (w : W) → is_negative (sys_write 2 text w).0 ≡ false

  -- A write that succeeds resets `errno`.
  say-errno : Writes → (text : Text) (s : State W) → (say sys_write text s).errno ≡ pos 0
  unfolding write
  say-errno writes text s = rw (writes text s.world)

  -- `perror` without a prefix writes one text and ends the line, whatever `errno` is: the text is
  -- the message of its number where it has one, and `Unknown` for every other number.
  perror-shown :
      (s : State W)
      → (m : Text) × (shown s.errno s.errno ≡ some m)
        × (perror sys_write none s ≡ some (say sys_write (codes "\n") (say sys_write m s)))
  unfolding perror
  perror-shown s = let (m, e) = shown_total s.errno in (m, e, ap (λ t. say_message sys_write t s) e)

  -- `perror` with a prefix, where the writes succeed: it is not the old `errno` that is tested, but
  -- the one that the writes reset. The message of the old number is written where it has one, and
  -- any other number is undefined behaviour, a read out of bounds.
  pub perror-prefix :
      (prefix : Text) (s : State W)
      → Writes
      → perror sys_write (some prefix) s
        ≡ say_message sys_write
            (message s.errno)
            (say sys_write (codes ": ") (say sys_write prefix s))
  unfolding perror
  perror-prefix prefix s writes =
      let s' = say sys_write (codes ": ") (say sys_write prefix s) in
      ap (λ t. say_message sys_write (shown t s.errno) s')
        (say-errno writes (codes ": ") (say sys_write prefix s))
