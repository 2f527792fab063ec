-- ===== src/Sdb/Code.antt =====
-- hw4/sdb.h, the parts of `sdb_cont`, `sdb_run` and `sdb_disasm` that print instructions.
use advanced_unix_progr.Base.{
  ℕ, ◌+◌, ◌-◌, ◌/◌, ◌%◌, Text, List, [], ◌∷◌, Option, none, some, take, length, ltb, if◌then◌else◌,
  zero, suc,
}
use advanced_unix_progr.Sdb.Kernel.{Insn}

abbrev pub hex_char : ℕ → ℕ
hex_char d = if ltb d 10 then b'0' + d else b'a' + (d - 10)

-- `%02x ` of each byte
unfoldable pub show_bytes : List ℕ → Text
show_bytes [] = []
show_bytes (b ∷ bs) = hex_char (b / 16) ∷ hex_char (b % 16) ∷ 32 ∷ show_bytes bs

abbrev pub bytes_str_size : ℕ
bytes_str_size = 16

-- `bytes_str` after the calls of `strcat`; `none` where the text and its NUL do not fit.
unfoldable pub bytes_str : Insn → Option Text
unfolding show_bytes
bytes_str insn =
    let text = show_bytes (take insn.size insn.bytes) in
    if ltb (length text) bytes_str_size then some text else none

-- The bytes of a word in memory, the lowest first.
unfoldable pub bytes_of : ℕ → ℕ → List ℕ
bytes_of zero word = []
bytes_of (suc n) word = (word % 256) ∷ bytes_of n (word / 256)

abbrev pub word_bytes : ℕ → List ℕ
word_bytes word = bytes_of 8 word
