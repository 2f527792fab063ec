-- ===== src/Sdb/Memory/Dump.antt =====
-- What `dump` reads and prints.
use advanced_unix_progr.Base.{
  ℕ, zero, suc, ◌+◌, ◌-◌, ◌*◌, ◌/◌, ◌%◌, ◌^◌, ◌≤◌, ◌<◌, true, false, Text, List, [], ◌∷◌, ◌++◌,
  some, map, ◌≡◌, refl, ap, ◌∙◌, sym, arith, length, get_elem?, length-append, take, drop, ltb,
  str_eq,
}
use mathlib.Core.Path.{subst}
use native.Mathlib.Decide.{dec_lt}
use native.Mathlib.Nat.{pow-suc, div-div-eq-div-mul}
use advanced_unix_progr.Cstd.{scan_hex}
use advanced_unix_progr.Sdb.Host.{Host, Message, dump_row, ok}
use advanced_unix_progr.Sdb.State.{Sdb, sdb_is_running}
use advanced_unix_progr.Sdb.Kernel.{Kernel, TextIsMemory, IsMapped}
use advanced_unix_progr.Sdb.Breaks.{skip_prefix}
use advanced_unix_progr.Sdb.Code.{bytes_of, word_bytes}
use advanced_unix_progr.Sdb.Memory.{
  u64, dump_size, shown_char, read_words, read_memory, dump_rows, dump_buffer, sdb_dump,
}

length-bytes_of : (n word : ℕ) → length (bytes_of n word) ≡ n
unfolding bytes_of
length-bytes_of zero word = refl
length-bytes_of (suc n) word = ap suc (length-bytes_of n (word / 256))

get_elem?-bytes_of :
    (n i word : ℕ) → i < n → get_elem? (bytes_of n word) i ≡ some (word / 256 ^ i % 256)
unfolding bytes_of
get_elem?-bytes_of zero i word h = elim h [ ]
get_elem?-bytes_of (suc n) zero word h = ap some (omega arith)
get_elem?-bytes_of (suc n) (suc i) word h =
    get_elem?-bytes_of n i (word / 256) (omega arith)
    ∙ ap some (
        ap (λ (t : ℕ). t % 256)
          (div-div-eq-div-mul word 256 (256 ^ i)
            ∙ ap (λ (t : ℕ). word / t) (omega (arith, pow-suc 256 i))))

get_elem?-append_left :
    (xs ys : List ℕ) (i : ℕ) → i < length xs → get_elem? (xs ++ ys) i ≡ get_elem? xs i
get_elem?-append_left [] ys i h = elim h [ ]
get_elem?-append_left (x ∷ xs) ys zero h = refl
get_elem?-append_left (x ∷ xs) ys (suc i) h = get_elem?-append_left xs ys i (omega arith)

get_elem?-append_right :
    (xs ys : List ℕ) (i : ℕ) → get_elem? (xs ++ ys) (length xs + i) ≡ get_elem? ys i
get_elem?-append_right [] ys i = ap (get_elem? ys) (omega arith)
get_elem?-append_right (x ∷ xs) ys i =
    let e : suc (length xs) + i ≡ suc (length xs + i) = omega arith in
    ap (get_elem? (x ∷ xs ++ ys)) e ∙ get_elem?-append_right xs ys i

-- The lines of `dump`: `left` rows of 16 bytes, the latest first.
abbrev pub rows : ℕ → ℕ → List ℕ → List Message → List Message
rows zero addr buffer out = out
rows (suc left) addr buffer out =
    rows left (u64 (addr + 16)) (drop 16 buffer)
      (dump_row addr (take 16 buffer) (map shown_char (take 16 buffer)) ∷ out)

module _ (K : Kernel) (sdb : Sdb) (text : TextIsMemory K sdb.pid) where
  open K use {World, peektext}

  -- The bytes of memory from an address.
  abbrev pub IsCopy : World → ℕ → ℕ → List ℕ → Type 0
  IsCopy w addr n buffer =
      (length buffer ≡ n) × ((i : ℕ) → i < n → get_elem? buffer i ≡ some (text.byte (addr + i) w))

  IsCopy-cons :
      (w : World) (addr n word : ℕ) (rest : List ℕ)
      → peektext sdb.pid addr w ≡ some word
      → IsCopy w (addr + 8) n rest
      → IsCopy w addr (8 + n) (word_bytes word ++ rest)
  IsCopy-cons w addr n word rest peek copy = (
    length-append (word_bytes word) rest
        ∙ ap (λ (t : ℕ). t + length rest) (length-bytes_of 8 word)
        ∙ ap (λ (t : ℕ). 8 + t) copy.0,
    λ i h. elim (dec_lt i 8) [
      | yes near ↦
          get_elem?-append_left (word_bytes word) rest i (omega (arith, length-bytes_of 8 word))
          ∙ get_elem?-bytes_of 8 i word near
          ∙ ap some (sym (text.peek_byte addr word i w peek near))
      | no far ↦
          let e : i ≡ length (word_bytes word) + (i - 8) = omega (arith, length-bytes_of 8 word) in
          let a : addr + 8 + (i - 8) ≡ addr + i = omega arith in
          ap (get_elem? (word_bytes word ++ rest)) e
          ∙ get_elem?-append_right (word_bytes word) rest (i - 8)
          ∙ copy.1 (i - 8) (omega arith)
          ∙ ap (λ (b : ℕ). some (text.byte b w)) a
    ],
  )

  read_words-IsCopy :
      (n ptr limit : ℕ) (w : World)
      → text.Stopped w
      → limit ≡ ptr + n * 8
      → limit < 2 ^ 64
      → ((a : ℕ) → ptr ≤ a → a < limit → IsMapped K sdb.pid text a)
      → IsCopy w ptr (n * 8) (read_words K n sdb ptr limit w)
  unfolding read_words
  read_words-IsCopy zero ptr limit w stopped e fits mapped = (refl, λ i h. elim h [ ])
  read_words-IsCopy (suc n) ptr limit w stopped e fits mapped =
      let (word, peek) = (mapped ptr (omega arith) (omega arith)).peeks w stopped in
      let more : ltb ptr limit ≡ true = ground arith in
      let step : u64 (ptr + 8) ≡ ptr + 8 = omega arith in
      let size : suc n * 8 ≡ 8 + n * 8 = omega arith in
      let rest =
        read_words-IsCopy n (ptr + 8) limit w stopped (omega arith) fits
          (λ a above below. mapped a (omega arith) below) in
      rw (more, peek, step, size) (IsCopy-cons w ptr (n * 8) word _ peek rest)

  pub read_memory-IsCopy :
      (n addr : ℕ) (w : World)
      → text.Stopped w
      → addr + n * 8 < 2 ^ 64
      → ((a : ℕ) → addr ≤ a → a < addr + n * 8 → IsMapped K sdb.pid text a)
      → IsCopy w addr (n * 8) (read_memory K sdb n addr w)
  unfolding read_memory
  read_memory-IsCopy n addr w stopped fits mapped =
      let limit : u64 (addr + n * 8) ≡ addr + n * 8 = omega arith in
      subst (λ (l : ℕ). IsCopy w addr (n * 8) (read_words K n sdb addr l w)) (sym limit)
        (read_words-IsCopy n addr (addr + n * 8) w stopped refl fits mapped)

  dump_rows-rows :
      (left addr : ℕ) (buffer : List ℕ) (h : Host World)
      → dump_rows K left addr buffer h
        ≡ ok tt (record { world = h.world; out = rows left addr buffer h.out })
  unfolding dump_rows
  dump_rows-rows zero addr buffer h = refl
  dump_rows-rows (suc left) addr buffer h = dump_rows-rows left (u64 (addr + 16)) (drop 16 buffer) _

  dump_buffer-rows :
      (addr : ℕ) (buffer : List ℕ) (h : Host World)
      → length buffer ≡ dump_size
      → dump_buffer K addr buffer h
        ≡ ok tt (record { world = h.world; out = rows 5 addr buffer h.out })
  dump_buffer-rows addr buffer h size = rw size (dump_rows-rows 5 addr buffer h)

  -- While the process is stopped, `dump` of an address whose 80 bytes can be read prints five rows of 16, of a buffer that holds
  -- those bytes of the process's memory, and changes nothing.
  pub sdb_dump-rows :
      (s : Text) (addr : ℕ) (h : Host World)
      → str_eq s [] ≡ false
      → sdb_is_running sdb ≡ true
      → scan_hex (skip_prefix s) ≡ some addr
      → text.Stopped h.world
      → addr + 80 < 2 ^ 64
      → ((a : ℕ) → addr ≤ a → a < addr + 80 → IsMapped K sdb.pid text a)
      → (buffer : List ℕ) × IsCopy h.world addr dump_size buffer
        × (sdb_dump K sdb s h ≡ ok tt (record { world = h.world; out = rows 5 addr buffer h.out }))
  unfolding sdb_dump
  sdb_dump-rows s addr h given running scanned stopped fits mapped =
      let copy = read_memory-IsCopy 10 addr h.world stopped fits mapped in
      (
        read_memory K sdb 10 addr h.world,
        copy,
        rw (given, running, scanned) (dump_buffer-rows addr _ h copy.0),
      )
