-- ===== src/Sdb/Maps/Chosen.antt =====
-- Which line of /proc/<pid>/maps gives the base of a position-independent program.
use advanced_unix_progr.Base.{
  ℕ, ◌+◌, ◌%◌, ◌^◌, ◌≤◌, Bool, true, false, ◌&&◌, Text, List, [], ◌∷◌, Option, none, some, ◌≡◌,
  refl, ap, sym, ◌∙◌, arith, codes, str_eq, take, get_elem?, ◌==◌, if◌then◌else◌, All,
}
use advanced_unix_progr.Cstd.{strtok, before_char, basename, scan_hex}
use advanced_unix_progr.Sdb.Host.{uninitialised, Host, ◌>>=◌, need, pure}
use advanced_unix_progr.Sdb.State.{Sdb}
use advanced_unix_progr.Sdb.Kernel.{Kernel}
use advanced_unix_progr.Sdb.Maps.{
  Scan, scan_token, scan_tokens, scan_line, scan_lines, convert_dynamic_addr,
}

-- The fields of a line.
abbrev pub fields : Text → List Text
fields line = strtok (codes " \n") line

-- A field that is there and passes a test.
abbrev pub field_is : (Text → Bool) → Option Text → Bool
field_is test none = false
field_is test (some t) = test t

abbrev pub is_code_perms : Text → Bool
is_code_perms perms = str_eq (take 3 perms) (codes "r-x")

abbrev pub is_file : Text → Text → Bool
is_file path name = str_eq (basename name) (basename path)

-- The line of an executable mapping of the program's file.
abbrev pub is_code_line : Text → Text → Bool
is_code_line path line =
    field_is is_code_perms (get_elem? (fields line) 1)
    && field_is (is_file path) (get_elem? (fields line) 5)

-- Where the mapping of a line begins: the number before the dash.
abbrev pub begin_of : Text → Option ℕ
begin_of range = elim (before_char b'-' range) [ none ↦ none | some first ↦ scan_hex first ]

abbrev pub begin_of_fields : List Text → Option ℕ
begin_of_fields [] = none
begin_of_fields (range ∷ rest) = begin_of range

-- The first code line of the file, and its last line where there is none.
abbrev pub chosen_from : Text → Text → List Text → Text
chosen_from path line [] = line
chosen_from path line (next ∷ rest) =
    let later = chosen_from path next rest in if is_code_line path line then line else later

-- The line has a first field, with a dash.
abbrev pub HasRange : Text → Type 0
HasRange line =
    (range : Text) × (rest : List Text) × (first : Text) × (fields line ≡ range ∷ rest)
    × (before_char b'-' range ≡ some first)

module _ (path : Text) where
  next_token :
      (count : ℕ) (t : Text) (ts : List Text) (s s' : Scan)
      → scan_token path count t s ≡ some s'
      → scan_tokens path count (t ∷ ts) s ≡ scan_tokens path (count + 1) ts s'
  unfolding scan_tokens
  next_token count t ts s s' e = rw (scan_tokens, e) refl

  token_range :
      (range first : Text) (s : Scan)
      → before_char b'-' range ≡ some first
      → scan_token path 0 range s ≡ some (record s { base_addr = scan_hex first })
  unfolding scan_token
  token_range range first s e = rw (scan_token, e) refl

  token_behind : (count : ℕ) (t : Text) (s : Scan) → 6 ≤ count → scan_token path count t s ≡ some s
  unfolding scan_token
  token_behind count t s h =
      let zero : (count == 0) ≡ false = ground arith in
      let one : (count == 1) ≡ false = ground arith in
      let five : (count == 5) ≡ false = ground arith in rw (scan_token, zero, one, five) refl

  -- The fields behind the sixth are skipped.
  skip_fields :
      (count : ℕ) (ts : List Text) (s : Scan) → 6 ≤ count → scan_tokens path count ts s ≡ some s
  unfolding scan_tokens
  skip_fields count [] s h = refl
  skip_fields count (t ∷ ts) s h =
      next_token count t ts s s (token_behind count t s h)
      ∙ skip_fields (count + 1) ts s (omega arith)

  -- What is known behind the first field, behind the second, and behind the sixth.
  abbrev scanned : Option ℕ → Bool → Bool → Scan
  scanned base executable area = record {
    base_addr = base;
    is_executable = executable;
    is_exe_area = area;
  }

  perms_by :
      (b : Bool) (base : Option ℕ)
      → (if b then scanned base true false else scanned base false false) ≡ scanned base b false
  perms_by true base = refl
  perms_by false base = refl

  file_by :
      (b e : Bool) (base : Option ℕ)
      → (if b then scanned base e true else scanned base e false) ≡ scanned base e b
  file_by true e base = refl
  file_by false e base = refl

  scan_perms :
      (perms : Text) (ts : List Text) (base : Option ℕ)
      → scan_tokens path 1 (perms ∷ ts) (scanned base false false)
        ≡ scan_tokens path 2 ts (scanned base (is_code_perms perms) false)
  unfolding scan_token
  scan_perms perms ts base =
      next_token 1 perms ts _ _ (ap some (perms_by (is_code_perms perms) base))

  scan_file :
      (name : Text) (ts : List Text) (base : Option ℕ) (e : Bool)
      → scan_tokens path 5 (name ∷ ts) (scanned base e false)
        ≡ some (scanned base e (is_file path name))
  unfolding scan_token
  scan_file name ts base e =
      next_token 5 name ts _ _ (ap some (file_by (is_file path name) e base))
      ∙ skip_fields 6 ts _ (omega arith)

  scan_fields :
      (rest : List Text) (base : Option ℕ)
      → scan_tokens path 1 rest (scanned base false false)
        ≡ some (
            scanned base
              (field_is is_code_perms (get_elem? rest 0))
              (field_is (is_file path) (get_elem? rest 4)))
  unfolding scan_tokens scan_token
  scan_fields [] base = refl
  scan_fields (perms ∷ []) base = scan_perms perms [] base
  scan_fields (perms ∷ o ∷ []) base = scan_perms perms (o ∷ []) base
  scan_fields (perms ∷ o ∷ d ∷ []) base = scan_perms perms (o ∷ d ∷ []) base
  scan_fields (perms ∷ o ∷ d ∷ i ∷ []) base = scan_perms perms (o ∷ d ∷ i ∷ []) base
  scan_fields (perms ∷ o ∷ d ∷ i ∷ name ∷ ts) base =
      scan_perms perms (o ∷ d ∷ i ∷ name ∷ ts) base ∙ scan_file name ts base _

  begin_of-dash :
      (range first : Text) → before_char b'-' range ≡ some first → begin_of range ≡ scan_hex first
  begin_of-dash range first dash =
      ap (λ (o : Option Text). elim o [ none ↦ none | some t ↦ scan_hex t ]) dash

  -- What one line tells.
  abbrev told : Text → Scan
  told line =
      scanned (begin_of_fields (fields line)) (field_is is_code_perms (get_elem? (fields line) 1))
        (field_is (is_file path) (get_elem? (fields line) 5))

  scan_line-told :
      (line : Text) (base : Option ℕ) → HasRange line → scan_line path line base ≡ some (told line)
  unfolding scan_line
  scan_line-told line base (range, rest, first, here, dash) = rw here (
      next_token 0 range rest (scanned base false false) _
        (token_range range first (scanned base false false) dash)
      ∙ scan_fields rest (scan_hex first)
      ∙ ap
          (λ b. some (
            scanned b (field_is is_code_perms (get_elem? rest 0))
              (field_is (is_file path) (get_elem? rest 4))))
          (sym (begin_of-dash range first dash)))

  one_line :
      (line : Text) (rest : List Text) (base : Option ℕ) (s : Scan)
      → scan_line path line base ≡ some s
      → scan_lines path (line ∷ rest) base ≡ (
          if s.is_executable && s.is_exe_area
          then some s.base_addr
          else scan_lines path rest s.base_addr)
  unfolding scan_lines
  one_line line rest base s e =
      ap
        (λ (o : Option Scan). elim o [
          | none ↦ none
          | some s ↦
              if s.is_executable && s.is_exe_area
              then some s.base_addr
              else scan_lines path rest s.base_addr
        ])
        e

  if_chosen :
      (b : Bool) (line later : Text)
      → (if b then some (begin_of_fields (fields line)) else some (begin_of_fields (fields later)))
        ≡ some (begin_of_fields (fields (if b then line else later)))
  if_chosen true line later = refl
  if_chosen false line later = refl

  if_same : (b : Bool) (o : Option (Option ℕ)) → (if b then o else o) ≡ o
  if_same true o = refl
  if_same false o = refl

  -- The loop over the lines takes the chosen one.
  scan_lines-chosen :
      (line : Text) (rest : List Text) (base : Option ℕ)
      → All HasRange (line ∷ rest)
      → scan_lines path (line ∷ rest) base
        ≡ some (begin_of_fields (fields (chosen_from path line rest)))
  unfolding scan_lines
  scan_lines-chosen line [] base (range, none_left) =
      one_line line [] base (told line) (scan_line-told line base range)
      ∙ if_same (is_code_line path line) (some (begin_of_fields (fields line)))
  scan_lines-chosen line (next ∷ rest) base (range, ranges) =
      one_line line (next ∷ rest) base (told line) (scan_line-told line base range)
      ∙ rw (scan_lines-chosen next rest (begin_of_fields (fields line)) ranges)
          (if_chosen (is_code_line path line) line (chosen_from path next rest))

-- For a process whose /proc/<pid>/maps is opened and has a range in front of each of its lines: the
-- address is the begin of the first line that is executable and of a file with the program's name,
-- plus the address in the program, in 64 bits. Where no line is, it is the last line's begin that is
-- added; a begin that is no number is a read of a variable that was never written.
pub convert_dynamic_addr-chosen :
    (K : Kernel) (sdb : Sdb) (addr : ℕ) (h : Host K.World) (line : Text) (rest : List Text)
    → K.maps sdb.pid h.world ≡ some (line ∷ rest)
    → All HasRange (line ∷ rest)
    → convert_dynamic_addr K sdb addr h
      ≡ (need uninitialised (begin_of_fields (fields (chosen_from sdb.path line rest))) >>= λ base.
            pure ((base + addr) % 2 ^ 64))
          h
unfolding convert_dynamic_addr
convert_dynamic_addr-chosen K sdb addr h line rest opened ranges =
    rw (opened, scan_lines-chosen sdb.path line rest none ranges) refl
