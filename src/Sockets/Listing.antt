-- ===== src/Sockets/Listing.antt =====
-- hw1/main.cpp, the options, the selection by protocol and filter, and the output, with `print_entry`
-- of hw1/hw1_utils.h. `none` is undefined behaviour: a file that could not be opened, a buffer that is
-- too short, or one that was never written.
pub mod Selection
use advanced_unix_progr.Base.{
  ℕ, suc, ◌+◌, ℤ, Bool, true, false, not, ◌&&◌, ◌||◌, Text, List, [], ◌∷◌, ◌++◌, Option, none, some,
  take, drop, length, codes, str_eq, leb, ltb, ◌==◌, if◌then◌else◌,
}
use advanced_unix_progr.Cstd.{words, after_slash}
use advanced_unix_progr.Sockets.{Port, Entry}

-- What `getopt_long` returns for an option: 0 with `option_index`, a letter, or another character.
pub data Opt : Type 0 where
  long : ℕ → Opt
  letter_t letter_u other : Opt

pub record Options : Type 0 where
  pub tcp : Bool
  pub udp : Bool

abbrev pub set_option : Opt → Options → Option Options
set_option (long index) o = some (
    if index == 0
    then record o { tcp = true }
    else if index == 1
    then record o { udp = true }
    else o)
set_option letter_t o = some (record o { tcp = true })
set_option letter_u o = some (record o { udp = true })
set_option other o = none

-- The loop over `getopt_long`; `none` is the `return 0` for an option that is not known.
unfoldable pub read_options : List Opt → Options → Option Options
read_options [] o = some o
read_options (opt ∷ rest) o = elim (set_option opt o) [
  | none ↦ none
  | some o' ↦ read_options rest o'
]

abbrev pub shows_tcp : Options → Bool
shows_tcp o = not (not o.tcp && o.udp)

abbrev pub shows_udp : Options → Bool
shows_udp o = not (o.tcp && not o.udp)

-- The bytes up to the first NUL.
unfoldable pub c_string : Text → Text
c_string [] = []
c_string (c ∷ s) = let rest = c_string s in if c == 0 then [] else c ∷ rest

-- `strncmp(s, prefix, strlen(prefix)) == 0`
abbrev pub begins : Text → Text → Bool
begins prefix s = str_eq (take (length prefix) s) prefix

-- `strstr(s, part) != NULL`
unfoldable pub has_part : Text → Text → Bool
has_part part [] = str_eq part []
has_part part (c ∷ s) = begins part (c ∷ s) || has_part part s

-- A line of the output; a row's text is made of its parts.
pub data Line : Type 0 where
  title : Text → Line  -- "List of %s connections:"
  columns : Line
  row : (e : Entry) → (program arguments : Text) → Line
  blank : Line

abbrev pub filter_size : ℕ
filter_size = 64

-- The size of `program_path`, and of `local_end` and `remote_end`.
abbrev pub small_size : ℕ
small_size = 32

-- A value, and then another.
abbrev pub and_then {ℓ κ} : {A : Type ℓ} {B : Type κ} → Option A → (A → Option B) → Option B
and_then none k = none
and_then (some a) k = k a

-- Whether a connection is listed, and those behind it.
abbrev pub add_if : Entry → Bool → List Entry → List Entry
add_if e b es = if b then e ∷ es else es

abbrev pub first_word : List Text → Option Text
first_word [] = none
first_word (w ∷ ws) = some w

abbrev pub is_empty : List Entry → Bool
is_empty [] = true
is_empty (e ∷ es) = false

-- `cmdline` is the line that is read from /proc/<pid>/cmdline, `none` where it cannot be opened or
-- has nothing to read; `port_size` is the length of a port's text.
module _ (cmdline : ℤ → Option Text) (port_size : Port → ℕ) where
  abbrev pub is_listed : Text → Text → Entry → Option Bool
  is_listed proto filter e =
      if begins proto e.ip_proto
      then and_then (cmdline e.pid) (λ line. some (has_part filter (c_string line)))
      else some false

  -- The loop over the connections for one protocol.
  unfoldable pub select : Text → Text → List Entry → Option (List Entry)
  select proto filter [] = some []
  select proto filter (e ∷ es) =
      and_then (is_listed proto filter e)
        λ b. and_then (select proto filter es) λ es'. some (add_if e b es')

  -- "%s:%s" into `local_end` or `remote_end`
  abbrev pub end_fits : Text → Port → Bool
  end_fits addr port = ltb (length addr + 1 + port_size port) small_size

  -- The row of a program: its name is the first word, its arguments stand behind that and one byte.
  abbrev pub program_row : Entry → Text → Text → Option Line
  program_row e line path =
      if ltb (length path) small_size && leb (length path + 1) (length line)
      then some (row e (after_slash [] path) (c_string (drop (length path + 1) line)))
      else none

  unfoldable pub print_entry : Entry → Option Line
  print_entry e =
      if not (end_fits e.local_addr e.local_port && end_fits e.remote_addr e.remote_port)
      then none
      else and_then (cmdline e.pid)
          λ line. and_then (first_word (words (c_string line))) (program_row e line)

  unfoldable pub print_entries : List Entry → Option (List Line)
  print_entries [] = some []
  print_entries (e ∷ es) =
      and_then (print_entry e) λ l. and_then (print_entries es) λ ls. some (l ∷ ls)

  -- One of the two lists, with its title.
  unfoldable pub print_list : Text → List Entry → Option (List Line)
  print_list name [] = some []
  print_list name (e ∷ es) =
      and_then (print_entries (e ∷ es)) λ ls. some (title name ∷ columns ∷ ls)

  abbrev pub select_if : Bool → Text → Text → List Entry → Option (List Entry)
  select_if b proto filter all = if b then select proto filter all else some []

  abbrev pub print_lists : List Entry → List Entry → Option (List Line)
  print_lists tcp udp = and_then (print_list (codes "TCP") tcp) λ first.
      and_then (print_list (codes "UDP") udp) λ second.
        some
          (first ++ (if not (is_empty tcp) && not (is_empty udp) then blank ∷ [] else []) ++ second)

  -- From the connections with their processes to the output.
  unfoldable pub list_connections : Options → Text → List Entry → Option (List Line)
  list_connections o filter all =
      if not (ltb (length filter) filter_size)
      then none
      else and_then (select_if (shows_tcp o) (codes "tcp") filter all) λ tcp.
        and_then (select_if (shows_udp o) (codes "udp") filter all) λ udp. print_lists tcp udp
