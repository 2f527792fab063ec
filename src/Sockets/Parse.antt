-- ===== src/Sockets/Parse.antt =====
-- hw1/hw1_utils.h, `parse_addr_port_pair` and `parse_line`, and hw1/main.cpp, `parse_protocol`.
pub mod Fields
pub mod Lines
use advanced_unix_progr.Base.{
  ℕ, ◌+◌, ◌*◌, ◌/◌, ◌%◌, ◌^◌, ℤ, Bool, true, false, not, ◌&&◌, ◌||◌, Text, List, [], ◌∷◌, Option,
  none, some, drop, codes, str_eq, ◌==◌, if◌then◌else◌,
}
use advanced_unix_progr.Cstd.{
  byte_at, hex_digit, skip_spaces, skip_0x, scan_hex, scan_int, int_of_u32, strtok,
}
use advanced_unix_progr.Sockets.{Port, star, decimal, Entry, RawPair, Raw, Ntop}

-- What is behind the hexadecimal digits.
unfoldable pub drop_digits : Text → Text
drop_digits [] = []
drop_digits (c ∷ s) =
    let rest = drop_digits s in elim (hex_digit c) [ none ↦ c ∷ s | some d ↦ rest ]

abbrev pub skip_sign : Text → Text
skip_sign s = if (byte_at s 0 == b'-') || (byte_at s 0 == b'+') then drop 1 s else s

-- What is behind the number that `%x` reads.
unfoldable pub behind_hex : Text → Text
unfolding drop_digits skip_spaces
behind_hex s = drop_digits (skip_0x (skip_sign (skip_spaces s)))

-- `%x` keeps 32 bits.
abbrev pub low_word : Option ℕ → Option ℕ
low_word none = none
low_word (some n) = some (n % 2 ^ 32)

-- `sscanf(pair, "%x:%x", ...)`: the numbers that are written.
abbrev pub scan_second : Text → Option ℕ
scan_second s = if byte_at s 0 == b':' then low_word (scan_hex (drop 1 s)) else none

abbrev pub scan_pair : Text → Option ℕ × Option ℕ
scan_pair pair = elim (low_word (scan_hex pair)) [
  | none ↦ (none, none)
  | some a ↦ (some a, scan_second (behind_hex pair))
]

-- Four bytes written over the lowest of a longer number.
abbrev pub write_low : ℕ → Option ℕ → ℕ
write_low old none = old
write_low old (some n) = old / 2 ^ 32 * 2 ^ 32 + n

-- `port` is an `unsigned long`: all of it is compared, and 32 bits of it are printed.
abbrev pub port_text : ℕ → Port
port_text port = if port == 0 then star else decimal (int_of_u32 (port % 2 ^ 32))

unfoldable pub parse_addr_port_pair : Ntop → RawPair → Bool → Text → Text × Port
parse_addr_port_pair ntop raw is_ipv6 pair =
    let (addr, port) = scan_pair pair in
    (
      if is_ipv6
          then ntop.inet6 (write_low raw.addr6 addr)
          else ntop.inet (write_low raw.addr addr),
      port_text (write_low raw.port port),
    )

abbrev pub put_local : Text × Port → Entry → Entry
put_local (addr, port) e = record e { local_addr = addr; local_port = port }

abbrev pub put_remote : Text × Port → Entry → Entry
put_remote (addr, port) e = record e { remote_addr = addr; remote_port = port }

abbrev pub put_inode : Option ℤ → Entry → Entry
put_inode none e = e
put_inode (some n) e = record e { inode = n }

-- What the token of a number is stored as.
unfoldable pub put_token : Ntop → Raw → Bool → ℕ → Text → Entry → Entry
put_token ntop raw is_ipv6 count token e =
    if count == 1
    then put_local (parse_addr_port_pair ntop raw.own_pair is_ipv6 token) e
    else if count == 2
    then put_remote (parse_addr_port_pair ntop raw.peer_pair is_ipv6 token) e
    else if count == 9
    then put_inode (scan_int token) e
    else e

abbrev pub is_newline : Text → Bool
is_newline token = byte_at token 0 == b'\n'

-- The loop over the tokens; one that begins with a newline is not counted.
unfoldable pub parse_tokens : Ntop → Raw → Bool → ℕ → List Text → Entry → Entry
parse_tokens ntop raw is_ipv6 count [] e = e
parse_tokens ntop raw is_ipv6 count (token ∷ rest) e =
    parse_tokens ntop raw is_ipv6 (if is_newline token then count else count + 1) rest
      (if is_newline token then e else put_token ntop raw is_ipv6 count token e)

unfoldable pub parse_line : Ntop → Raw → Bool → Text → Entry → Entry
parse_line ntop raw is_ipv6 line e = parse_tokens ntop raw is_ipv6 0 (strtok (codes " ") line) e

abbrev pub is_ipv6_name : Text → Bool
is_ipv6_name protocol =
    if not (str_eq protocol (codes "tcp6")) && not (str_eq protocol (codes "udp6"))
    then false
    else true

-- The loop over `getline`, from line `line_num`; `raws` is the stack of each line.
unfoldable pub parse_lines : Ntop → (ℕ → Raw) → Text → ℕ → List Text → List Entry
parse_lines ntop raws protocol line_num [] = []
parse_lines ntop raws protocol line_num (line ∷ rest) =
    let more = parse_lines ntop raws protocol (line_num + 1) rest in
    let raw = raws line_num in
    let e : Entry = record (raw.entry) { ip_proto = protocol } in
    if line_num == 1 then more else parse_line ntop raw (is_ipv6_name protocol) line e ∷ more

-- The entries that a file adds; `none` is the read of a file that could not be opened.
unfoldable pub parse_protocol : Ntop → (ℕ → Raw) → Text → Option (List Text) → Option (List Entry)
parse_protocol ntop raws protocol none = none
parse_protocol ntop raws protocol (some lines) = some (parse_lines ntop raws protocol 1 lines)
