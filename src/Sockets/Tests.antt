-- ===== src/Sockets/Tests.antt =====
-- Two connections of two processes.
use advanced_unix_progr.Base.{
  ◌/◌, ◌%◌, ◌^◌, ℤ, pos, true, false, Text, List, [], ◌∷◌, ◌++◌, Option, none, some, ◌≡◌, refl,
  arith, codes, str_eq, if◌then◌else◌,
}
use advanced_unix_progr.Cstd.{words, strtok, scan_hex, scan_int}
use advanced_unix_progr.Sockets.{decimal, unset, Entry, RawPair, Raw, Ntop}
use advanced_unix_progr.Sockets.Parse.{
  parse_addr_port_pair, parse_line, parse_lines, parse_protocol, parse_tokens, put_token,
  drop_digits, behind_hex,
}
use advanced_unix_progr.Sockets.Parse.Fields.{
  store_local, store_remote, store_inode, parse_line-tokens,
}
use advanced_unix_progr.Sockets.Parse.Lines.{entry_number, entry_at, parse_protocol-lines}
use advanced_unix_progr.Sockets.Owners.{Proc, scan_procs, scan_inode}
use advanced_unix_progr.Sockets.Owners.First.{Socket, sockets, owned_by, scan_procs-owned}
use advanced_unix_progr.Sockets.Listing.{letter_t, read_options, Line, c_string, has_part}
use advanced_unix_progr.Sockets.Listing.Selection.{IsPrintable, listed}
use advanced_unix_progr.Sockets.Program.{System, all_connections, main, main-listed}

abbrev ntop : Ntop
ntop = record {
  inet = λ n. n % 2 ^ 8 ∷ n / 2 ^ 8 % 2 ^ 8 ∷ n / 2 ^ 16 % 2 ^ 8 ∷ n / 2 ^ 24 ∷ [];
  inet6 = λ n. n % 2 ^ 32 ∷ n / 2 ^ 32 ∷ [];
}

abbrev unwritten : Entry
unwritten = record {
  ip_proto = [];
  local_addr = [];
  local_port = unset [];
  remote_addr = [];
  remote_port = unset [];
  pid = pos 0;
  inode = pos 0;
}

abbrev raw_pair : RawPair
raw_pair = record { addr = 0; addr6 = 2 ^ 100; port = 2 ^ 32 }

abbrev raw : Raw
raw = record { entry = unwritten; own_pair = raw_pair; peer_pair = raw_pair }

abbrev heading : Text
heading = codes "  sl  local_address rem_address   st\n"

abbrev tcp_line : Text
tcp_line =
    codes "   0: 0100007F:0016 00000000:0000 0A 00000000:00000000 00:00000000 00000000 0 0 25 1 x\n"

abbrev tcp_entry : Entry
tcp_entry = record {
  ip_proto = codes "tcp";
  local_addr = 127 ∷ 0 ∷ 0 ∷ 1 ∷ [];
  local_port = decimal (pos 22);
  remote_addr = 0 ∷ 0 ∷ 0 ∷ 0 ∷ [];
  remote_port = decimal (pos 0);
  pid = pos 0;
  inode = pos 25;
}

tcp_file :
    parse_protocol ntop (λ n. raw) (codes "tcp") (some (heading ∷ tcp_line ∷ []))
    ≡ some (tcp_entry ∷ [])
unfolding parse_protocol parse_lines parse_line parse_tokens put_token parse_addr_port_pair strtok
    words scan_hex scan_int drop_digits behind_hex str_eq
tcp_file = refl

parse_line-tokens_example :
    parse_line ntop raw false tcp_line unwritten
    ≡ store_inode ntop raw false (some (codes "25")) (
        store_remote ntop raw false
          (some (codes "00000000:0000"))
          (store_local ntop raw false (some (codes "0100007F:0016")) unwritten))
unfolding strtok
parse_line-tokens_example = parse_line-tokens ntop raw false tcp_line unwritten

parse_protocol-lines_example :
    entry_number 0 (parse_protocol ntop (λ n. raw) (codes "tcp") (some (heading ∷ tcp_line ∷ [])))
    ≡ entry_at ntop (λ n. raw) (codes "tcp") 2 (some tcp_line)
parse_protocol-lines_example =
    parse_protocol-lines ntop (λ n. raw) (codes "tcp") heading (tcp_line ∷ []) 0

abbrev procs : List Proc
procs =
    record { name = codes "self"; fds = none }
    ∷ record {
      name = codes "7";
      fds = some (
          record { name = codes "."; link = [] }
          ∷ record { name = codes "3"; link = codes "socket:[25]" }
          ∷ record { name = codes "4"; link = codes "/dev/null" }
          ∷ []);
    }
    ∷ []

abbrev open_socket : Socket
open_socket = record { inode = pos 25; owner = some (pos 7) }

found : sockets procs ≡ some (open_socket ∷ [])
unfolding scan_int scan_inode str_eq
found = refl

abbrev owned_entry : Entry
owned_entry = record tcp_entry { pid = pos 7 }

scan_procs-owned_example :
    scan_procs procs (tcp_entry ∷ []) ≡ owned_by (tcp_entry ∷ []) (sockets procs)
scan_procs-owned_example = scan_procs-owned procs (tcp_entry ∷ [])

abbrev cmdline : ℤ → Option Text
cmdline p = some (codes "/bin/nc" ++ (0 ∷ codes "-l") ++ (0 ∷ []))

abbrev sys : System
sys = record {
  ntop = ntop;
  stack = λ name n. raw;
  files = λ name. some (heading ∷ (if str_eq name (codes "tcp") then tcp_line ∷ [] else []));
  procs = procs;
  cmdline = cmdline;
  port_size = λ port. 5;
}

printable : IsPrintable cmdline (λ port. 5) owned_entry
unfolding words scan_int c_string strtok
printable = record {
  line = codes "/bin/nc" ++ (0 ∷ codes "-l") ++ (0 ∷ []);
  path = codes "/bin/nc";
  reads = refl;
  starts = refl;
  path_fits = omega arith;
  has_rest = omega arith;
  local_fits = refl;
  remote_fits = refl;
}

asks :
    read_options (letter_t ∷ []) (record { tcp = false; udp = false })
    ≡ some (record { tcp = true; udp = false })
unfolding read_options
asks = refl

connections : all_connections sys ≡ some (tcp_entry ∷ [])
unfolding parse_protocol parse_lines parse_line parse_tokens put_token parse_addr_port_pair strtok
    words scan_hex scan_int drop_digits behind_hex str_eq
connections = refl

main-listed_example :
    (ls : List Line) × (main sys (letter_t ∷ []) (codes "nc") ≡ some ls)
    × (listed ls ≡ owned_entry ∷ [])
unfolding c_string has_part str_eq
main-listed_example =
    main-listed sys (letter_t ∷ []) (codes "nc") (record { tcp = true; udp = false })
      (tcp_entry ∷ []) (open_socket ∷ []) asks connections found (omega arith) (printable, tt)
