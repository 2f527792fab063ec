-- ===== src/Sockets/Program.antt =====
-- hw1/main.cpp, `main`: from the options, the files under /proc/net and /proc to the output.
use advanced_unix_progr.Base.{
  ℕ, ◌<◌, ℤ, false, not, ◌&&◌, Text, List, [], ◌++◌, Option, none, some, ◌≡◌, length, codes,
}
use advanced_unix_progr.Sockets.{Port, Entry, Raw, Ntop}
use advanced_unix_progr.Sockets.Parse.{parse_protocol}
use advanced_unix_progr.Sockets.Owners.{Proc, scan_procs}
use advanced_unix_progr.Sockets.Owners.First.{sockets, Socket, owned, scan_procs-owned}
use advanced_unix_progr.Sockets.Listing.{
  Opt, Options, read_options, Line, filter_size, and_then, list_connections,
}
use advanced_unix_progr.Sockets.Listing.Selection.{
  Every, listed, IsPrintable, kept_if, list_connections-listed,
}

-- What the program reads of the system: `files` is the lines of /proc/net/<name>, and `none` where
-- the file cannot be opened; `stack` is what the variables hold where a line of it is parsed.
pub record System : Type 0 where
  pub ntop : Ntop
  pub stack : Text → ℕ → Raw
  pub files : Text → Option (List Text)
  pub procs : List Proc
  pub cmdline : ℤ → Option Text
  pub port_size : Port → ℕ

abbrev pub no_options : Options
no_options = record { tcp = false; udp = false }

module _ (sys : System) where
  abbrev pub protocol_entries : Text → Option (List Entry)
  protocol_entries name = parse_protocol sys.ntop (sys.stack name) name (sys.files name)

  -- `all_connections`
  abbrev pub all_connections : Option (List Entry)
  all_connections = and_then (protocol_entries (codes "tcp")) λ tcp.
      and_then (protocol_entries (codes "tcp6")) λ tcp6.
        and_then (protocol_entries (codes "udp")) λ udp.
          and_then (protocol_entries (codes "udp6")) λ udp6. some (tcp ++ tcp6 ++ udp ++ udp6)

  abbrev pub after_options : Option Options → Text → Option (List Line)
  after_options none filter = some []
  after_options (some o) filter = and_then all_connections λ all.
      and_then (scan_procs sys.procs all) (list_connections sys.cmdline sys.port_size o filter)

  -- `filter` is empty where the program has no further argument.
  unfoldable pub main : List Opt → Text → Option (List Line)
  main opts filter = after_options (read_options opts no_options) filter

  -- For options that are known, files that can be opened, and sockets that have numbers: where every
  -- connection can be printed once it has its process, and the filter fits its buffer, the program
  -- ends, and its output lists exactly the connections whose process has the filter in its command line
  -- before the first NUL, so in its first argument, those of tcp before those of udp, where a protocol is left out if only the other was asked for.
  pub main-listed :
      (opts : List Opt) (filter : Text) (o : Options) (all : List Entry) (ss : List Socket)
      → read_options opts no_options ≡ some o
      → all_connections ≡ some all
      → sockets sys.procs ≡ some ss
      → length filter < filter_size
      → Every (IsPrintable sys.cmdline sys.port_size) (owned (λ i. false) ss all)
      → (ls : List Line) × (main opts filter ≡ some ls)
        × (listed ls
            ≡ kept_if sys.cmdline sys.port_size
                (not (not o.tcp && o.udp))
                (codes "tcp")
                filter
                (owned (λ i. false) ss all)
              ++ kept_if sys.cmdline sys.port_size
                  (not (o.tcp && not o.udp))
                  (codes "udp")
                  filter
                  (owned (λ i. false) ss all))
  unfolding main
  main-listed opts filter o all ss known reads found short h =
      rw (known, reads, scan_procs-owned sys.procs all, found)
        (list_connections-listed sys.cmdline sys.port_size o filter (owned (λ i. false) ss all)
          short h)
