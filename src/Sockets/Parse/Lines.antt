-- ===== src/Sockets/Parse/Lines.antt =====
-- Which entry of the list comes from which line of a file.
use advanced_unix_progr.Base.{
  ℕ, zero, suc, ◌+◌, ◌<◌, false, Text, List, [], ◌∷◌, Option, none, some, ◌≡◌, refl, arith,
  get_elem?, ◌==◌,
}
use advanced_unix_progr.Sockets.{Entry, Raw, Ntop}
use advanced_unix_progr.Sockets.Parse.{is_ipv6_name, parse_line, parse_lines, parse_protocol}

abbrev pub entry_number : ℕ → Option (List Entry) → Option Entry
entry_number i none = none
entry_number i (some es) = get_elem? es i

module _ (ntop : Ntop) (raws : ℕ → Raw) (protocol : Text) where
  -- The entry of line `n`.
  abbrev pub line_entry : ℕ → Text → Entry
  line_entry n line =
      parse_line ntop (raws n) (is_ipv6_name protocol) line
        (record ((raws n).entry) { ip_proto = protocol })

  abbrev pub entry_at : ℕ → Option Text → Option Entry
  entry_at n none = none
  entry_at n (some line) = some (line_entry n line)

  parse_lines-behind :
      (n : ℕ) (lines : List Text) (i : ℕ)
      → 1 < n
      → get_elem? (parse_lines ntop raws protocol n lines) i ≡ entry_at (n + i) (get_elem? lines i)
  unfolding parse_lines
  parse_lines-behind n [] i h = refl
  parse_lines-behind n (line ∷ rest) zero h =
      let past : (n == 1) ≡ false = ground arith in
      let here : n + 0 ≡ n = omega arith in rw (past, here) refl
  parse_lines-behind n (line ∷ rest) (suc i) h =
      let past : (n == 1) ≡ false = ground arith in
      let shift : n + 1 + i ≡ n + suc i = omega arith in
      rw (past, parse_lines-behind (n + 1) rest i (omega arith), shift) refl

  -- The first line of a file is its heading. Behind it each line adds one entry, in order: entry `i` is
  -- line `i + 2` as it is parsed by itself, into an entry with the protocol; there are no others.
  pub parse_protocol-lines :
      (header : Text) (lines : List Text) (i : ℕ)
      → entry_number i (parse_protocol ntop raws protocol (some (header ∷ lines)))
        ≡ entry_at (i + 2) (get_elem? lines i)
  unfolding parse_protocol parse_lines
  parse_protocol-lines header lines i =
      let shift : 2 + i ≡ i + 2 = omega arith in
      rw (parse_lines-behind 2 lines i (omega arith), shift) refl
