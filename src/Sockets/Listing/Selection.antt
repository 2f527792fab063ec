-- ===== src/Sockets/Listing/Selection.antt =====
-- Which connections the output lists, and in which order.
use advanced_unix_progr.Base.{
  ℕ, ◌+◌, ◌<◌, ℤ, Bool, true, false, not, ◌&&◌, Text, List, [], ◌∷◌, ◌++◌, Option, none, some, ◌≡◌,
  refl, ap, ◌∙◌, arith, length, drop, codes, ltb, leb, lt→ltb, Bool-cases, inl, inr, if◌then◌else◌,
}
use mathlib.Core.List.{append-nil}
use advanced_unix_progr.Cstd.{words, after_slash}
use advanced_unix_progr.Sockets.{Port, Entry}
use advanced_unix_progr.Sockets.Listing.{
  Options, Line, title, columns, row, blank, shows_tcp, shows_udp, c_string, begins, has_part,
  filter_size, small_size, first_word, is_listed, select, end_fits, print_entry, print_entries,
  is_empty, print_list, select_if, print_lists, list_connections,
}

abbrev pub Every : (Entry → Type 0) → List Entry → Type 0
Every P [] = Unit
Every P (e ∷ es) = P e × Every P es

-- The connections of the output, in order.
abbrev pub listed : List Line → List Entry
listed [] = []
listed (title name ∷ ls) = listed ls
listed (columns ∷ ls) = listed ls
listed (row e program arguments ∷ ls) = e ∷ listed ls
listed (blank ∷ ls) = listed ls

listed-++ : (ls ms : List Line) → listed (ls ++ ms) ≡ listed ls ++ listed ms
listed-++ [] ms = refl
listed-++ (title name ∷ ls) ms = listed-++ ls ms
listed-++ (columns ∷ ls) ms = listed-++ ls ms
listed-++ (row e program arguments ∷ ls) ms = ap (λ es. e ∷ es) (listed-++ ls ms)
listed-++ (blank ∷ ls) ms = listed-++ ls ms

listed-blank : (ls : List Line) → listed (ls ++ (blank ∷ [])) ≡ listed ls
listed-blank [] = refl
listed-blank (title name ∷ ls) = listed-blank ls
listed-blank (columns ∷ ls) = listed-blank ls
listed-blank (row e program arguments ∷ ls) = ap (λ es. e ∷ es) (listed-blank ls)
listed-blank (blank ∷ ls) = listed-blank ls

listed-gap : (ls : List Line) (b : Bool) → listed (ls ++ (if b then blank ∷ [] else [])) ≡ listed ls
listed-gap ls true = listed-blank ls
listed-gap ls false = ap listed (append-nil ls)

listed-parts :
    (ls : List Line) (b : Bool) (ms : List Line)
    → listed (ls ++ (if b then blank ∷ [] else []) ++ ms) ≡ listed ls ++ listed ms
listed-parts ls b ms =
    listed-++ (ls ++ (if b then blank ∷ [] else [])) ms
    ∙ ap (λ es. es ++ listed ms) (listed-gap ls b)

module _ (cmdline : ℤ → Option Text) (port_size : Port → ℕ) where
  -- The process's command line can be read and has a first word that is short enough, behind which
  -- the line goes on, and the texts of both ends fit their buffers.
  pub record IsPrintable (e : Entry) : Type 0 where
    pub line : Text
    pub path : Text
    pub reads : cmdline e.pid ≡ some line
    pub starts : first_word (words (c_string line)) ≡ some path
    pub path_fits : length path < small_size
    pub has_rest : length path < length line
    pub local_fits : end_fits cmdline port_size e.local_addr e.local_port ≡ true
    pub remote_fits : end_fits cmdline port_size e.remote_addr e.remote_port ≡ true

  abbrev pub line_has : Text → Option Text → Bool
  line_has filter none = false
  line_has filter (some line) = has_part filter (c_string line)

  -- The connections of a protocol whose process's command line has the filter in it.
  abbrev pub kept : Text → Text → List Entry → List Entry
  kept proto filter [] = []
  kept proto filter (e ∷ es) =
      if begins proto e.ip_proto && line_has filter (cmdline e.pid)
      then e ∷ kept proto filter es
      else kept proto filter es

  is_listed-kept :
      (proto filter : Text) (e : Entry)
      → IsPrintable e
      → is_listed cmdline port_size proto filter e
        ≡ some (begins proto e.ip_proto && line_has filter (cmdline e.pid))
  is_listed-kept proto filter e h = elim (Bool-cases (begins proto e.ip_proto)) [
    | inl same ↦ rw (same, h.reads) refl
    | inr other ↦ rw other refl
  ]

  select-kept :
      (proto filter : Text) (es : List Entry)
      → Every IsPrintable es
      → select cmdline port_size proto filter es ≡ some (kept proto filter es)
  unfolding select
  select-kept proto filter [] h = refl
  select-kept proto filter (e ∷ es) (h, hs) =
      rw (is_listed-kept proto filter e h, select-kept proto filter es hs) refl

  Every-kept :
      (proto filter : Text) (es : List Entry)
      → Every IsPrintable es
      → Every IsPrintable (kept proto filter es)
  Every-kept proto filter [] h = h
  Every-kept proto filter (e ∷ es) (h, hs) =
      elim (Bool-cases (begins proto e.ip_proto && line_has filter (cmdline e.pid))) [
        | inl keep ↦ rw keep (h, Every-kept proto filter es hs)
        | inr skip ↦ rw skip (Every-kept proto filter es hs)
      ]

  abbrev row_of : (e : Entry) → IsPrintable e → Line
  row_of e h = row e (after_slash [] h.path) (c_string (drop (length h.path + 1) h.line))

  print_entry-row :
      (e : Entry) (h : IsPrintable e) → print_entry cmdline port_size e ≡ some (row_of e h)
  unfolding print_entry
  print_entry-row e h =
      let fits : ltb (length h.path) small_size ≡ true =
        lt→ltb (length h.path) small_size h.path_fits in
      let rest : leb (length h.path + 1) (length h.line) ≡ true = ground (arith, h.has_rest) in
      rw (h.local_fits, h.remote_fits, h.reads, h.starts, fits, rest) refl

  print_entries-listed :
      (es : List Entry)
      → Every IsPrintable es
      → (ls : List Line) × (print_entries cmdline port_size es ≡ some ls) × (listed ls ≡ es)
  unfolding print_entries
  print_entries-listed [] h = ([], refl, refl)
  print_entries-listed (e ∷ es) (h, hs) =
      let (ls, prints, same) = print_entries-listed es hs in
      (row_of e h ∷ ls, rw (print_entry-row e h, prints) refl, ap (λ more. e ∷ more) same)

  print_list-listed :
      (name : Text) (es : List Entry)
      → Every IsPrintable es
      → (ls : List Line) × (print_list cmdline port_size name es ≡ some ls) × (listed ls ≡ es)
  unfolding print_list
  print_list-listed name [] h = ([], refl, refl)
  print_list-listed name (e ∷ es) h =
      let (ls, prints, same) = print_entries-listed (e ∷ es) h in
      (title name ∷ columns ∷ ls, rw prints refl, same)

  abbrev pub kept_if : Bool → Text → Text → List Entry → List Entry
  kept_if b proto filter es = if b then kept proto filter es else []

  select_if-kept :
      (b : Bool) (proto filter : Text) (es : List Entry)
      → Every IsPrintable es
      → select_if cmdline port_size b proto filter es ≡ some (kept_if b proto filter es)
  select_if-kept true proto filter es h = select-kept proto filter es h
  select_if-kept false proto filter es h = refl

  Every-kept_if :
      (b : Bool) (proto filter : Text) (es : List Entry)
      → Every IsPrintable es
      → Every IsPrintable (kept_if b proto filter es)
  Every-kept_if true proto filter es h = Every-kept proto filter es h
  Every-kept_if false proto filter es h = tt

  print_lists-listed :
      (tcp udp : List Entry)
      → Every IsPrintable tcp
      → Every IsPrintable udp
      → (ls : List Line) × (print_lists cmdline port_size tcp udp ≡ some ls)
        × (listed ls ≡ tcp ++ udp)
  print_lists-listed tcp udp ht hu =
      let (first, prints_tcp, same_tcp) = print_list-listed (codes "TCP") tcp ht in
      let (second, prints_udp, same_udp) = print_list-listed (codes "UDP") udp hu in
      let gap = not (is_empty tcp) && not (is_empty udp) in
      (
        first ++ (if gap then blank ∷ [] else []) ++ second,
        rw (prints_tcp, prints_udp) refl,
        listed-parts first gap second
            ∙ ap (λ es. es ++ listed second) same_tcp
            ∙ ap (λ es. tcp ++ es) same_udp,
      )

  -- Where every connection can be printed and the filter fits its buffer, the program ends with an
  -- output that lists exactly the connections whose process's command line has the filter in it: those
  -- of tcp and tcp6 unless only udp was asked for, and behind them those of udp and udp6 unless only
  -- tcp was asked for, each in the order they were read in.
  pub list_connections-listed :
      (o : Options) (filter : Text) (all : List Entry)
      → length filter < filter_size
      → Every IsPrintable all
      → (ls : List Line) × (list_connections cmdline port_size o filter all ≡ some ls)
        × (listed ls
            ≡ kept_if (not (not o.tcp && o.udp)) (codes "tcp") filter all
              ++ kept_if (not (o.tcp && not o.udp)) (codes "udp") filter all)
  unfolding list_connections
  list_connections-listed o filter all short h =
      let fits : ltb (length filter) filter_size ≡ true =
        lt→ltb (length filter) filter_size short in
      rw
        (
          fits,
          select_if-kept (shows_tcp o) (codes "tcp") filter all h,
          select_if-kept (shows_udp o) (codes "udp") filter all h,
        )
        (print_lists-listed (kept_if (shows_tcp o) (codes "tcp") filter all)
          (kept_if (shows_udp o) (codes "udp") filter all)
          (Every-kept_if (shows_tcp o) (codes "tcp") filter all h)
          (Every-kept_if (shows_udp o) (codes "udp") filter all h))
