-- ===== src/Sockets/Parse/Fields.antt =====
-- Which token of a line ends in which field.
use advanced_unix_progr.Base.{
  ℕ, suc, ◌+◌, ◌-◌, ◌^◌, ◌<◌, pos, Bool, false, Text, List, [], ◌∷◌, Option, none, some, ◌≡◌, refl,
  ap, ◌∙◌, arith, get_elem?, ltb, leb, ◌==◌, if◌then◌else◌, Bool-cases, inl, inr, codes,
}
use native.Mathlib.Decide.{dec_lt}
use advanced_unix_progr.Cstd.{strtok, scan_int}
use advanced_unix_progr.Sockets.{star, decimal, Entry, RawPair, Raw, Ntop}
use advanced_unix_progr.Sockets.Parse.{
  parse_addr_port_pair, scan_pair, put_local, put_remote, put_inode, put_token, is_newline,
  parse_tokens, parse_line,
}

-- The tokens that are counted.
abbrev pub counted : List Text → List Text
counted [] = []
counted (t ∷ ts) = if is_newline t then counted ts else t ∷ counted ts

module _ (ntop : Ntop) (raw : Raw) (is_ipv6 : Bool) where
  abbrev pub store_local : Option Text → Entry → Entry
  store_local none e = e
  store_local (some t) e = put_local (parse_addr_port_pair ntop raw.own_pair is_ipv6 t) e

  abbrev pub store_remote : Option Text → Entry → Entry
  store_remote none e = e
  store_remote (some t) e = put_remote (parse_addr_port_pair ntop raw.peer_pair is_ipv6 t) e

  abbrev pub store_inode : Option Text → Entry → Entry
  store_inode none e = e
  store_inode (some t) e = put_inode (scan_int t) e

  -- Token `k` of a line of which `c` tokens were counted and `ts` are left.
  abbrev token_at : (k c : ℕ) → List Text → Option Text
  token_at k c ts = if leb c k then get_elem? ts (k - c) else none

  token_at-cons :
      (k c : ℕ) (t : Text) (ts : List Text)
      → token_at k c (t ∷ ts) ≡ (if c == k then some t else token_at k (c + 1) ts)
  token_at-cons k c t ts = elim (dec_lt c k) [
    | yes before ↦
        let e : k - c ≡ suc (k - (c + 1)) = omega arith in ground (arith, ap (get_elem? (t ∷ ts)) e)
    | no after ↦ elim (dec_lt k c) [
      | yes past ↦ ground arith
      | no here ↦ let e : k - c ≡ 0 = omega arith in ground (arith, ap (get_elem? (t ∷ ts)) e)
    ]
  ]

  token_at-nil : (k c : ℕ) → token_at k c [] ≡ none
  token_at-nil k c = ground arith

  token_at-past : (k c : ℕ) (ts : List Text) → k < c → token_at k c ts ≡ none
  token_at-past k c ts h = ground arith

  abbrev finish : ℕ → List Text → Entry → Entry
  finish c ts e =
      store_inode (token_at 9 c ts)
        (store_remote (token_at 2 c ts) (store_local (token_at 1 c ts) e))

  finish-cons :
      (c : ℕ) (t : Text) (ts : List Text) (e : Entry)
      → finish (c + 1) ts (put_token ntop raw is_ipv6 c t e) ≡ finish c (t ∷ ts) e
  unfolding put_token
  finish-cons c t ts e =
      rw (token_at-cons 9 c t ts, token_at-cons 2 c t ts, token_at-cons 1 c t ts)
        (elim (Bool-cases (c == 1)) [
          | inl one ↦
              let two : (c == 2) ≡ false = ground arith in
              let nine : (c == 9) ≡ false = ground arith in
              rw (one, two, nine, token_at-past 1 (c + 1) ts (ground arith)) refl
          | inr other ↦ elim (Bool-cases (c == 2)) [
            | inl two ↦
                let nine : (c == 9) ≡ false = ground arith in
                rw
                  (
                    other,
                    two,
                    nine,
                    token_at-past 1 (c + 1) ts (ground arith),
                    token_at-past 2 (c + 1) ts (ground arith),
                  )
                  refl
            | inr later ↦ elim (Bool-cases (c == 9)) [
              | inl nine ↦
                  rw
                    (
                      other,
                      later,
                      nine,
                      token_at-past 1 (c + 1) ts (ground arith),
                      token_at-past 2 (c + 1) ts (ground arith),
                      token_at-past 9 (c + 1) ts (ground arith),
                    )
                    refl
              | inr none_of_them ↦ rw (other, later, none_of_them) refl
            ]
          ]
        ])

  parse_tokens-finish :
      (c : ℕ) (ts : List Text) (e : Entry)
      → parse_tokens ntop raw is_ipv6 c ts e ≡ finish c (counted ts) e
  unfolding parse_tokens
  parse_tokens-finish c [] e = rw (token_at-nil 9 c, token_at-nil 2 c, token_at-nil 1 c) refl
  parse_tokens-finish c (t ∷ ts) e = elim (Bool-cases (is_newline t)) [
    | inl newline ↦ rw newline (parse_tokens-finish c ts e)
    | inr counts ↦ rw counts (
        parse_tokens-finish (c + 1) ts (put_token ntop raw is_ipv6 c t e)
        ∙ finish-cons c t (counted ts) e)
  ]

  -- A line's tokens are separated by spaces, and those that begin with a newline do not count.
  -- Token 1 is the local end, token 2 the remote end and token 9 the inode, each as it is parsed by
  -- itself; a token that the line does not have leaves its fields as they were, as all others do.
  pub parse_line-tokens :
      (line : Text) (e : Entry)
      → let ts = counted (strtok (codes " ") line) in
        parse_line ntop raw is_ipv6 line e
        ≡ store_inode
            (get_elem? ts 9)
            (store_remote (get_elem? ts 2) (store_local (get_elem? ts 1) e))
  unfolding parse_line
  parse_line-tokens line e = parse_tokens-finish 0 (strtok (codes " ") line) e

-- A port of 0 is shown as `*` only where the upper half of the variable was 0 before: `%x` writes the
-- lower half, and the test compares both.
parse_addr_port_pair-zero :
    (ntop : Ntop) (raw : RawPair) (is_ipv6 : Bool) (pair : Text) (a : ℕ)
    → scan_pair pair ≡ (some a, some 0)
    → (parse_addr_port_pair ntop raw is_ipv6 pair).1
      ≡ (if ltb raw.port (2 ^ 32) then star else decimal (pos 0))
unfolding parse_addr_port_pair
parse_addr_port_pair-zero ntop raw is_ipv6 pair a scanned = rw scanned (ground arith)
