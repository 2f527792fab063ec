-- ===== src/Sockets/Owners/First.antt =====
-- Which process a connection is given: the join of the sockets under /proc with the connections.
use advanced_unix_progr.Base.{
  ℤ, pos, negsuc, ◌==ℤ◌, Bool, true, false, ◌||◌, Text, List, [], ◌∷◌, ◌++◌, map, Option, none,
  some, ◌≡◌, refl, sym, ap, ◌∙◌, arith, Bool-cases, inl, inr, if◌then◌else◌, ◌==◌,
}
use advanced_unix_progr.Cstd.{byte_at, scan_int}
use advanced_unix_progr.Sockets.{Entry}
use advanced_unix_progr.Sockets.Owners.{
  Fd, Proc, is_digit, scan_inode, put_pid, set_owner, own, is_socket, scan_fd, and_next, scan_fds,
  scan_dir, scan_proc, scan_procs,
}

-- A socket's number, and the process that has it open.
pub record Socket : Type 0 where
  pub inode : ℤ
  pub owner : Option ℤ

-- The sockets of a directory's entry, of a process, and of all of them; `none` where a socket has no
-- number or a directory cannot be opened.
abbrev joined : Option (List Socket) → Option (List Socket) → Option (List Socket)
joined none b = none
joined (some a) none = none
joined (some a) (some b) = some (a ++ b)

abbrev all_joined : List (Option (List Socket)) → Option (List Socket)
all_joined [] = some []
all_joined (a ∷ rest) = joined a (all_joined rest)

abbrev numbered : Text → Option ℤ → Option (List Socket)
numbered name none = none
numbered name (some i) = some (record { inode = i; owner = scan_int name } ∷ [])

abbrev fd_sockets : Text → Fd → Option (List Socket)
fd_sockets name fd =
    if byte_at fd.name 0 == b'.'
    then some []
    else if is_socket fd.link
    then numbered name (scan_inode fd.link)
    else some []

abbrev dir_sockets : Text → Option (List Fd) → Option (List Socket)
dir_sockets name none = none
dir_sockets name (some fds) = all_joined (map (fd_sockets name) fds)

abbrev proc_sockets : Proc → Option (List Socket)
proc_sockets p = if is_digit (byte_at p.name 0) then dir_sockets p.name p.fds else some []

abbrev pub sockets : List Proc → Option (List Socket)
sockets procs = all_joined (map proc_sockets procs)

-- The process of the last socket with a number.
abbrev later : Option ℤ → Option ℤ → Option ℤ
later none b = b
later (some a) b = some a

abbrev pub last_owner : ℤ → List Socket → Option ℤ
last_owner i [] = none
last_owner i (s ∷ ss) = later (last_owner i ss) (if i ==ℤ s.inode then s.owner else none)

-- Each connection that is the first with its number is given the last process with that number.
abbrev pub owned : (ℤ → Bool) → List Socket → List Entry → List Entry
owned seen ss [] = []
owned seen ss (e ∷ es) =
    (if seen e.inode then e else put_pid (last_owner e.inode ss) e)
    ∷ owned (λ i. (e.inode ==ℤ i) || seen i) ss es

abbrev pub owned_by : List Entry → Option (List Socket) → Option (List Entry)
owned_by cs none = none
owned_by cs (some ss) = some (owned (λ i. false) ss cs)

-- One socket after the other.
abbrev set_owners : List Socket → List Entry → List Entry
set_owners [] cs = cs
set_owners (s ∷ ss) cs = set_owners ss (set_owner s.inode s.owner cs)

abbrev after : Option (List Socket) → List Entry → Option (List Entry)
after none cs = none
after (some ss) cs = some (set_owners ss cs)

==ℤ-≡ : (a b : ℤ) → (a ==ℤ b) ≡ true → a ≡ b
==ℤ-≡ (pos a) (pos b) h = ap pos (ground arith)
==ℤ-≡ (negsuc a) (negsuc b) h = ap negsuc (ground arith)
==ℤ-≡ (pos a) (negsuc b) h = ground arith
==ℤ-≡ (negsuc a) (pos b) h = ground arith

inode-put_pid : (p : Option ℤ) (e : Entry) → (put_pid p e).inode ≡ e.inode
inode-put_pid none e = refl
inode-put_pid (some n) e = refl

put_pid-put_pid : (p q : Option ℤ) (e : Entry) → put_pid p (put_pid q e) ≡ put_pid (later p q) e
put_pid-put_pid none q e = refl
put_pid-put_pid (some a) none e = refl
put_pid-put_pid (some a) (some b) e = refl

or_true : (a : Bool) → (a || true) ≡ true
or_true true = refl
or_true false = refl

later-none : (a : Option ℤ) → later a none ≡ a
later-none none = refl
later-none (some a) = refl

owned-nothing : (seen : ℤ → Bool) (cs : List Entry) → owned seen [] cs ≡ cs
owned-nothing seen [] = refl
owned-nothing seen (e ∷ es) = elim (Bool-cases (seen e.inode)) [
  | inl before ↦ rw (before, owned-nothing (λ i. (e.inode ==ℤ i) || seen i) es) refl
  | inr first ↦ rw (first, owned-nothing (λ i. (e.inode ==ℤ i) || seen i) es) refl
]

module _ (s : Socket) (ss : List Socket) where
  owned-seen :
      (seen : ℤ → Bool) (cs : List Entry)
      → seen s.inode ≡ true
      → owned seen (s ∷ ss) cs ≡ owned seen ss cs
  owned-seen seen [] h = refl
  owned-seen seen (e ∷ es) h =
      let tail =
        owned-seen (λ i. (e.inode ==ℤ i) || seen i) es (rw h (or_true (e.inode ==ℤ s.inode))) in
      elim (Bool-cases (seen e.inode)) [
        | inl before ↦ rw (before, tail) refl
        | inr first ↦ elim (Bool-cases (e.inode ==ℤ s.inode)) [
          | inl same ↦
              let twice : false ≡ true = sym first ∙ ap seen (==ℤ-≡ e.inode s.inode same) ∙ h in
              ground arith
          | inr other ↦ rw (first, other, later-none (last_owner e.inode ss), tail) refl
        ]
      ]

  owned-set_owner :
      (seen : ℤ → Bool) (cs : List Entry)
      → seen s.inode ≡ false
      → owned seen ss (set_owner s.inode s.owner cs) ≡ owned seen (s ∷ ss) cs
  unfolding set_owner
  owned-set_owner seen [] h = refl
  owned-set_owner seen (e ∷ es) h = elim (Bool-cases (e.inode ==ℤ s.inode)) [
    | inl same ↦
        let tail = owned-seen (λ i. (e.inode ==ℤ i) || seen i) es (rw same refl) in
        let first : seen e.inode ≡ false = ap seen (==ℤ-≡ e.inode s.inode same) ∙ h in
        rw
          (
            same,
            inode-put_pid s.owner e,
            first,
            put_pid-put_pid (last_owner e.inode ss) s.owner e,
            tail,
          )
          refl
    | inr other ↦
        let tail = owned-set_owner (λ i. (e.inode ==ℤ i) || seen i) es (rw (other, h) refl) in
        rw (other, tail, later-none (last_owner e.inode ss)) refl
  ]

owned-set_owners :
    (ss : List Socket) (cs : List Entry) → set_owners ss cs ≡ owned (λ i. false) ss cs
owned-set_owners [] cs = sym (owned-nothing (λ i. false) cs)
owned-set_owners (s ∷ ss) cs =
    owned-set_owners ss (set_owner s.inode s.owner cs) ∙ owned-set_owner s ss (λ i. false) cs refl

after-owned : (o : Option (List Socket)) (cs : List Entry) → after o cs ≡ owned_by cs o
after-owned none cs = refl
after-owned (some ss) cs = ap some (owned-set_owners ss cs)

set_owners-++ :
    (ss ts : List Socket) (cs : List Entry)
    → set_owners (ss ++ ts) cs ≡ set_owners ts (set_owners ss cs)
set_owners-++ [] ts cs = refl
set_owners-++ (s ∷ ss) ts cs = set_owners-++ ss ts (set_owner s.inode s.owner cs)

after-joined :
    (a b : Option (List Socket)) (cs : List Entry)
    → and_next (after a cs) (after b) ≡ after (joined a b) cs
after-joined none b cs = refl
after-joined (some ss) none cs = refl
after-joined (some ss) (some ts) cs = ap some (sym (set_owners-++ ss ts cs))

own-numbered :
    (name : Text) (o : Option ℤ) (cs : List Entry) → own name o cs ≡ after (numbered name o) cs
own-numbered name none cs = refl
own-numbered name (some i) cs = refl

scan_fd-sockets :
    (name : Text) (fd : Fd) (cs : List Entry) → scan_fd name fd cs ≡ after (fd_sockets name fd) cs
unfolding scan_fd
scan_fd-sockets name fd cs = elim (Bool-cases (byte_at fd.name 0 == b'.')) [
  | inl hidden ↦ rw hidden refl
  | inr shown ↦ elim (Bool-cases (is_socket fd.link)) [
    | inl socket ↦ rw (shown, socket) (own-numbered name (scan_inode fd.link) cs)
    | inr other ↦ rw (shown, other) refl
  ]
]

scan_fds-sockets :
    (name : Text) (fds : List Fd) (cs : List Entry)
    → scan_fds name fds cs ≡ after (all_joined (map (fd_sockets name) fds)) cs
unfolding scan_fds
scan_fds-sockets name [] cs = refl
scan_fds-sockets name (fd ∷ rest) cs =
    let behind : scan_fds name rest ≡ after (all_joined (map (fd_sockets name) rest)) =
      λ i c. scan_fds-sockets name rest c i in
    rw (scan_fd-sockets name fd cs, behind)
      (after-joined (fd_sockets name fd) (all_joined (map (fd_sockets name) rest)) cs)

scan_dir-sockets :
    (name : Text) (fds : Option (List Fd)) (cs : List Entry)
    → scan_dir name fds cs ≡ after (dir_sockets name fds) cs
scan_dir-sockets name none cs = refl
scan_dir-sockets name (some fds) cs = scan_fds-sockets name fds cs

scan_proc-sockets : (p : Proc) (cs : List Entry) → scan_proc p cs ≡ after (proc_sockets p) cs
unfolding scan_proc
scan_proc-sockets p cs = elim (Bool-cases (is_digit (byte_at p.name 0))) [
  | inl numbered_dir ↦ rw numbered_dir (scan_dir-sockets p.name p.fds cs)
  | inr other ↦ rw other refl
]

after-sockets :
    (procs : List Proc) (cs : List Entry) → scan_procs procs cs ≡ after (sockets procs) cs
unfolding scan_procs
after-sockets [] cs = refl
after-sockets (p ∷ rest) cs =
    let behind : scan_procs rest ≡ after (sockets rest) = λ i c. after-sockets rest c i in
    rw (scan_proc-sockets p cs, behind) (after-joined (proc_sockets p) (sockets rest) cs)

-- The loops join the open sockets with the connections: of the connections with a number the first
-- one is given the process of the last socket with that number, in the order of the directories, and
-- all others keep what they had. Where a directory cannot be opened, or a socket has no number, the
-- result is undefined.
pub scan_procs-owned :
    (procs : List Proc) (cs : List Entry) → scan_procs procs cs ≡ owned_by cs (sockets procs)
scan_procs-owned procs cs = after-sockets procs cs ∙ after-owned (sockets procs) cs
