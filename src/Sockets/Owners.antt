-- ===== src/Sockets/Owners.antt =====
-- hw1/main.cpp, the loop over /proc that finds each connection's process. `none` is undefined
-- behaviour: a directory that could not be opened, or a socket without a number.
pub mod First
use advanced_unix_progr.Base.{
  ℕ, ℤ, ◌==ℤ◌, Bool, true, false, ◌&&◌, Text, List, [], ◌∷◌, Option, none, some, take, drop, codes,
  str_eq, leb, ◌==◌, if◌then◌else◌,
}
use advanced_unix_progr.Cstd.{byte_at, scan_int}
use advanced_unix_progr.Sockets.{Entry}

-- An entry of /proc/<pid>/fd: its name, and what the buffer holds after `readlink`.
pub record Fd : Type 0 where
  pub name : Text
  pub link : Text

-- An entry of /proc; `fds` is `none` where its directory cannot be opened.
pub record Proc : Type 0 where
  pub name : Text
  pub fds : Option (List Fd)

abbrev pub is_digit : ℕ → Bool
is_digit c = leb b'0' c && leb c b'9'

-- `sscanf(buffer, "socket:[%d]", &inode)`
unfoldable pub scan_inode : Text → Option ℤ
scan_inode link = if str_eq (take 8 link) (codes "socket:[") then scan_int (drop 8 link) else none

abbrev pub put_pid : Option ℤ → Entry → Entry
put_pid none e = e
put_pid (some p) e = record e { pid = p }

-- The loop over the connections, to the first one with the number.
unfoldable pub set_owner : ℤ → Option ℤ → List Entry → List Entry
set_owner inode pid [] = []
set_owner inode pid (e ∷ es) =
    let others = set_owner inode pid es in
    if e.inode ==ℤ inode then put_pid pid e ∷ es else e ∷ others

abbrev pub own : Text → Option ℤ → List Entry → Option (List Entry)
own name none cs = none
own name (some inode) cs = some (set_owner inode (scan_int name) cs)

abbrev pub is_socket : Text → Bool
is_socket link = str_eq (take 6 link) (codes "socket")

-- One entry of a process's directory.
unfoldable pub scan_fd : Text → Fd → List Entry → Option (List Entry)
scan_fd name fd cs =
    if byte_at fd.name 0 == b'.'
    then some cs
    else if is_socket fd.link
    then own name (scan_inode fd.link) cs
    else some cs

abbrev pub and_next : Option (List Entry) → (List Entry → Option (List Entry)) → Option (List Entry)
and_next none k = none
and_next (some cs) k = k cs

unfoldable pub scan_fds : Text → List Fd → List Entry → Option (List Entry)
scan_fds name [] cs = some cs
scan_fds name (fd ∷ rest) cs = and_next (scan_fd name fd cs) (scan_fds name rest)

abbrev pub scan_dir : Text → Option (List Fd) → List Entry → Option (List Entry)
scan_dir name none cs = none
scan_dir name (some fds) cs = scan_fds name fds cs

unfoldable pub scan_proc : Proc → List Entry → Option (List Entry)
scan_proc p cs = if is_digit (byte_at p.name 0) then scan_dir p.name p.fds cs else some cs

unfoldable pub scan_procs : List Proc → List Entry → Option (List Entry)
scan_procs [] cs = some cs
scan_procs (p ∷ rest) cs = and_next (scan_proc p cs) (scan_procs rest)
