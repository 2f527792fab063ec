-- ===== src/Sdb/Regs.antt =====
-- hw4/sdb.h, `sdb_get`, `sdb_set` and `sdb_getregs`.
pub mod RoundTrip
use advanced_unix_progr.Base.{
  ℕ, Bool, true, false, not, Text, List, [], ◌∷◌, Option, none, some, map, str_eq, codes,
  if◌then◌else◌,
}
use advanced_unix_progr.Sdb.Host.{
  Message, register, registers, set_regs_failed, uninitialised, Run, ok, Cmd, ◌>>=◌, ◌>>◌, need,
  observe, pure, print, attempt, when,
}
use advanced_unix_progr.Sdb.State.{Sdb}
use advanced_unix_progr.Sdb.Kernel.{Kernel, Regs}

-- The registers in the order in which `MATCH_REG_NAME` and `SET_IF_MATCHED` are used.
pub data Reg : Type 0 where
  rax rbx rcx rdx r8 r9 r10 r11 r12 r13 r14 r15 rdi rsi rbp rsp rip eflags : Reg

abbrev pub reg_order : List Reg
reg_order =
    rax ∷ rbx ∷ rcx ∷ rdx ∷ r8 ∷ r9 ∷ r10 ∷ r11 ∷ r12 ∷ r13 ∷ r14 ∷ r15 ∷ rdi ∷ rsi ∷ rbp ∷ rsp
    ∷ rip ∷ eflags ∷ []

abbrev pub reg_name : Reg → Text
reg_name rax = codes "rax"
reg_name rbx = codes "rbx"
reg_name rcx = codes "rcx"
reg_name rdx = codes "rdx"
reg_name r8 = codes "r8"
reg_name r9 = codes "r9"
reg_name r10 = codes "r10"
reg_name r11 = codes "r11"
reg_name r12 = codes "r12"
reg_name r13 = codes "r13"
reg_name r14 = codes "r14"
reg_name r15 = codes "r15"
reg_name rdi = codes "rdi"
reg_name rsi = codes "rsi"
reg_name rbp = codes "rbp"
reg_name rsp = codes "rsp"
reg_name rip = codes "rip"
reg_name eflags = codes "eflags"

abbrev pub field : Reg → Regs → ℕ
field rax regs = regs.rax
field rbx regs = regs.rbx
field rcx regs = regs.rcx
field rdx regs = regs.rdx
field r8 regs = regs.r8
field r9 regs = regs.r9
field r10 regs = regs.r10
field r11 regs = regs.r11
field r12 regs = regs.r12
field r13 regs = regs.r13
field r14 regs = regs.r14
field r15 regs = regs.r15
field rdi regs = regs.rdi
field rsi regs = regs.rsi
field rbp regs = regs.rbp
field rsp regs = regs.rsp
field rip regs = regs.rip
field eflags regs = regs.eflags

abbrev pub set_field : Reg → ℕ → Regs → Regs
set_field rax v regs = record regs { rax = v }
set_field rbx v regs = record regs { rbx = v }
set_field rcx v regs = record regs { rcx = v }
set_field rdx v regs = record regs { rdx = v }
set_field r8 v regs = record regs { r8 = v }
set_field r9 v regs = record regs { r9 = v }
set_field r10 v regs = record regs { r10 = v }
set_field r11 v regs = record regs { r11 = v }
set_field r12 v regs = record regs { r12 = v }
set_field r13 v regs = record regs { r13 = v }
set_field r14 v regs = record regs { r14 = v }
set_field r15 v regs = record regs { r15 = v }
set_field rdi v regs = record regs { rdi = v }
set_field rsi v regs = record regs { rsi = v }
set_field rbp v regs = record regs { rbp = v }
set_field rsp v regs = record regs { rsp = v }
set_field rip v regs = record regs { rip = v }
set_field eflags v regs = record regs { eflags = v }

-- The uses of `MATCH_REG_NAME` one after the other; `val` is `none` while it is not written.
unfoldable pub match_reg_names : List Reg → Text → Regs → Option ℕ → Option ℕ
match_reg_names [] name regs val = val
match_reg_names (r ∷ rs) name regs val =
    match_reg_names rs name regs (if str_eq name (reg_name r) then some (field r regs) else val)

-- The uses of `SET_IF_MATCHED`.
unfoldable pub set_if_matched : List Reg → Text → ℕ → Regs → Regs
set_if_matched [] name val regs = regs
set_if_matched (r ∷ rs) name val regs =
    set_if_matched rs name val (if str_eq name (reg_name r) then set_field r val regs else regs)

-- What `getregs` prints, in its order.
abbrev pub shown_regs : List Reg
shown_regs =
    rax ∷ rbx ∷ rcx ∷ rdx ∷ r8 ∷ r9 ∷ r10 ∷ r11 ∷ r12 ∷ r13 ∷ r14 ∷ r15 ∷ rdi ∷ rsi ∷ rbp ∷ rsp
    ∷ rip ∷ eflags ∷ []

module _ (K : Kernel) where
  open K use {World, getregs, setregs}

  unfoldable pub sdb_get : Sdb → Text → Cmd World ℕ
  unfolding match_reg_names
  sdb_get sdb name = do
    regs ← observe (getregs sdb.pid)
    val ← need uninitialised (match_reg_names reg_order name regs none)
    print (register name val)
    pure val

  unfoldable pub sdb_set : Sdb → Text → ℕ → Cmd World (Unit {0})
  unfolding set_if_matched
  sdb_set sdb name val = do
    regs ← observe (getregs sdb.pid)
    done ← attempt (setregs sdb.pid (set_if_matched reg_order name val regs))
    when (not done) (print set_regs_failed)

  unfoldable pub sdb_getregs : Sdb → Cmd World (Unit {0})
  sdb_getregs sdb = do
    regs ← observe (getregs sdb.pid)
    print (registers (map (λ r. field r regs) shown_regs))
