-- ===== src/Sdb/Kernel.antt =====
-- What hw4/sdb.h calls outside the repository: ptrace, fork, waitpid, /proc, the file system and
-- the disassembler. The model takes them as a value of this record; `World` is the state of the
-- system, the traced process included.
use advanced_unix_progr.Base.{
  ℕ, ◌+◌, ◌/◌, ◌%◌, ◌^◌, ◌≤◌, ◌<◌, ◌⊎◌, ℤ, Bool, true, false, Text, List, Option, none, some,
  bit_and, ◌==◌, ◌≡◌,
}

-- `struct user_regs_struct`: the registers that the debugger names, and the others.
pub record Regs : Type 0 where
  pub rax : ℕ
  pub rbx : ℕ
  pub rcx : ℕ
  pub rdx : ℕ
  pub r8 : ℕ
  pub r9 : ℕ
  pub r10 : ℕ
  pub r11 : ℕ
  pub r12 : ℕ
  pub r13 : ℕ
  pub r14 : ℕ
  pub r15 : ℕ
  pub rdi : ℕ
  pub rsi : ℕ
  pub rbp : ℕ
  pub rsp : ℕ
  pub rip : ℕ
  pub eflags : ℕ
  pub others : List ℕ

-- `cs_insn`
pub record Insn : Type 0 where
  pub address : ℕ
  pub size : ℕ
  pub bytes : List ℕ
  pub mnemonic : Text
  pub op_str : Text

-- What `waitpid` returns: -1, or the process with its status.
pub data WaitResult : Type 0 where
  no_child : WaitResult
  reported : ℕ → WaitResult

-- `WIFSTOPPED`
abbrev pub wifstopped : ℕ → Bool
wifstopped status = bit_and status 0xff == 0x7f

pub record Kernel : Type 1 where
  pub World : Type 0
  -- `regs` after `PTRACE_GETREGS`: on a failure, what the memory held before
  pub getregs : ℤ → World → Regs
  pub setregs : ℤ → Regs → World → Option World
  -- `PTRACE_PEEKTEXT`; `none` where it sets `errno` (and returns -1)
  pub peektext : ℤ → ℕ → World → Option ℕ
  pub poketext : ℤ → ℕ → ℕ → World → Option World
  pub singlestep : ℤ → World → Option World
  pub cont : ℤ → World → Option World
  pub exitkill : ℤ → World → Option World
  -- `none` where the call never returns
  pub waitpid : ℤ → World → Option (WaitResult × World)
  -- `fork` with a child that calls `PTRACE_TRACEME` and `execlp`; what `fork` returns here
  pub spawn : Text → World → ℤ × World
  -- the lines of /proc/PID/maps; `none` where `fopen` returns `NULL`
  pub maps : ℤ → World → Option (List Text)
  -- up to 64 bytes of a file at an offset; `none` where `fopen` returns `NULL`
  pub read_file : Text → ℕ → World → Option (List ℕ)
  -- `cs_disasm` of some bytes at an address
  pub disasm : List ℕ → ℕ → List Insn

-- Documented behaviour of ptrace, on which theorems about the debugger rest.
module _ (K : Kernel) where
  open K use {World, getregs, setregs, peektext, poketext, waitpid}

  -- The registers that were written are read back.
  abbrev pub RegsAreKept : Type 0
  RegsAreKept =
      (p : ℤ) (regs : Regs) (w w' : World) → setregs p regs w ≡ some w' → getregs p w' ≡ regs

  -- The memory of process `p` is bytes: a word is eight of them, the lowest first, and a write of a
  -- word changes no other byte and no register. A write of the registers changes no byte. `Stopped` is
  -- the states in which the process is stopped under ptrace; it stays so when a word is written.
  pub record TextIsMemory (p : ℤ) : Type 1 where
    pub byte : ℕ → World → ℕ
    pub Stopped : World → Type 0
    pub peek_byte :
        (a word i : ℕ) (w : World)
        → peektext p a w ≡ some word
        → i < 8
        → byte (a + i) w ≡ word / 256 ^ i % 256
    pub peek-lt : (a word : ℕ) (w : World) → peektext p a w ≡ some word → word < 2 ^ 64
    pub poke_inside :
        (a word i : ℕ) (w w' : World)
        → poketext p a word w ≡ some w'
        → i < 8
        → byte (a + i) w' ≡ word / 256 ^ i % 256
    pub poke_outside :
        (a word b : ℕ) (w w' : World)
        → poketext p a word w ≡ some w'
        → (b < a) ⊎ (a + 8 ≤ b)
        → byte b w' ≡ byte b w
    pub setregs_text :
        (regs : Regs) (b : ℕ) (w w' : World) → setregs p regs w ≡ some w' → byte b w' ≡ byte b w
    pub poke_stopped :
        (a word : ℕ) (w w' : World) → Stopped w → poketext p a word w ≡ some w' → Stopped w'
    pub poke_regs :
        (a word : ℕ) (w w' : World) → poketext p a word w ≡ some w' → getregs p w' ≡ getregs p w

  -- The registers of the process can be written while it is stopped.
  abbrev pub CanSetRegs : (p : ℤ) → TextIsMemory p → Type 0
  CanSetRegs p text =
      (regs : Regs) (w : World) → text.Stopped w → (w' : World) × (setregs p regs w ≡ some w')

  -- The words at an address can be read and written while the process is stopped.
  pub record IsMapped (p : ℤ) (text : TextIsMemory p) (a : ℕ) : Type 0 where
    pub peeks : (w : World) → text.Stopped w → (word : ℕ) × (peektext p a w ≡ some word)
    pub pokes :
        (word : ℕ) (w : World) → text.Stopped w → (w' : World) × (poketext p a word w ≡ some w')

  -- `waitpid` on a child that is stopped, or gone: after a report that the process has ended there
  -- is no child left, and after one that it has stopped the call waits until it is resumed.
  pub record WaitsOnce (p : ℤ) : Type 0 where
    pub after_exit :
        (st : ℕ) (w w₁ : World)
        → waitpid p w ≡ some (reported st, w₁)
        → wifstopped st ≡ false
        → (w₂ : World) × (waitpid p w₁ ≡ some (no_child, w₂))
    pub after_stop :
        (st : ℕ) (w w₁ : World)
        → waitpid p w ≡ some (reported st, w₁)
        → wifstopped st ≡ true
        → waitpid p w₁ ≡ none
