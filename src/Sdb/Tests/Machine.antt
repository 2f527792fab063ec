-- ===== src/Sdb/Tests/Machine.antt =====
-- A traced process that satisfies what the theorems assume of the system: memory by bytes, a
-- register file, and the list of the stops that are still to come.
use advanced_unix_progr.Base.{
  ℕ, zero, suc, ◌+◌, ◌-◌, ◌*◌, ◌/◌, ◌%◌, ◌^◌, ◌≤◌, ◌<◌, ◌⊎◌, ℤ, pos, Bool, true, false, not, ◌&&◌,
  List, [], ◌∷◌, Option, none, some, ◌≡◌, refl, ap, arith, leb, ltb, if◌then◌else◌, replicate,
  codes,
}
use mathlib.Core.Path.{subst}
use mathlib.Core.Option.{some-injective}
use native.Mathlib.Nat.{pow-suc, div-div-eq-div-mul}
use advanced_unix_progr.Elf.{Handle}
use advanced_unix_progr.Sdb.State.{Bp, Sdb, null_tab}
use advanced_unix_progr.Sdb.Kernel.{
  Kernel, Regs, Insn, WaitResult, no_child, reported, wifstopped, TextIsMemory, IsMapped, WaitsOnce,
}

-- What `waitpid` has to report: a status, and the `rip` of the process then.
pub record Event : Type 0 where
  pub status : ℕ
  pub at : ℕ

pub record Machine : Type 0 where
  pub memory : ℕ → ℕ
  pub regs : Regs
  pub pending : Option Event
  pub gone : Bool
  pub script : List Event

unfoldable pub word_at : (ℕ → ℕ) → ℕ → ℕ → ℕ
word_at m a zero = 0
word_at m a (suc n) = m a % 256 + 256 * word_at m (a + 1) n

abbrev pub store : (ℕ → ℕ) → ℕ → ℕ → ℕ → ℕ
store m a word b = if leb a b && ltb b (a + 8) then word / 256 ^ (b - a) % 256 else m b

abbrev pub sigtrap : ℕ
sigtrap = 0x57f

abbrev pub stepped : Machine → Machine
stepped m = record m { pending = some (record { status = sigtrap; at = m.regs.rip + 1 }) }

abbrev pub next_event : List Event → Option Event
next_event [] = none
next_event (e ∷ es) = some e

abbrev pub later_events : List Event → List Event
later_events [] = []
later_events (e ∷ es) = es

abbrev pub continued : Machine → Machine
continued m = record m { pending = next_event m.script; script = later_events m.script }

abbrev pub report : Machine → Event → Machine
report m e = record m {
  regs = record (m.regs) { rip = e.at };
  pending = none;
  gone = not (wifstopped e.status);
}

abbrev pub await_pending : Machine → Option Event → Option (WaitResult × Machine)
await_pending m none = if m.gone then some (no_child, m) else none
await_pending m (some e) = some (reported e.status, report m e)

abbrev pub nop : ℕ → Insn
nop a = record { address = a; size = 1; bytes = 0x90 ∷ []; mnemonic = codes "nop"; op_str = [] }

abbrev pub machine : Kernel
machine = record {
  World = Machine;
  getregs = λ p m. m.regs;
  setregs = λ p regs m. some (record m { regs = regs });
  peektext = λ p a m. some (word_at m.memory a 8);
  poketext = λ p a word m. some (record m { memory = store m.memory a word });
  singlestep = λ p m. some (stepped m);
  cont = λ p m. some (continued m);
  exitkill = λ p m. some m;
  waitpid = λ p m. await_pending m m.pending;
  spawn =
      λ path m. (pos 7, record m { pending = some (record { status = sigtrap; at = 0x4000b0 }) });
  maps = λ p m. some (codes "400000-401000 r-xp 00000000 08:01 42 /tmp/guess" ∷ []);
  read_file = λ path offset m. some (replicate 64 0x90);
  disasm = λ bytes a. nop a ∷ nop (a + 1) ∷ [];
}

pub word_at_byte : (n a i : ℕ) (m : ℕ → ℕ) → i < n → m (a + i) % 256 ≡ word_at m a n / 256 ^ i % 256
unfolding word_at
word_at_byte zero a i m h = elim h [ ]
word_at_byte (suc n) a zero m h = let e : a + 0 ≡ a = omega arith in rw e (omega arith)
word_at_byte (suc n) a (suc i) m h =
    let e : a + suc i ≡ a + 1 + i = omega arith in
    let p : 256 ^ suc i ≡ 256 * 256 ^ i = omega (arith, pow-suc 256 i) in
    let q : (m a % 256 + 256 * word_at m (a + 1) n) / 256 ≡ word_at m (a + 1) n = omega arith in
    rw (e, p, ← div-div-eq-div-mul, q) (word_at_byte n (a + 1) i m (omega arith))

pub word_at-lt : (n a : ℕ) (m : ℕ → ℕ) → word_at m a n < 256 ^ n
unfolding word_at
word_at-lt zero a m = omega arith
word_at-lt (suc n) a m = omega (arith, word_at-lt n (a + 1) m, pow-suc 256 n)

pub store_inside :
    (m : ℕ → ℕ) (a word i : ℕ) → i < 8 → store m a word (a + i) % 256 ≡ word / 256 ^ i % 256
store_inside m a word i h = let e : a + i - a ≡ i = omega arith in rw e (ground arith)

pub store_outside : (m : ℕ → ℕ) (a word b : ℕ) → (b < a) ⊎ (a + 8 ≤ b) → store m a word b ≡ m b
store_outside m a word b h = ground arith

abbrev pub machine_text : (p : ℤ) → TextIsMemory machine p
machine_text p = record {
  byte = λ b m. m.memory b % 256;
  peek_byte = λ a word i w e h.
      subst (λ v. w.memory (a + i) % 256 ≡ v / 256 ^ i % 256) (some-injective _ _ e)
        (word_at_byte 8 a i w.memory h);
  peek-lt = λ a word w e. subst (λ v. v < 2 ^ 64) (some-injective _ _ e) (word_at-lt 8 a w.memory);
  poke_inside = λ a word i w w' e h.
      subst (λ (m : Machine). m.memory (a + i) % 256 ≡ word / 256 ^ i % 256) (some-injective _ _ e)
        (store_inside w.memory a word i h);
  poke_outside = λ a word b w w' e h.
      subst (λ (m : Machine). m.memory b % 256 ≡ w.memory b % 256) (some-injective _ _ e)
        (ap (λ t. t % 256) (store_outside w.memory a word b h));
  setregs_text = λ regs b w w' e.
      subst (λ (m : Machine). m.memory b % 256 ≡ w.memory b % 256) (some-injective _ _ e) refl;
  Stopped = λ m. m.gone ≡ false;
  poke_stopped =
      λ a word w w' s e. subst (λ (m : Machine). m.gone ≡ false) (some-injective _ _ e) s;
  poke_regs = λ a word w w' e. subst (λ (m : Machine). m.regs ≡ w.regs) (some-injective _ _ e) refl;
}

abbrev pub machine_mapped : (p : ℤ) (a : ℕ) → IsMapped machine p (machine_text p) a
machine_mapped p a = record {
  peeks = λ w s. (word_at w.memory a 8, refl);
  pokes = λ word w s. (record w { memory = store w.memory a word }, refl);
}

abbrev pub zero_regs : Regs
zero_regs = record {
  rax = 1;
  rbx = 2;
  rcx = 3;
  rdx = 4;
  r8 = 8;
  r9 = 9;
  r10 = 10;
  r11 = 11;
  r12 = 12;
  r13 = 13;
  r14 = 14;
  r15 = 15;
  rdi = 5;
  rsi = 6;
  rbp = 7;
  rsp = 0x7ffe0000;
  rip = 0x4000a8;
  eflags = 0x202;
  others = [];
}

-- A stopped process whose memory holds the byte 0x90 everywhere.
abbrev pub stopped : List Event → Machine
stopped events = record {
  memory = λ a. 0x90;
  regs = zero_regs;
  pending = none;
  gone = false;
  script = events;
}

abbrev pub bp_at : ℕ → Bp
bp_at a = record { is_used = true; addr = a; original_word = 0 }

abbrev pub no_bp : Bp
no_bp = record { is_used = false; addr = 0; original_word = 0 }

abbrev pub handle : Handle
handle = record {
  fd = 3;
  elf = 0;
  clazz = 2;
  type = 2;
  phnum = 1;
  shnum = 1;
  shstrndx = 0;
  entrypoint = 0x4000b0;
  phdr = some [];
  shdr = some [];
  strtab = [];
  sym = none;
  dsym = none;
}

-- A debugger that runs process 7 with some break points; the other slots are free.
abbrev pub debugger : List Bp → Sdb
debugger bps = record {
  eh = some handle;
  strtab = null_tab;
  path = codes "/tmp/guess";
  pid = pos 7;
  breaks = bps;
  last_disasm_addr = 0;
}

exit_once :
    (m w : Machine) (e : Option Event) (st : ℕ)
    → await_pending m e ≡ some (reported st, w)
    → wifstopped st ≡ false
    → await_pending w w.pending ≡ some (no_child, w)
exit_once m w none st r s = ground arith
exit_once m w (some e) st r s = ground arith

stop_once :
    (m w : Machine) (e : Option Event) (st : ℕ)
    → await_pending m e ≡ some (reported st, w)
    → wifstopped st ≡ true
    → await_pending w w.pending ≡ none
stop_once m w none st r s = ground arith
stop_once m w (some e) st r s = ground arith

pub machine-WaitsOnce : (p : ℤ) → WaitsOnce machine p
machine-WaitsOnce p = record {
  after_exit = λ st w w₁ r s. (w₁, exit_once w w₁ w.pending st r s);
  after_stop = λ st w w₁ r s. stop_once w w₁ w.pending st r s;
}
