-- ===== src/Sdb/Regs/RoundTrip.antt =====
-- `sdb_get` after `sdb_set`.
use advanced_unix_progr.Base.{ℕ, ◌∷◌, none, some, str_eq, ◌≡◌, refl, ◌≢◌, arith}
use advanced_unix_progr.Sdb.Host.{register, Host, ok, ◌>>◌}
use advanced_unix_progr.Sdb.State.{Sdb}
use advanced_unix_progr.Sdb.Kernel.{Kernel, Regs, RegsAreKept}
use mathlib.Core.Logic.{ite, if_pos, if_neg}
use advanced_unix_progr.Sdb.Regs.{
  Reg, rax, reg_order, reg_name, field, set_field, match_reg_names, set_if_matched, sdb_get,
  sdb_set,
}

-- A name that the debugger knows reads the register of that name.
pub match_reg_names-reg_name :
    (r : Reg) (regs : Regs) → match_reg_names reg_order (reg_name r) regs none ≡ some (field r regs)
unfolding match_reg_names str_eq
match_reg_names-reg_name rax regs = refl
match_reg_names-reg_name _ regs = refl

-- A known name writes the register of that name.
pub set_if_matched-reg_name :
    (r : Reg) (val : ℕ) (regs : Regs)
    → set_if_matched reg_order (reg_name r) val regs ≡ set_field r val regs
unfolding set_if_matched str_eq
set_if_matched-reg_name rax val regs = refl
set_if_matched-reg_name _ val regs = refl

field-set_field_self : (r : Reg) (val : ℕ) (regs : Regs) → field r (set_field r val regs) ≡ val
field-set_field_self rax val regs = refl
field-set_field_self _ val regs = refl

field-set_field_ne :
    (r q : Reg) (val : ℕ) (regs : Regs) → q ≢ r → field q (set_field r val regs) ≡ field q regs
field-set_field_ne rax rax val regs ne = absurd (ne refl)
field-set_field_ne _ _ val regs ne = ground arith

pub Reg-discrete : Discrete Reg
Reg-discrete = hlevel

-- What register `q` holds once `val` is written to `r`.
abbrev pub written : Reg → ℕ → Regs → Reg → ℕ
written r val regs q = ite (Reg-discrete q r) val (field q regs)

field-set_field :
    (r q : Reg) (val : ℕ) (regs : Regs) → field q (set_field r val regs) ≡ written r val regs q
field-set_field r q val regs = elim (Reg-discrete q r) [
  | yes e ↦ rw (if_pos _ e) (rw e (field-set_field_self r val regs))
  | no ne ↦ rw (if_neg _ ne) (field-set_field_ne r q val regs ne)
]

-- `set` writes the named register and no other: where the kernel accepts the registers, a `get`
-- of any known name afterwards returns the written value for the same name and the old value for
-- every other name, and prints it.
pub sdb_get-sdb_set :
    (K : Kernel) (sdb : Sdb) (r q : Reg) (val : ℕ) (h : Host K.World) (w : K.World)
    → RegsAreKept K
    → let regs = K.getregs sdb.pid h.world in
      K.setregs sdb.pid (set_field r val regs) h.world ≡ some w
      → (sdb_set K sdb (reg_name r) val >> sdb_get K sdb (reg_name q)) h
        ≡ ok
            (written r val regs q)
            (record { world = w; out = register (reg_name q) (written r val regs q) ∷ h.out })
unfolding sdb_set sdb_get
sdb_get-sdb_set K sdb r q val h w kept accepted = rw (
  set_if_matched-reg_name r val (K.getregs sdb.pid h.world),
  accepted,
  kept _ _ _ _ accepted,
  match_reg_names-reg_name q,
  field-set_field r q val (K.getregs sdb.pid h.world),
)
