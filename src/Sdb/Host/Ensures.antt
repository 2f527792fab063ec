-- ===== src/Sdb/Host/Ensures.antt =====
-- What every run of a command that returns ends with.
use advanced_unix_progr.Base.{Bool, true, false, Option, none, some, ◌≡◌, refl, if◌then◌else◌}
use mathlib.Core.Path.{subst}
use advanced_unix_progr.Sdb.Host.{
  Fault, Host, Run, ok, fault, blocked, out_of_fuel, Cmd, and_then, need,
}

-- If the run returns, its value has `P`.
pub data Ensures {W A : Type 0} (P : A → Type 0) : Run W A → Type 0 where
  returns : (a : A) (h : Host W) → P a → Ensures P (ok a h)
  faults : (f : Fault) → Ensures P (fault f)
  blocks : Ensures P blocked
  runs_out : Ensures P out_of_fuel

pub Ensures-any : {W A : Type 0} (r : Run W A) → Ensures (λ _. Unit) r
Ensures-any (ok a h) = returns a h tt
Ensures-any (fault f) = faults f
Ensures-any blocked = blocks
Ensures-any out_of_fuel = runs_out

module _ {W A B : Type 0} {P : A → Type 0} {Q : B → Type 0} where
  pub Ensures-then :
      (r : Run W A) (k : A → Cmd W B)
      → Ensures P r
      → ((a : A) (h : Host W) → P a → Ensures Q (k a h))
      → Ensures Q (and_then r k)
  Ensures-then (ok a h) k (returns _ _ p) kq = kq a h p
  Ensures-then (fault f) k e kq = faults f
  Ensures-then blocked k e kq = blocks
  Ensures-then out_of_fuel k e kq = runs_out

module _ {W A : Type 0} {P : A → Type 0} where
  pub Ensures-if :
      (b : Bool) (m n : Cmd W A) (h : Host W)
      → (b ≡ true → Ensures P (m h))
      → (b ≡ false → Ensures P (n h))
      → Ensures P ((if b then m else n) h)
  Ensures-if true m n h mp np = mp refl
  Ensures-if false m n h mp np = np refl

  -- A value that must be there.
  pub Ensures-need :
      (f : Fault) (a : Option A) (h : Host W)
      → ((x : A) → a ≡ some x → P x)
      → Ensures P (need f a h)
  Ensures-need f none h p = faults f
  Ensures-need f (some x) h p = returns x h (p x refl)

module _ {W A B : Type 0} {Q : B → Type 0} where
  -- A first part of which nothing is used.
  pub Ensures-next :
      (r : Run W A) (k : A → Cmd W B)
      → ((a : A) (h : Host W) → Ensures Q (k a h))
      → Ensures Q (and_then r k)
  Ensures-next r k kq = Ensures-then r k (Ensures-any r) (λ a h _. kq a h)

pub ruleset ensures_rules = (Ensures-next, Ensures-if, returns)

-- What is ensured of a run holds of the value that it returns.
pub Ensures-ok :
    {W A : Type 0} (P : A → Type 0) (r : Run W A) (a : A) (h : Host W)
    → Ensures P r
    → r ≡ ok a h
    → P a
Ensures-ok P (ok b g) a h (returns _ _ p) e = let q : b ≡ a = cc in subst P q p
Ensures-ok P (fault f) a h p e = absurd (cc)
Ensures-ok P blocked a h p e = absurd (cc)
Ensures-ok P out_of_fuel a h p e = absurd (cc)
