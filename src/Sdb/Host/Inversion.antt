-- ===== src/Sdb/Host/Inversion.antt =====
-- A command that returns has returned from its first part.
use advanced_unix_progr.Base.{◌≡◌, refl}
use advanced_unix_progr.Sdb.Host.{Host, Run, ok, fault, blocked, out_of_fuel, and_then, Cmd}

pub and_then-eq-ok :
    {W A B : Type 0} (r : Run W A) (k : A → Cmd W B) {b : B} {h' : Host W}
    → and_then r k ≡ ok b h'
    → (a : A) × (h : Host W) × (r ≡ ok a h) × (k a h ≡ ok b h')
and_then-eq-ok (ok a h) k e = (a, h, refl, e)
and_then-eq-ok (fault f) k e = cc
and_then-eq-ok blocked k e = cc
and_then-eq-ok out_of_fuel k e = cc
