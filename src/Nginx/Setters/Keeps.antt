-- ===== src/Nginx/Setters/Keeps.antt =====
-- The setters of numbers keep a configuration valid.
use go_mesi.Base.{ℕ, ◌≤◌, refl, Bytes, none, Option, some, ◌≡◌, sym}
use mathlib.Core.Path.{subst}
use go_mesi.Nginx.Config.{LocConf, Refusal}
use go_mesi.Nginx.Config.Valid.{IsValid}
use go_mesi.Nginx.Setters.{
  Numeric, mesi_max_depth, mesi_timeout, mesi_max_response_size, mesi_max_body_size,
  mesi_max_concurrent_requests, mesi_max_workers, set_number,
}
use go_mesi.Apache.Number.Numeral.{value}
use go_mesi.Nginx.Setters.Ranges.{with_field, lowest, highest}
use go_mesi.Nginx.Setters.Exact.{set_number-Accepts, set_number-Reason}

with_field-IsValid :
    (d : Numeric) (lcf : LocConf) (v : ℕ)
    → IsValid lcf
    → lowest d ≤ v
    → v ≤ highest d
    → IsValid (with_field d lcf v)
unfolding with_field
with_field-IsValid mesi_max_depth lcf v h lo hi = assumption (h, lo, hi)
with_field-IsValid mesi_timeout lcf v h lo hi = assumption (h, lo, hi)
with_field-IsValid mesi_max_response_size lcf v h lo hi = assumption (h, lo, hi)
with_field-IsValid mesi_max_body_size lcf v h lo hi = assumption (h, lo, hi)
with_field-IsValid mesi_max_concurrent_requests lcf v h lo hi = assumption (h, lo, hi)
with_field-IsValid mesi_max_workers lcf v h lo hi = assumption (h, lo, hi)

-- A directive for a number, accepted or refused, leaves every number in its range or unset.
pub set_number-IsValid :
    (d : Numeric) (lcf : LocConf) (s : Bytes) → IsValid lcf → IsValid (set_number d lcf s).0
set_number-IsValid d lcf s h = outcome (set_number d lcf s).0 (set_number d lcf s).1 refl
  where
    outcome : (c : LocConf) (o : Option Refusal) → set_number d lcf s ≡ (c, o) → IsValid c
    outcome c none e =
        let a = (set_number-Accepts d lcf s c).0 e in
        subst IsValid (sym a.stored) (with_field-IsValid d lcf (value 0 s) h a.lower a.upper)
    outcome c (some why) e = subst IsValid (sym (set_number-Reason d lcf s c why e).0) h
