-- ===== src/Common/Dates.antt =====
-- `Date.prototype.toISOString`: a count of milliseconds since 1970 as a text, in the proleptic
-- Gregorian calendar; dates before 1970 are not modelled.
use Prim.Native.Nat.{ℕ, zero, suc, ◌+◌, ◌-◌, ◌*◌, ◌/◌, ◌%◌}
use mathlib.Core.List.{[], ◌∷◌, ◌++◌}
use mathlib.Core.Path.{◌≡◌, refl}
use webhook_idp.Common.Tests.{ltb, leb, if◌then◌else◌}
use webhook_idp.Common.Text.{Text, txt}

-- The last `width` decimal digits.
padded : ℕ → ℕ → Text
padded zero n = []
padded (suc width) n = padded width (n / 10) ++ (n % 10 + b'0') ∷ []

record Day : Type 0 where
  year : ℕ
  month : ℕ
  day : ℕ

-- The day that lies `days` days after 1 January 1970. Years begin in March here, and come in eras of
-- 400.
day_of : ℕ → Day
day_of days =
    let z = days + 719468 in
    let doe = z % 146097 in
    let yoe = (doe - doe / 1460 + doe / 36524 - doe / 146096) / 365 in
    let doy = doe - (365 * yoe + yoe / 4 - yoe / 100) in
    let mp = (5 * doy + 2) / 153 in
    let month = if ltb mp 10 then mp + 3 else mp - 9 in
    record {
      year = yoe + z / 146097 * 400 + (if leb month 2 then 1 else 0);
      month = month;
      day = doy - (153 * mp + 2) / 5 + 1;
    }

-- From the year 10000 on the year has a sign and six digits.
year_text : ℕ → Text
unfolding padded txt
year_text year = if ltb year 10000 then padded 4 year else b'+' ∷ padded 6 year

unfoldable pub to_iso_string : ℕ → Text
unfolding padded day_of year_text txt
to_iso_string ms =
    let d = day_of (ms / 86400000) in
    let t = ms % 86400000 in
    year_text d.year
    ++ (b'-' ∷ padded 2 d.month
        ++ (b'-' ∷ padded 2 d.day
            ++ (b'T' ∷ padded 2 (t / 3600000)
                ++ (b':' ∷ padded 2 (t / 60000 % 60)
                    ++ (b':' ∷ padded 2 (t / 1000 % 60)
                        ++ (b'.' ∷ padded 3 (t % 1000) ++ txt "Z"))))))

leap_day : to_iso_string 1709251199999 ≡ txt "2024-02-29T23:59:59.999Z"
unfolding to_iso_string
leap_day = refl

first_day : to_iso_string 0 ≡ txt "1970-01-01T00:00:00.000Z"
unfolding to_iso_string
first_day = refl

new_year : to_iso_string 1767225600000 ≡ txt "2026-01-01T00:00:00.000Z"
unfolding to_iso_string
new_year = refl
