-- ===== src/Libc/Time.antt =====
-- libc/src/time: the clock that the timer gives, packed into a time_t, and the calendar.
use oslab2_virtualfs.Base.{
  ℕ, ◌+◌, ◌-◌, ◌*◌, ◌/◌, ◌%◌, ◌^◌, bit_and, bit_or, Bool, true, false, not, ◌&&◌, ◌||◌, List, [],
  ◌∷◌, ◌++◌, Option, none, some, ◌==◌, leb, ltb, if◌then◌else◌, get_elem?, replicate, Outcome, ok,
  undefined, ◌>>=◌, defined, ℤ, pos, negsuc, minus_one, sub_ℕ,
}
use oslab2_virtualfs.Libc.Printf.Format.Dates.{date_format}
use oslab2_virtualfs.Libc.Printf.Format.{Arg, int, str, sprintf}
pub mod Clock
pub mod Calendar
pub mod Ctime
mod Tests

-- `_RTCReg`, whose numbers are at least 0.
pub record RtcReg : Type 0 where
  pub year : ℕ
  pub month : ℕ
  pub day : ℕ
  pub hour : ℕ
  pub minute : ℕ
  pub second : ℕ

-- `res << k | field`
abbrev pub push : ℕ → ℕ → ℕ → ℕ
push res k field = bit_or (res * 2 ^ k) field

-- The packing in `time`.
pub packed : RtcReg → ℕ
packed r = push (push (push (push (push r.year 4 r.month) 5 r.day) 5 r.hour) 6 r.minute) 6 r.second

-- `time`, with what the timer's register gives, or `none` where `initialize` has found no timer.
pub time : Option RtcReg → ℤ
unfolding packed
time none = minus_one
time (some r) = pos (packed r)

-- `clock`, with the halves of the uptime.
pub clock : Option (ℕ × ℕ) → ℤ
clock none = minus_one
clock (some (hi, lo)) = pos (push hi 32 lo)

-- `struct tm` without tm_isdst, which is -1.
pub record Tm : Type 0 where
  pub tm_sec : ℕ
  pub tm_min : ℕ
  pub tm_hour : ℕ
  pub tm_mday : ℕ
  pub tm_mon : ℤ
  pub tm_year : ℤ
  pub tm_wday : ℕ
  pub tm_yday : ℕ

-- The end of `get_wday`, for a `month` from 3 to 14 and a `year` from -1 on: `totday`, modulo 7. It is undefined
-- where `year + year / 4`, the largest value on the way, is not an int.
abbrev pub wday_of : ℤ → ℕ → ℕ → Outcome ℕ
wday_of (pos year) month day =
    if ltb (year + year / 4) (2 ^ 31)
    then ok (
        (1 + day + 2 * month + 3 * (month + 1) / 5 + (year + year / 4 - year / 100 + year / 400))
        % 7)
    else undefined
wday_of (negsuc year) month day = ok ((1 + day + 2 * month + 3 * (month + 1) / 5 - 1) % 7)

-- `get_wday`, where a year that is not an int is undefined, too; `month` is what `month++` leaves in it.
pub get_wday : ℕ → ℕ → ℕ → Outcome ℕ
get_wday year month day =
    if leb month 2 then wday_of (sub_ℕ year 1) (month + 12) day else wday_of (pos year) month day

abbrev pub is_leap : ℕ → Bool
is_leap year = year % 4 == 0 && (not (year % 100 == 0) || year % 400 == 0)

-- `off`
abbrev pub month_offsets : List ℕ
month_offsets = 0 ∷ 31 ∷ 59 ∷ 90 ∷ 120 ∷ 151 ∷ 181 ∷ 212 ∷ 243 ∷ 273 ∷ 304 ∷ 334 ∷ []

-- `get_yday`, where a month outside the table is undefined.
pub get_yday : ℕ → ℤ → ℕ → Outcome ℕ
get_yday year (negsuc month) day = undefined
get_yday year (pos month) day = do
  off ← defined (get_elem? month_offsets month)
  ok (if leb 2 month && is_leap year then off + day + 1 else off + day)

-- `localtime`, for a time that is at least 0.
pub localtime : ℕ → Outcome Tm
unfolding get_wday get_yday
localtime val0 = do
  let val1 = val0 / 2 ^ 6
  let val2 = val1 / 2 ^ 6
  let val3 = val2 / 2 ^ 5
  let val4 = val3 / 2 ^ 5
  let month = bit_and val4 (2 ^ 4 - 1)
  let mday = bit_and val3 (2 ^ 5 - 1)
  let year = val4 / 2 ^ 4
  wday ← get_wday year month mday
  yday ← get_yday year (sub_ℕ month 1) mday
  ok (record {
    tm_sec = bit_and val0 (2 ^ 6 - 1);
    tm_min = bit_and val1 (2 ^ 6 - 1);
    tm_hour = bit_and val2 (2 ^ 5 - 1);
    tm_mday = mday;
    tm_mon = sub_ℕ month 1;
    tm_year = sub_ℕ year 1900;
    tm_wday = wday;
    tm_yday = yday;
  })

-- `wday_name` and `mon_name`
abbrev pub wday_name : List (List ℕ)
wday_name =
    (b'S' ∷ b'u' ∷ b'n' ∷ 0 ∷ [])
    ∷ (b'M' ∷ b'o' ∷ b'n' ∷ 0 ∷ [])
    ∷ (b'T' ∷ b'u' ∷ b'e' ∷ 0 ∷ [])
    ∷ (b'W' ∷ b'e' ∷ b'd' ∷ 0 ∷ [])
    ∷ (b'T' ∷ b'h' ∷ b'u' ∷ 0 ∷ [])
    ∷ (b'F' ∷ b'r' ∷ b'i' ∷ 0 ∷ [])
    ∷ (b'S' ∷ b'a' ∷ b't' ∷ 0 ∷ [])
    ∷ []

abbrev pub mon_name : List (List ℕ)
mon_name =
    (b'J' ∷ b'a' ∷ b'n' ∷ 0 ∷ [])
    ∷ (b'F' ∷ b'e' ∷ b'b' ∷ 0 ∷ [])
    ∷ (b'M' ∷ b'a' ∷ b'r' ∷ 0 ∷ [])
    ∷ (b'A' ∷ b'p' ∷ b'r' ∷ 0 ∷ [])
    ∷ (b'M' ∷ b'a' ∷ b'y' ∷ 0 ∷ [])
    ∷ (b'J' ∷ b'u' ∷ b'n' ∷ 0 ∷ [])
    ∷ (b'J' ∷ b'u' ∷ b'l' ∷ 0 ∷ [])
    ∷ (b'A' ∷ b'u' ∷ b'g' ∷ 0 ∷ [])
    ∷ (b'S' ∷ b'e' ∷ b'p' ∷ 0 ∷ [])
    ∷ (b'O' ∷ b'c' ∷ b't' ∷ 0 ∷ [])
    ∷ (b'N' ∷ b'o' ∷ b'v' ∷ 0 ∷ [])
    ∷ (b'D' ∷ b'e' ∷ b'c' ∷ 0 ∷ [])
    ∷ []

-- `mon_name[time_ptr->tm_mon]`
abbrev pub month_name : ℤ → Outcome (List ℕ)
month_name (pos month) = defined (get_elem? mon_name month)
month_name (negsuc month) = undefined

-- `1900 + time_ptr->tm_year`
abbrev pub full_year : ℤ → ℤ
full_year (pos year) = pos (1900 + year)
full_year (negsuc year) = sub_ℕ 1900 (year + 1)

-- `asctime` into the 32 bytes of `result`; "%.3s %.3s%3d %.2d:%.2d:%.2d %d\n" is its format.
pub asctime : List ℕ → Tm → Outcome (List ℕ)
asctime result tm = do
  wday ← defined (get_elem? wday_name tm.tm_wday)
  mon ← month_name tm.tm_mon
  let args =
      str wday
      ∷ str mon
      ∷ int (pos tm.tm_mday)
      ∷ int (pos tm.tm_hour)
      ∷ int (pos tm.tm_min)
      ∷ int (pos tm.tm_sec)
      ∷ int (full_year tm.tm_year)
      ∷ []
  (n, filled) ← sprintf result date_format args
  ok filled

-- `ctime`
pub ctime : List ℕ → ℕ → Outcome (List ℕ)
unfolding localtime asctime
ctime result time = localtime time >>= asctime result
