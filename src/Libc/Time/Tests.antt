-- ===== src/Libc/Time/Tests.antt =====
-- libc/src/time on concrete dates.
use oslab2_virtualfs.Base.{ℕ, List, replicate, length, ◌+◌, ◌%◌, ◌≡◌, refl, arith, some, ok, pos}
use oslab2_virtualfs.Libc.Time.{RtcReg, Tm, time, localtime, ctime, get_wday}
use oslab2_virtualfs.Libc.Time.Clock.{IsDate, Same, localtime-time}
use oslab2_virtualfs.Libc.Time.Ctime.{ctime-time}
use oslab2_virtualfs.Libc.Time.Calendar.{next_wday}

abbrev evening : RtcReg
evening = record { year = 2018; month = 6; day = 3; hour = 21; minute = 40; second = 59 }

evening-IsDate : IsDate evening
evening-IsDate = record {
  month_from = omega arith;
  month_to = omega arith;
  day = omega arith;
  hour = omega arith;
  minute = omega arith;
  second = omega arith;
}

localtime-time_example :
    (t : ℕ) × (tm : Tm) × (time (some evening) ≡ pos t) × (localtime t ≡ ok tm) × Same evening tm
localtime-time_example = localtime-time evening evening-IsDate (omega arith)

-- The third of June 2018 was a Sunday.
sunday : get_wday 2018 6 3 ≡ ok 0
unfolding get_wday
sunday = refl

next_wday_example : (w : ℕ) × (get_wday 2000 2 28 ≡ ok w) × (get_wday 2000 2 29 ≡ ok ((w + 1) % 7))
next_wday_example =
    next_wday 2000 2 28 (omega arith) (omega arith) (omega arith) (omega arith) (omega arith)

ctime-time_example :
    (t : ℕ) × (filled : List ℕ) × (time (some evening) ≡ pos t)
    × (ctime (replicate 32 0) t ≡ ok filled)
    × (length filled ≡ 32)
ctime-time_example = ctime-time (replicate 32 0) evening refl evening-IsDate (omega arith)
