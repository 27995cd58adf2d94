-- ===== src/Libc/Time/Clock.antt =====
-- libc/src/time/time.c and localtime.c: what the one packs, the other unpacks.
use oslab2_virtualfs.Base.{
  ℕ, ◌+◌, ◌-◌, ◌*◌, ◌/◌, ◌%◌, ◌^◌, ◌≤◌, ◌<◌, ◌≡◌, refl, ◌∙◌, bit_and, leb, if◌then◌else◌, ◌&&◌,
  some, get_or, get_elem?-eq-get_or, ok, ◌>>=◌, pos, sub_ℕ, arith,
}
use oslab2_virtualfs.Base.Bits.{bit_and_mask}
use oslab2_virtualfs.Base.Ors.{bit_or_field}
use oslab2_virtualfs.Libc.Time.Calendar.{weekday, get_wday-weekday}
use oslab2_virtualfs.Libc.Time.{
  RtcReg, Tm, packed, time, localtime, get_wday, get_yday, month_offsets, is_leap,
}

-- A date and a time of day as the timer gives them.
pub record IsDate (r : RtcReg) : Type 0 where
  pub month_from : 1 ≤ r.month
  pub month_to : r.month ≤ 12
  pub day : r.day < 32
  pub hour : r.hour < 32
  pub minute : r.minute < 64
  pub second : r.second < 64

packed_lem :
    (r : RtcReg)
    → IsDate r
    → packed r
      ≡ ((((r.year * 16 + r.month) * 32 + r.day) * 32 + r.hour) * 64 + r.minute) * 64 + r.second
unfolding packed
packed_lem r v =
    rw
      (
        bit_or_field 4 r.year r.month (omega (arith, v.month_to)),
        bit_or_field 5 (r.year * 2 ^ 4 + r.month) r.day v.day,
        bit_or_field 5 ((r.year * 2 ^ 4 + r.month) * 2 ^ 5 + r.day) r.hour v.hour,
        bit_or_field 6 (((r.year * 2 ^ 4 + r.month) * 2 ^ 5 + r.day) * 2 ^ 5 + r.hour) r.minute
            v.minute,
        bit_or_field 6
            ((((r.year * 2 ^ 4 + r.month) * 2 ^ 5 + r.day) * 2 ^ 5 + r.hour) * 2 ^ 6 + r.minute)
            r.second v.second,
      )
      refl

month_pred : (m : ℕ) → 1 ≤ m → sub_ℕ m 1 ≡ pos (m - 1)
month_pred m from = ground (arith, from)

-- The table of `get_yday` has every month.
yday_defined : (year m day : ℕ) → 1 ≤ m → m ≤ 12 → (n : ℕ) × (get_yday year (sub_ℕ m 1) day ≡ ok n)
unfolding get_yday
yday_defined year m day from to =
    let off = get_or month_offsets (m - 1) 0 in
    (
      if leb 2 (m - 1) && is_leap year then off + day + 1 else off + day,
      rw (month_pred m from, get_elem?-eq-get_or month_offsets (m - 1) 0 (omega arith)) refl,
    )

-- The fields of the calendar that `time` packs.
abbrev pub Same : RtcReg → Tm → Type 0
Same r tm =
    (tm.tm_sec ≡ r.second)
    × (tm.tm_min ≡ r.minute)
    × (tm.tm_hour ≡ r.hour)
    × (tm.tm_mday ≡ r.day)
    × (tm.tm_mon ≡ pos (r.month - 1))
    × (tm.tm_year ≡ sub_ℕ r.year 1900)
    × (get_wday r.year r.month r.day ≡ ok tm.tm_wday)

masked : (k v x : ℕ) → v % 2 ^ k ≡ x → bit_and v (2 ^ k - 1) ≡ x
masked k v x e = bit_and_mask k v ∙ e

tm_of : ℕ → ℕ → ℕ → ℕ → ℕ → ℕ → ℕ → ℕ → Tm
tm_of year month day hour minute second wday yday = record {
  tm_sec = second;
  tm_min = minute;
  tm_hour = hour;
  tm_mday = day;
  tm_mon = sub_ℕ month 1;
  tm_year = sub_ℕ year 1900;
  tm_wday = wday;
  tm_yday = yday;
}

-- `localtime` of a value whose fields of bits are known.
localtime_fields :
    (val0 year month day hour minute second wday yday : ℕ)
    → bit_and val0 (2 ^ 6 - 1) ≡ second
    → bit_and (val0 / 2 ^ 6) (2 ^ 6 - 1) ≡ minute
    → bit_and (val0 / 2 ^ 6 / 2 ^ 6) (2 ^ 5 - 1) ≡ hour
    → bit_and (val0 / 2 ^ 6 / 2 ^ 6 / 2 ^ 5) (2 ^ 5 - 1) ≡ day
    → bit_and (val0 / 2 ^ 6 / 2 ^ 6 / 2 ^ 5 / 2 ^ 5) (2 ^ 4 - 1) ≡ month
    → val0 / 2 ^ 6 / 2 ^ 6 / 2 ^ 5 / 2 ^ 5 / 2 ^ 4 ≡ year
    → get_wday year month day ≡ ok wday
    → get_yday year (sub_ℕ month 1) day ≡ ok yday
    → localtime val0 ≡ ok (tm_of year month day hour minute second wday yday)
unfolding localtime tm_of
localtime_fields val0 year month day hour minute second wday yday s m h d mo y weekday table =
    rw (weekday_shown, ◌>>=◌, shown, ◌>>=◌, s, m, h, d, mo, y) refl
  where
    shown :
        get_yday
          (val0 / 2 ^ 6 / 2 ^ 6 / 2 ^ 5 / 2 ^ 5 / 2 ^ 4)
          (sub_ℕ (bit_and (val0 / 2 ^ 6 / 2 ^ 6 / 2 ^ 5 / 2 ^ 5) (2 ^ 4 - 1)) 1)
          (bit_and (val0 / 2 ^ 6 / 2 ^ 6 / 2 ^ 5) (2 ^ 5 - 1))
        ≡ ok yday
    shown = rw (mo, d, y) table

    weekday_shown :
        get_wday
          (val0 / 2 ^ 6 / 2 ^ 6 / 2 ^ 5 / 2 ^ 5 / 2 ^ 4)
          (bit_and (val0 / 2 ^ 6 / 2 ^ 6 / 2 ^ 5 / 2 ^ 5) (2 ^ 4 - 1))
          (bit_and (val0 / 2 ^ 6 / 2 ^ 6 / 2 ^ 5) (2 ^ 5 - 1))
        ≡ ok wday
    weekday_shown = rw (mo, d, y) weekday

-- In a year up to 1700000000 `localtime` gives back the date and the time of day that the timer gave to `time`.
pub localtime-time :
    (r : RtcReg)
    → IsDate r
    → r.year ≤ 1700000000
    → (t : ℕ) × (tm : Tm) × (time (some r) ≡ pos t) × (localtime t ≡ ok tm) × Same r tm
unfolding time tm_of
localtime-time r v small =
    let (yday, table) = yday_defined r.year r.month r.day v.month_from v.month_to in
    let e = packed_lem r v in
    let w = get_wday-weekday r.year r.month r.day (omega (arith, small)) in
    (
      packed r,
      tm_of r.year r.month r.day r.hour r.minute r.second (weekday r.year r.month r.day) yday,
      refl,
      localtime_fields (packed r) r.year r.month r.day r.hour r.minute r.second
          (weekday r.year r.month r.day) yday (masked 6 _ _ (omega (arith, e, v.second)))
          (masked 6 _ _ (omega (arith, e, v.second, v.minute)))
          (masked 5 _ _ (omega (arith, e, v.second, v.minute, v.hour)))
          (masked 5 _ _ (omega (arith, e, v.second, v.minute, v.hour, v.day)))
          (masked 4 _ _ (omega (arith, e, v.second, v.minute, v.hour, v.day, v.month_to)))
          (omega (arith, e, v.second, v.minute, v.hour, v.day, v.month_to)) w table,
      (refl, refl, refl, refl, month_pred r.month v.month_from, refl, w),
    )
