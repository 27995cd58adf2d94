-- ===== src/Libc/Time/Calendar.antt =====
-- libc/src/time/localtime.c: the day of the week and of the year, from one day to the next.
use oslab2_virtualfs.Base.{
  ℕ, zero, suc, ◌+◌, ◌-◌, ◌*◌, ◌^◌, ◌/◌, ◌%◌, ◌≤◌, ◌<◌, ◌≡◌, refl, ◌⊎◌, inl, inr, Bool, true, false,
  ◌==◌, leb, ltb, lt→ltb, ap, ◌∙◌, ok, ℤ, pos, negsuc, sub_ℕ, if◌then◌else◌, Bool-cases, ltb→lt,
  ltb_false→le, arith,
}
use mathlib.Core.Path.{subst}
use oslab2_virtualfs.Libc.Time.{get_wday, wday_of, is_leap}

-- The days of a month from 1 to 12.
abbrev pub days_in : ℕ → ℕ → ℕ
days_in year month =
    if month == 2
    then (if is_leap year then 29 else 28)
    else if month == 4
    then 30
    else if month == 6
    then 30
    else if month == 9
    then 30
    else if month == 11
    then 30
    else 31

-- The day after a date.
abbrev pub next_day : ℕ → ℕ → ℕ → ℕ × ℕ × ℕ
next_day year month day =
    if ltb day (days_in year month)
    then (year, month, day + 1)
    else if ltb month 12
    then (year, month + 1, 1)
    else (year + 1, 1, 1)

-- The weekday of a date by the formula of `get_wday`, in numbers without a bound.
weekday_of : ℤ → ℕ → ℕ → ℕ
weekday_of (pos year) month day =
    (1 + day + 2 * month + 3 * (month + 1) / 5 + (year + year / 4 - year / 100 + year / 400)) % 7
weekday_of (negsuc year) month day = (1 + day + 2 * month + 3 * (month + 1) / 5 - 1) % 7

pub weekday : ℕ → ℕ → ℕ → ℕ
unfolding weekday_of
weekday year month day =
    if leb month 2
    then weekday_of (sub_ℕ year 1) (month + 12) day
    else weekday_of (pos year) month day

pub weekday_bound : (year month day : ℕ) → weekday year month day < 7
unfolding weekday_of weekday
weekday_bound year month day = ground arith

wday_of-weekday_of :
    (year : ℤ) (month day : ℕ)
    → ((n : ℕ) → year ≡ pos n → n ≤ 1700000001)
    → wday_of year month day ≡ ok (weekday_of year month day)
unfolding weekday_of
wday_of-weekday_of (pos year) month day small =
    let le = small year refl in rw (lt→ltb (year + year / 4) (2 ^ 31) (omega (arith, le))) refl
wday_of-weekday_of (negsuc year) month day small = refl

-- There `get_wday` does not overflow.
pub get_wday-weekday :
    (year month day : ℕ) → year ≤ 1700000001 → get_wday year month day ≡ ok (weekday year month day)
unfolding get_wday weekday
get_wday-weekday year month day small = elim (Bool-cases (leb month 2)) [
  | inl early ↦
      rw (get_wday, weekday, early)
        (wday_of-weekday_of (sub_ℕ year 1) (month + 12) day (λ n e. ground (arith, e, small)))
  | inr late ↦
      rw (get_wday, weekday, late)
        (wday_of-weekday_of (pos year) month day (λ n e. le n (pos_injective e)))
]
  where
    pos_injective : {a b : ℕ} → pos a ≡ pos b → a ≡ b
    pos_injective q = cc

    le : (n : ℕ) → year ≡ n → n ≤ 1700000001
    le n e = omega (arith, e, small)

-- How the terms of the year grow.
abbrev year_terms : ℕ → ℕ
year_terms year = year + year / 4 - year / 100 + year / 400

leap_step :
    (year : ℕ) → year_terms (year + 1) ≡ year_terms year + (if is_leap (year + 1) then 2 else 1)
leap_step year = ground arith

-- The weekday of a day by the terms of its year.
wday_late :
    (year month day : ℕ)
    → 3 ≤ month
    → weekday year month day ≡ (1 + day + 2 * month + 3 * (month + 1) / 5 + year_terms year) % 7
unfolding weekday_of weekday
wday_late year month day late = ground (arith, late)

wday_early :
    (year month day : ℕ)
    → month ≤ 2
    → weekday (year + 1) month day
      ≡ (1 + day + 2 * (month + 12) + 3 * (month + 13) / 5 + year_terms year) % 7
unfolding weekday_of weekday
wday_early year month day early = ground (arith, early)

-- From the last day of a month to the first of the next there are four weeks more than the formula says.
month_terms :
    (year month : ℕ)
    → 3 ≤ month
    → month ≤ 11
    → 1 + days_in year month + 2 * month + 3 * (month + 1) / 5 + 1
      ≡ 1 + 1 + 2 * (month + 1) + 3 * (month + 1 + 1) / 5 + 28
month_terms year month from to = ground (arith, from, to)

next_in_month :
    (year month day : ℕ)
    → weekday (year + 1) month (day + 1) ≡ (weekday (year + 1) month day + 1) % 7
next_in_month year month day = elim (lt_or_le month 3) [
  | inl early ↦ omega (
    arith,
    wday_early year month day (omega (arith, early)),
    wday_early year month (day + 1) (omega (arith, early)),
  )
  | inr late ↦
      omega (arith, wday_late (year + 1) month day late, wday_late (year + 1) month (day + 1) late)
]
  where
    lt_or_le : (a b : ℕ) → (a < b) ⊎ (b ≤ a)
    lt_or_le a b = ground arith

next_month :
    (year month : ℕ)
    → 1 ≤ month
    → month ≤ 11
    → weekday (year + 1) (month + 1) 1
      ≡ (weekday (year + 1) month (days_in (year + 1) month) + 1) % 7
next_month year zero from to = absurd (omega arith)
next_month year (suc zero) from to =
    omega (arith, wday_early year 1 31 (omega arith), wday_early year 2 1 (omega arith))
next_month year (suc (suc zero)) from to = omega (
  arith,
  wday_early year 2 (days_in (year + 1) 2) (omega arith),
  wday_late (year + 1) 3 1 (omega arith),
  leap_step year,
  february (is_leap (year + 1)),
)
  where
    february : (leap : Bool) → (if leap then 29 else 28) ≡ (if leap then 2 else 1) + 27
    february true = refl
    february false = refl
next_month year (suc (suc (suc m))) from to = omega (
  arith,
  wday_late (year + 1) (suc (suc (suc m))) (days_in (year + 1) (suc (suc (suc m)))) (omega arith),
  wday_late (year + 1) (suc (suc (suc m)) + 1) 1 (omega arith),
  month_terms (year + 1) (suc (suc (suc m))) (omega arith) (omega arith),
)

next_year : (year : ℕ) → weekday (year + 1 + 1) 1 1 ≡ (weekday (year + 1) 12 31 + 1) % 7
next_year year =
    omega (arith, wday_late (year + 1) 12 31 (omega arith), wday_early (year + 1) 1 1 (omega arith))

from_one : (P : ℕ → Type 0) → ((y : ℕ) → P (y + 1)) → (year : ℕ) → 1 ≤ year → P year
from_one P holds year one = subst P (omega arith) (holds (year - 1))

day_end :
    (year month day : ℕ)
    → 1 ≤ year
    → weekday year month (day + 1) ≡ (weekday year month day + 1) % 7
day_end year month day =
    from_one (λ y. weekday y month (day + 1) ≡ (weekday y month day + 1) % 7)
      (λ y. next_in_month y month day) year

month_end :
    (year month : ℕ)
    → 1 ≤ year
    → 1 ≤ month
    → month ≤ 11
    → weekday year (month + 1) 1 ≡ (weekday year month (days_in year month) + 1) % 7
month_end year month one from to =
    from_one (λ y. weekday y (month + 1) 1 ≡ (weekday y month (days_in y month) + 1) % 7)
      (λ y. next_month y month from to) year one

year_end : (year : ℕ) → 1 ≤ year → weekday (year + 1) 1 1 ≡ (weekday year 12 31 + 1) % 7
year_end = from_one (λ y. weekday (y + 1) 1 1 ≡ (weekday y 12 31 + 1) % 7) next_year

weekday_step :
    (year month day : ℕ)
    → 1 ≤ year
    → 1 ≤ month
    → month ≤ 12
    → day ≤ days_in year month
    → let (y, m, d) = next_day year month day in weekday y m d ≡ (weekday year month day + 1) % 7
weekday_step year month day y1 m1 m12 dn = elim (Bool-cases (ltb day (days_in year month))) [
  | inl within ↦ rw within (day_end year month day y1)
  | inr last ↦ elim (Bool-cases (ltb month 12)) [
    | inl inside ↦
        rw (last, inside, last_day last)
          (month_end year month y1 m1 (omega (arith, ltb→lt month 12 inside)))
    | inr december ↦
        let december_now : month ≡ 12 = omega (arith, ltb_false→le month 12 december) in
        let whole : days_in year month ≡ 31 = rw december_now refl in
        rw (last, december, last_day last, whole, december_now) (year_end year y1)
  ]
]
  where
    last_day : ltb day (days_in year month) ≡ false → day ≡ days_in year month
    last_day last = omega (arith, ltb_false→le day (days_in year month) last, dn)

-- From year 1 to year 1700000000 `get_wday` is defined, and gives for the next day the weekday after that
-- of a day, over the ends of months and years, leap years included.
pub next_wday :
    (year month day : ℕ)
    → 1 ≤ year
    → year ≤ 1700000000
    → 1 ≤ month
    → month ≤ 12
    → day ≤ days_in year month
    → let (y, m, d) = next_day year month day in
      (w : ℕ) × (get_wday year month day ≡ ok w) × (get_wday y m d ≡ ok ((w + 1) % 7))
next_wday year month day y1 small m1 m12 dn =
    let (y, m, d) = next_day year month day in
    (
      weekday year month day,
      get_wday-weekday year month day (omega (arith, small)),
      get_wday-weekday y m d (next_year_bound (ltb day (days_in year month)) (ltb month 12))
          ∙ ap ok (weekday_step year month day y1 m1 m12 dn),
    )
  where
    chosen : Bool → Bool → ℕ × ℕ × ℕ
    chosen within inside =
        if within
        then (year, month, day + 1)
        else if inside
        then (year, month + 1, 1)
        else (year + 1, 1, 1)

    next_year_bound : (within inside : Bool) → (chosen within inside).0 ≤ 1700000001
    next_year_bound true inside = omega (arith, small)
    next_year_bound false true = omega (arith, small)
    next_year_bound false false = omega (arith, small)
