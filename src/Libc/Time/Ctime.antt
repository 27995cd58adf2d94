-- ===== src/Libc/Time/Ctime.antt =====
-- libc/src/time/asctime.c: the text of a date fits the buffer.
use oslab2_virtualfs.Base.{
  ℕ, zero, suc, ◌-◌, ◌^◌, ◌≤◌, ◌<◌, ◌≡◌, refl, sym, ap, ◌∙◌, List, [], ◌∷◌, ◌++◌, some, length,
  drop, length-append, length-drop, get_elem?, ok, ok_injective, ◌>>=◌, pos, sub_ℕ, arith,
}
use mathlib.Core.Path.{subst}
use oslab2_virtualfs.Libc.Printf.Format.{sprintf}
use oslab2_virtualfs.Libc.Printf.Format.Dates.{date_run, IsName, IsShort, short-IsName}
use oslab2_virtualfs.Libc.Printf.Format.Sprintf.{put_bytes_lem}
use oslab2_virtualfs.Libc.Time.{RtcReg, Tm, time, wday_name, mon_name, full_year, asctime, ctime}
use oslab2_virtualfs.Libc.Time.Calendar.{weekday_bound, get_wday-weekday}
use oslab2_virtualfs.Libc.Time.Clock.{IsDate, localtime-time}

abbrev AreShort : List (List ℕ) → Type 0
AreShort [] = Unit {0}
AreShort (s ∷ names) = IsShort s × AreShort names

days-AreShort : AreShort wday_name
days-AreShort = ground arith

months-AreShort : AreShort mon_name
months-AreShort = ground arith

-- An entry of a table is printed as three characters.
entry-IsName :
    (names : List (List ℕ)) (i : ℕ)
    → AreShort names
    → i < length names
    → (s : List ℕ) × (get_elem? names i ≡ some s) × IsName s
entry-IsName [] i short less = absurd (omega arith)
entry-IsName (s ∷ names) zero short less = (s, refl, short-IsName s short.0)
entry-IsName (s ∷ names) (suc i) short less = entry-IsName names i short.1 (omega arith)

year_back : (year : ℕ) → full_year (sub_ℕ year 1900) ≡ pos year
year_back year = ground arith

-- `asctime` of a date writes within the 32 bytes of its buffer.
asctime_lem :
    (result : List ℕ) (tm : Tm) (month year : ℕ)
    → length result ≡ 32
    → tm.tm_wday < 7
    → tm.tm_mon ≡ pos month
    → month < 12
    → full_year tm.tm_year ≡ pos year
    → year < 2 ^ 31
    → tm.tm_mday < 32
    → tm.tm_hour < 32
    → tm.tm_min < 64
    → tm.tm_sec < 64
    → (filled : List ℕ) × (asctime result tm ≡ ok filled) × (length filled ≡ 32)
unfolding asctime sprintf
asctime_lem result tm month year size wd mon m12 fy y31 md hr mi se =
    let (ws, wat, wname) = entry-IsName wday_name tm.tm_wday days-AreShort wd in
    let (ms, mat, mname) = entry-IsName mon_name month months-AreShort m12 in
    let (p, runs, short) =
      date_run ws ms tm.tm_mday tm.tm_hour tm.tm_min tm.tm_sec year wname mname (omega (arith, md))
        (omega (arith, hr)) (omega (arith, mi)) (omega (arith, se)) y31 in
    let text = p.output ++ (0 ∷ []) in
    let room : length text ≤ length result =
      omega (arith, length-append p.output (0 ∷ []), short, size) in
    (
      text ++ drop (length text) result,
      rw (wat, ◌>>=◌, mon, mat, ◌>>=◌, fy, runs, ◌>>=◌, put_bytes_lem result text room, ◌>>=◌) refl,
      omega (
        arith,
        length-append text (drop (length text) result),
        length-drop (length text) result,
        room,
        size,
      ),
    )

-- `ctime` of any date that the timer gives, in a year up to 1700000000, writes within its 32 bytes.
pub ctime-time :
    (result : List ℕ) (r : RtcReg)
    → length result ≡ 32
    → IsDate r
    → r.year ≤ 1700000000
    → (t : ℕ) × (filled : List ℕ) × (time (some r) ≡ pos t)
      × (ctime result t ≡ ok filled)
      × (length filled ≡ 32)
unfolding ctime
ctime-time result r size date small =
    let (t, tm, packs, shows, (s, m, h, d, mo, y, w)) = localtime-time r date small in
    let (filled, writes, whole) =
      asctime_lem result tm (r.month - 1) r.year size
        (subst (λ n. n < 7)
          (ok_injective (sym (get_wday-weekday r.year r.month r.day (omega (arith, small))) ∙ w))
          (weekday_bound r.year r.month r.day))
        mo (omega (arith, date.month_to)) (ap full_year y ∙ year_back r.year) (omega (arith, small))
        (omega (arith, d, date.day)) (omega (arith, h, date.hour)) (omega (arith, m, date.minute))
        (omega (arith, s, date.second)) in
    (t, filled, packs, ap (λ o. o >>= asctime result) shows ∙ writes, whole)
