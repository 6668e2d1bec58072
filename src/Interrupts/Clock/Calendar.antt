-- ===== src/Interrupts/Clock/Calendar.antt =====
-- `days_from_civil` counts the days of the Gregorian calendar from 1970 on.
use cthulhu_os.Prelude.{
  some, ℕ, zero, suc, ◌+◌, ◌-◌, ◌*◌, ◌/◌, ◌%◌, ◌≤◌, ◌<◌, ◌≡◌, refl, sym, ap, ◌∙◌, inl, inr, Bool,
  true, false, not, ◌&&◌, ◌||◌, ltb, leb, ◌==◌, if◌then◌else◌, arith, Bool-cases,
}
use cthulhu_os.Interrupts.Clock.{pos, ℕ_sub, day_of_year, day_of_era, days_of_era, days_from_civil}

-- The rules of the calendar.
abbrev pub leap : ℕ → Bool
leap y = y % 4 == 0 && (not (y % 100 == 0) || y % 400 == 0)

abbrev pub month_length : ℕ → ℕ → ℕ
month_length y m =
    if m == 2
    then (if leap y then 29 else 28)
    else if (m == 4 || m == 6) || (m == 9 || m == 11)
    then 30
    else 31

pub record Date : Type 0 where
  pub year : ℕ
  pub month : ℕ
  pub day : ℕ

abbrev pub next_date : Date → Date
next_date t =
    if ltb t.day (month_length t.year t.month)
    then record t { day = t.day + 1 }
    else if ltb t.month 12
    then record t { month = t.month + 1; day = 1 }
    else record { year = t.year + 1; month = 1; day = 1 }

-- The date `n` days after the first of January 1970.
abbrev pub date_after : ℕ → Date
date_after zero = record { year = 1970; month = 1; day = 1 }
date_after (suc n) = next_date (date_after n)

-- The same count with plain numbers, from the first of March of the year 0 on.
abbrev month_start : ℕ → ℕ
month_start m = (153 * (if ltb 2 m then m - 3 else m + 9) + 2) / 5

abbrev year_start : ℕ → ℕ
year_start y = y / 400 * 146097 + (y % 400 * 365 + y % 400 / 4 - y % 400 / 100)

abbrev count : Date → ℕ
count t = year_start (t.year - (if leb t.month 2 then 1 else 0)) + month_start t.month + t.day - 1

record IsDate (t : Date) : Type 0 where
  late : 1970 ≤ t.year
  first_month : 1 ≤ t.month
  last_month : t.month ≤ 12
  first_day : 1 ≤ t.day
  last_day : t.day ≤ month_length t.year t.month

year_start-suc : (y : ℕ) → year_start (y + 1) ≡ year_start y + (if leap (y + 1) then 366 else 365)
year_start-suc y = ground arith

-- A month's days, but for February's and December's ends.
month_start-suc :
    (y m : ℕ)
    → 3 ≤ m
    → m < 12
    → month_start (m + 1)
      ≡ month_start m + (if (m == 4 || m == 6) || (m == 9 || m == 11) then 30 else 31)
month_start-suc y m lo hi = ground arith

next_date-IsDate : (t : Date) → IsDate t → IsDate (next_date t)
next_date-IsDate t v =
    let a = v.late in
    let b = v.first_month in
    let c = v.last_month in
    let d = v.first_day in
    let e = v.last_day in
    record {
      late = ground arith;
      first_month = ground arith;
      last_month = ground arith;
      first_day = ground arith;
      last_day = ground arith;
    }

-- The last day of a month, and the first day of the next one.
abbrev date : ℕ → ℕ → ℕ → Date
date y m d = record { year = y; month = m; day = d }

count-january : (y : ℕ) → count (date y 2 1) ≡ count (date y 1 31) + 1
count-january y = omega arith

count-february :
    (y : ℕ) → 1970 ≤ y → count (date y 3 1) ≡ count (date y 2 (if leap y then 29 else 28)) + 1
count-february y h =
    let e : y - 1 + 1 ≡ y = omega arith in
    let step = rw e at (year_start-suc (y - 1)) in
    elim (Bool-cases (leap y)) [
      | inl long ↦ let step' = rw long at step in rw long (omega arith)
      | inr short ↦ let step' = rw short at step in rw short (omega arith)
    ]

count-month :
    (y m : ℕ)
    → 3 ≤ m
    → m < 12
    → count (date y (m + 1) 1)
      ≡ count (date y m (if (m == 4 || m == 6) || (m == 9 || m == 11) then 30 else 31)) + 1
count-month y m lo hi = let step = month_start-suc y m lo hi in ground arith

count-december : (y : ℕ) → count (date (y + 1) 1 1) ≡ count (date y 12 31) + 1
count-december y = omega arith

count-day : (y m d : ℕ) → 1 ≤ d → count (date y m (d + 1)) ≡ count (date y m d) + 1
count-day y m d h = omega arith

-- The step to the next month from the last day `(m, d)`, given for a month and a day it equals.
at_end :
    (t : Date) (m d n : ℕ)
    → t.month ≡ m
    → t.day ≡ d
    → n ≡ count (date t.year m d) + 1
    → n ≡ count t + 1
at_end t m d n p q h =
    h
    ∙ ap (λ m'. count (date t.year m' d) + 1) (sym p)
    ∙ ap (λ d'. count (date t.year t.month d') + 1) (sym q)

count-next_date : (t : Date) → IsDate t → count (next_date t) ≡ count t + 1
count-next_date t v =
    let b = v.first_month in
    let c = v.last_month in
    let e = v.last_day in
    elim (Bool-cases (ltb t.day (month_length t.year t.month))) [
      | inl h ↦ rw h (count-day t.year t.month t.day v.first_day)
      | inr h ↦ elim (Bool-cases (ltb t.month 12)) [
        | inr last ↦
            rw (h, last)
              (at_end t 12 31 (count (date (t.year + 1) 1 1)) (ground arith) (ground arith)
                (count-december t.year))
        | inl l ↦ rw (h, l) (middle h l)
      ]
    ]
  where
    middle :
        ltb t.day (month_length t.year t.month) ≡ false
        → ltb t.month 12 ≡ true
        → count (date t.year (t.month + 1) 1) ≡ count t + 1
    middle h l =
        let b = v.first_month in
        let e = v.last_day in
        elim (Bool-cases (t.month == 1)) [
          | inl is_one ↦
              let m : t.month ≡ 1 = ground arith in
              ap (λ m'. count (date t.year (m' + 1) 1)) m
              ∙ at_end t 1 31 (count (date t.year 2 1)) m (ground arith) (count-january t.year)
          | inr not_one ↦ elim (Bool-cases (t.month == 2)) [
            | inl is_two ↦
                let m : t.month ≡ 2 = ground arith in
                ap (λ m'. count (date t.year (m' + 1) 1)) m
                ∙ at_end t 2 (if leap t.year then 29 else 28) (count (date t.year 3 1)) m
                    (ground arith) (count-february t.year v.late)
            | inr not_two ↦
                at_end t t.month
                  (if (t.month == 4 || t.month == 6) || (t.month == 9 || t.month == 11)
                    then 30
                    else 31)
                  (count (date t.year (t.month + 1) 1)) refl (ground arith)
                  (count-month t.year t.month (ground arith) (ground arith))
          ]
        ]

date_after-count : (n : ℕ) → IsDate (date_after n) × (count (date_after n) ≡ 719468 + n)
date_after-count zero = (
  record {
    late = omega arith;
    first_month = omega arith;
    last_month = omega arith;
    first_day = omega arith;
    last_day = omega arith;
  },
  refl,
)
date_after-count (suc n) =
    let ih = date_after-count n in
    let step = count-next_date (date_after n) ih.0 in
    (next_date-IsDate (date_after n) ih.0, let e = ih.1 in omega arith)

-- The code's numbers do not wrap around for a date.
day_of_year-eq :
    (m d : ℕ) → 1 ≤ m → m ≤ 12 → 1 ≤ d → d ≤ 31 → day_of_year m d ≡ month_start m + d - 1
unfolding day_of_year
day_of_year-eq m d a b c e = ground arith

day_of_era-eq :
    (z doy : ℕ)
    → doy < 1000
    → day_of_era (z - z / 400 * 400) doy ≡ z % 400 * 365 + z % 400 / 4 - z % 400 / 100 + doy
unfolding day_of_era
day_of_era-eq z doy h = omega arith

days_of_era-eq :
    (era doe n : ℕ)
    → doe < 0x80000000
    → era * 146097 + doe ≡ 719468 + n
    → 719468 + n < 0x80000000
    → days_of_era era doe ≡ some (pos n)
unfolding days_of_era ℕ_sub
days_of_era-eq era doe n h e fits =
    let low : ltb doe 0x80000000 ≡ true = ground arith in
    let enough : leb 719468 (era * 146097 + doe) ≡ true = ground arith in
    let no_overflow : leb 0x80000000 (era * 146097 + doe) ≡ false = ground arith in
    let rest : era * 146097 + doe - 719468 ≡ n = omega arith in
    rw (low, no_overflow, enough, rest) refl

days_from_civil-count :
    (t : Date) (n : ℕ)
    → IsDate t
    → count t ≡ 719468 + n
    → 719468 + n < 0x80000000
    → days_from_civil t.year t.month t.day ≡ some (pos n)
unfolding days_from_civil
days_from_civil-count t n v e fits =
    let b = v.first_month in
    let c = v.last_month in
    let d = v.first_day in
    let l = v.last_day in
    let short : t.day ≤ 31 = ground arith in
    let z = t.year - (if leb t.month 2 then 1 else 0) in
    let doy = month_start t.month + t.day - 1 in
    let doy_small : doy < 1000 = ground arith in
    let m = month_start t.month in
    let pos_day : 1 ≤ t.day = d in
    rw (day_of_year-eq t.month t.day b c d short, day_of_era-eq z doy doy_small)
      (days_of_era-eq (z / 400) (z % 400 * 365 + z % 400 / 4 - z % 400 / 100 + doy) n
        (bounded z doy doy_small) (total z m t.day n d e) fits)
  where
    bounded :
        (z doy : ℕ) → doy < 1000 → z % 400 * 365 + z % 400 / 4 - z % 400 / 100 + doy < 0x80000000
    bounded z doy h = omega arith

    total :
        (z m d n : ℕ)
        → 1 ≤ d
        → year_start z + m + d - 1 ≡ 719468 + n
        → z / 400 * 146097 + (z % 400 * 365 + z % 400 / 4 - z % 400 / 100 + (m + d - 1))
          ≡ 719468 + n
    total z m d n h e = omega arith

-- The date `n` days after the first of January 1970, by the rules of the Gregorian calendar, is day
-- `n` of `days_from_civil`, without an overflow of its `int`, as long as `n + 719468` is below 2 ^ 31.
pub days_from_civil-date_after :
    (n : ℕ)
    → 719468 + n < 0x80000000
    → (let t = date_after n in days_from_civil t.year t.month t.day ≡ some (pos n))
days_from_civil-date_after n fits =
    let c = date_after-count n in days_from_civil-count (date_after n) n c.0 c.1 fits
