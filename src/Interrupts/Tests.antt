-- ===== src/Interrupts/Tests.antt =====
-- The calendar at a leap day, the last millisecond of a second, and the last second of 2015.
use cthulhu_os.Prelude.{some, ◌+◌, ◌*◌, ◌%◌, ◌<◌, ◌≡◌, refl, true, ◌&&◌, ◌==◌, arith}
use cthulhu_os.Interrupts.Clock.{pos, days_from_civil, timer_tick, Rtc, convert}
use cthulhu_os.Interrupts.Clock.Registers.{in_bcd, IsTime, convert-in_bcd, timer_tick-adds}
use cthulhu_os.Interrupts.Clock.Calendar.{date_after, days_from_civil-date_after}

-- The 29th of February 1972 is day 789.
leap_day : date_after 789 ≡ record { year = 1972; month = 2; day = 29 }
leap_day = refl

days_from_civil-date_after_example :
    days_from_civil (date_after 789).year (date_after 789).month (date_after 789).day
    ≡ some (pos 789)
days_from_civil-date_after_example = days_from_civil-date_after 789 (omega arith)

abbrev new_year : Rtc
new_year = record {
  second = 59;
  minute = 59;
  hour = 23;
  day = 31;
  month = 12;
  year = 15;
  century = 20;
}

new_year-IsTime : IsTime new_year
new_year-IsTime = record {
  second = omega arith;
  minute = omega arith;
  hour = omega arith;
  day = omega arith;
  month = omega arith;
  year = omega arith;
  century = omega arith;
}

convert-in_bcd_run : convert 2 true (in_bcd new_year) ≡ record new_year { year = 15 + 20 * 100 }
convert-in_bcd_run = convert-in_bcd 2 new_year refl refl new_year-IsTime

timer_tick_run :
    (let r = timer_tick true (5, 999) in
      (r.0.0 * 1000 + r.0.1 ≡ 5 * 1000 + 999 + 1)
      × (r.0.1 < 1000)
      × (r.1 ≡ (true && (5 * 1000 + 999 + 1) % 2 == 0)))
timer_tick_run = timer_tick-adds true 5 999 (omega arith) (omega arith)
