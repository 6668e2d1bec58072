-- ===== src/Interrupts/Clock.antt =====
-- The clock (src/kernel/interrupts/clock.c): the number of days of a date, the ticker, and what
-- `initialize_clock` makes of the registers of the real-time clock.
pub mod Calendar
pub mod Registers
use cthulhu_os.Prelude.{
  ℕ, suc, ◌+◌, ◌-◌, ◌*◌, ◌/◌, ◌%◌, Bool, true, false, Option, none, some, not, ◌&&◌, ltb, leb, ◌==◌,
  if◌then◌else◌, u8, u32, u64,
}

pub data ℤ : Type 0 where
  pos : ℕ → ℤ
  negsuc : ℕ → ℤ

-- `a - b`
unfoldable pub ℕ_sub : ℕ → ℕ → ℤ
ℕ_sub a b = if leb b a then pos (a - b) else negsuc (b - a - 1)

-- `doy` of `days_from_civil`, an `unsigned int`.
unfoldable pub day_of_year : ℕ → ℕ → ℕ
day_of_year m d = ((153 * (if ltb 2 m then m - 3 else m + 9) + 2) / 5 + d + (u32 - 1)) % u32

unfoldable pub day_of_era : ℕ → ℕ → ℕ
day_of_era yoe doy = (yoe * 365 + yoe / 4 - yoe / 100 + doy) % u32

-- The end of `days_from_civil`: `(int)doe` is negative from 2 ^ 31 on. The sum is of `int`; `none` is
-- its overflow, which C leaves open.
unfoldable pub days_of_era : ℕ → ℕ → Option ℤ
unfolding ℕ_sub
days_of_era era doe =
    let low = ltb doe 0x80000000 in
    let sum = era * 146097 + (if low then doe else 0) in
    if leb 0x80000000 sum
    then none
    else some (ℕ_sub (era * 146097 + doe) (if low then 719468 else 719468 + u32))

-- `days_from_civil` for a year from 1 on that `int32_t` holds, as the clock gives them.
unfoldable pub days_from_civil : ℕ → ℕ → ℕ → Option ℤ
unfolding days_of_era day_of_era day_of_year
days_from_civil y m d =
    let y' = y - (if leb m 2 then 1 else 0) in
    let era = y' / 400 in days_of_era era (day_of_era (y' - era * 400) (day_of_year m d))

-- `clock_s` and `clock_ms` after `timer_tick`, and whether it runs the scheduler.
unfoldable pub timer_tick : Bool → ℕ × ℕ → (ℕ × ℕ) × Bool
timer_tick scheduler_enabled (clock_s, clock_ms) =
    let ms = (clock_ms + 1) % u64 in
    let ms' = if leb 1000 ms then ms - 1000 else ms in
    let s' = if leb 1000 ms then (clock_s + 1) % u64 else clock_s in
    ((s', ms'), scheduler_enabled && ms' % 2 == 0)

-- The registers, and the values that the clock keeps.
pub record Rtc : Type 0 where
  pub second : ℕ
  pub minute : ℕ
  pub hour : ℕ
  pub day : ℕ
  pub month : ℕ
  pub year : ℕ
  pub century : ℕ

unfoldable pub from_bcd : ℕ → ℕ
from_bcd v = v % 16 + v / 16 * 10

-- `hour`: the bit 0x80 of a 12-hour clock's afternoon is kept.
unfoldable pub hour_from_bcd : ℕ → ℕ
hour_from_bcd v = v % 16 + v / 16 % 8 * 10 + v / 128 % 2 * 128

-- What `initialize_clock` does with the registers it has read: `b` is register B, and `has_century`
-- tells whether the machine has a century register.
unfoldable pub convert : ℕ → Bool → Rtc → Rtc
unfolding from_bcd hour_from_bcd
convert b has_century r =
    let bcd = not (b / 4 % 2 == 1) in
    let second' = if bcd then from_bcd r.second else r.second in
    let minute' = if bcd then from_bcd r.minute else r.minute in
    let hour' = if bcd then hour_from_bcd r.hour else r.hour in
    let day' = if bcd then from_bcd r.day else r.day in
    let month' = if bcd then from_bcd r.month else r.month in
    let year' = if bcd then from_bcd r.year else r.year in
    let century' = if bcd && has_century then from_bcd r.century else r.century in
    let afternoon = not (b / 2 % 2 == 1) && hour' / 128 % 2 == 1 in
    let later = if ltb (year' + 2000) 2016 then year' + 2000 + 100 else year' + 2000 in
    record {
      second = second';
      minute = minute';
      hour = if afternoon then (hour' % 128 + 12) % 24 else hour';
      day = day';
      month = month';
      year = if has_century then year' + century' * 100 else later;
      century = century';
    }
