-- ===== src/Interrupts/Clock/Registers.antt =====
-- The registers of the real-time clock, and the ticker.
use cthulhu_os.Prelude.{
  ℕ, ◌+◌, ◌*◌, ◌/◌, ◌%◌, ◌≤◌, ◌<◌, ◌≡◌, refl, ap, Bool, true, false, ◌&&◌, leb, ◌==◌, u64, arith,
  inl, inr, Bool-cases,
}
use cthulhu_os.Interrupts.Clock.{timer_tick, Rtc, from_bcd, hour_from_bcd, convert}

-- A number below 100 in binary-coded decimal.
abbrev pub to_bcd : ℕ → ℕ
to_bcd v = v / 10 * 16 + v % 10

abbrev pub in_bcd : Rtc → Rtc
in_bcd r = record {
  second = to_bcd r.second;
  minute = to_bcd r.minute;
  hour = to_bcd r.hour;
  day = to_bcd r.day;
  month = to_bcd r.month;
  year = to_bcd r.year;
  century = to_bcd r.century;
}

pub record IsTime (r : Rtc) : Type 0 where
  pub second : r.second < 60
  pub minute : r.minute < 60
  pub hour : r.hour < 24
  pub day : r.day ≤ 31
  pub month : r.month ≤ 12
  pub year : r.year < 100
  pub century : r.century < 100

from_bcd-to_bcd : (v : ℕ) → v < 100 → from_bcd (to_bcd v) ≡ v
unfolding from_bcd
from_bcd-to_bcd v h = omega arith

hour_from_bcd-to_bcd : (v : ℕ) → v < 24 → hour_from_bcd (to_bcd v) ≡ v
unfolding hour_from_bcd
hour_from_bcd-to_bcd v h = omega arith

-- The time that a 24-hour clock holds in binary-coded decimal is read back, with the full year by
-- the century register.
pub convert-in_bcd :
    (b : ℕ) (r : Rtc)
    → b / 4 % 2 ≡ 0
    → b / 2 % 2 ≡ 1
    → IsTime r
    → convert b true (in_bcd r) ≡ record r { year = r.year + r.century * 100 }
unfolding convert
convert-in_bcd b r decimal full v =
    let bcd : (b / 4 % 2 == 1) ≡ false = ground arith in
    let h24 : (b / 2 % 2 == 1) ≡ true = ground arith in
    let s = v.second in
    let m = v.minute in
    let d = v.day in
    let mo = v.month in
    rw
      (
        bcd,
        h24,
        from_bcd-to_bcd r.second (omega arith),
        from_bcd-to_bcd r.minute (omega arith),
        hour_from_bcd-to_bcd r.hour v.hour,
        from_bcd-to_bcd r.day (omega arith),
        from_bcd-to_bcd r.month (omega arith),
        from_bcd-to_bcd r.year v.year,
        from_bcd-to_bcd r.century v.century,
      )
      refl

-- A tick adds one millisecond to the time, keeps the milliseconds below 1000, and runs the
-- scheduler, where it is enabled, at the even ones.
pub timer_tick-adds :
    (enabled : Bool) (s ms : ℕ)
    → ms < 1000
    → s + 1 < u64
    → (let r = timer_tick enabled (s, ms) in
        (r.0.0 * 1000 + r.0.1 ≡ s * 1000 + ms + 1)
        × (r.0.1 < 1000)
        × (r.1 ≡ (enabled && (s * 1000 + ms + 1) % 2 == 0)))
unfolding timer_tick
timer_tick-adds enabled s ms h small = elim (Bool-cases (leb 1000 ((ms + 1) % u64))) [
  | inl over ↦
      let e : ms ≡ 999 = ground arith in
      rw over (ground arith, ground arith, ap (λ b. enabled && b) (ground arith))
  | inr under ↦ rw under (ground arith, ground arith, ap (λ b. enabled && b) (ground arith))
]
