-- ===== src/Timer/Calendar.antt =====
-- The conversions between nanoseconds and calendar times of memoryManage/utils/Timer.h. The calendar of
-- libc is a parameter.
use option_hedge.Base.{ℕ, ◌-◌, ◌*◌, ◌/◌, ◌^◌, Option, none, some, if◌then◌else◌, ltb}
use option_hedge.Base.Text.{Text, codes}
use option_hedge.Base.Word.{to_long, long_lt}
use option_hedge.Os.{Result, ok, err, indeterminate, null_pointer}
use option_hedge.Timer.{nanoseconds_per_second}

-- `struct tm` with timelocal, strptime, localtime and strftime. A time_t is a long. `strptime` sets what
-- the format names and keeps the rest; `localtime` answers `none`, the null pointer, where the year
-- is out of range; `strftime` answers `none` where the text and its NUL do not fit
-- the given number of bytes.
pub record Calendar : Type 1 where
  pub Tm : Type 0
  pub timelocal : Tm → ℕ
  pub strptime : Text → Text → Tm → Tm
  pub localtime : ℕ → Option Tm
  pub strftime : ℕ → Text → Tm → Option Text

-- The division of longs, which truncates towards zero, by a positive number.
unfoldable pub long_div : ℕ → ℕ → ℕ
long_div n d = if ltb n (2 ^ 63) then n / d else to_long (2 ^ 64 - (2 ^ 64 - n) / d)

module _ (calendar : Calendar) where
  unfoldable pub parse_tm : calendar.Tm → ℕ
  parse_tm tm = to_long (calendar.timelocal tm * nanoseconds_per_second)

  -- `unset` is what the local variable holds before `strptime`.
  unfoldable pub parse_time : calendar.Tm → Text → Text → ℕ
  parse_time unset time_str format = parse_tm (calendar.strptime time_str format unset)

  -- The text is built in 40 bytes, which are unset where the text does not fit.
  unfoldable pub parse_nano_text : ℕ → Text → Result Text
  parse_nano_text nano format =
      if long_lt 0 nano
      then elim (calendar.localtime (long_div nano nanoseconds_per_second)) [
        | none ↦ err null_pointer
        | some tm ↦ elim (calendar.strftime 40 format tm) [
          | none ↦ err indeterminate
          | some text ↦ ok text
        ]
      ]
      else ok (codes "NULL")

  unfoldable pub parse_nano : ℕ → Result calendar.Tm
  parse_nano nano = elim (calendar.localtime (long_div nano nanoseconds_per_second)) [
    | none ↦ err null_pointer
    | some tm ↦ ok tm
  ]
