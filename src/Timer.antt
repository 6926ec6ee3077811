-- ===== src/Timer.antt =====
-- memoryManage/utils/Timer.h and Timer.cpp: the clock that stamps pages and frames.
pub mod Clock
pub mod Calendar
use option_hedge.Base.{ℕ, ◌+◌, ◌-◌, ◌*◌, ◌/◌, ◌%◌, ◌^◌, Option, none, some}
use option_hedge.Base.Word.{to_int, to_long, int_to_long}
use option_hedge.Os.{Os, Sys, M, ◌>>=◌, ◌>>◌, pure, get, modify, call}

abbrev pub milliseconds_per_second : ℕ
milliseconds_per_second = 1000

abbrev pub microseconds_per_millisecond : ℕ
microseconds_per_millisecond = 1000

abbrev pub nanoseconds_per_microsecond : ℕ
nanoseconds_per_microsecond = 1000

abbrev pub microseconds_per_second : ℕ
microseconds_per_second = microseconds_per_millisecond * milliseconds_per_second

abbrev pub nanoseconds_per_millisecond : ℕ
nanoseconds_per_millisecond = nanoseconds_per_microsecond * microseconds_per_millisecond

abbrev pub nanoseconds_per_second : ℕ
nanoseconds_per_second = nanoseconds_per_millisecond * milliseconds_per_second

abbrev pub seconds_per_minute : ℕ
seconds_per_minute = 60

abbrev pub minutes_per_hour : ℕ
minutes_per_hour = 60

abbrev pub hours_per_day : ℕ
hours_per_day = 24

abbrev pub seconds_per_hour : ℕ
seconds_per_hour = seconds_per_minute * minutes_per_hour

abbrev pub milliseconds_per_minute : ℕ
milliseconds_per_minute = milliseconds_per_second * seconds_per_minute

abbrev pub nanoseconds_per_minute : ℕ
nanoseconds_per_minute = nanoseconds_per_second * seconds_per_minute

abbrev pub nanoseconds_per_hour : ℕ
nanoseconds_per_hour = nanoseconds_per_second * seconds_per_hour

abbrev pub nanoseconds_per_day : ℕ
nanoseconds_per_day = nanoseconds_per_hour * hours_per_day

module _ (os : Os) where
  -- get_time_now ().time_since_epoch (), in nanoseconds
  unfoldable pub get_time_now : M (Sys os) ℕ
  get_time_now = call os os.monotonic

  -- The two counts of seconds are ints, and so is their difference.
  unfoldable pub get_local_diff : M (Sys os) ℕ
  get_local_diff = do
    unix_seconds ← call os os.unix_time
    ticks ← get_time_now
    let tick_seconds = to_int (ticks / nanoseconds_per_second)
    let diff = to_int (to_int unix_seconds + 2 ^ 32 - tick_seconds)
    pure (to_long (int_to_long diff * nanoseconds_per_second))

  -- The difference that the socket will give, which is not asked for yet.
  unfoldable pub get_socket_diff : M (Sys os) ℕ
  get_socket_diff = pure 0

  make_instance : Option ℕ → M (Sys os) ℕ
  make_instance (some sec_diff) = pure sec_diff
  make_instance none = do
    sec_diff ← get_local_diff
    modify (λ s. record s { timer = some sec_diff })
    pure sec_diff

  -- NanoTimer::getInstance ()->secDiff: the singleton is made by the first call.
  unfoldable pub get_instance : M (Sys os) ℕ
  unfolding make_instance
  get_instance = do s ← get; make_instance s.timer

  unfoldable pub get_sec_diff : M (Sys os) ℕ
  get_sec_diff = get_instance

  unfoldable pub get_nano : ℕ → M (Sys os) ℕ
  get_nano sec_diff = do nano ← get_time_now; pure (to_long (nano + sec_diff))

  unfoldable pub get_nano_time : M (Sys os) ℕ
  get_nano_time = do sec_diff ← get_instance; get_nano sec_diff
