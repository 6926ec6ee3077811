-- ===== src/Timer/Clock.antt =====
-- What the nano time is, and that it does not run backwards.
use option_hedge.Base.{
  ℕ, ◌+◌, ◌-◌, ◌*◌, ◌/◌, ◌%◌, ◌^◌, ◌<◌, ◌≤◌, ◌≡◌, refl, Option, none, some, arith,
}
use option_hedge.Base.Word.{to_long}
use option_hedge.Os.{Os, Sys, ok, ◌>>=◌}
use option_hedge.Timer.{
  nanoseconds_per_second, get_time_now, get_local_diff, get_instance, get_nano, get_nano_time,
  make_instance,
}

-- The first call of `getNanoTime` answers the unix time in whole seconds, with the nanoseconds of
-- the monotonic clock's current second and of the time that passed between its two readings; and it
-- fixes the singleton's difference. It is stated for a machine that is up for no longer than the
-- unix time, for times before 2038 and for a clock below 2 ^ 62.
pub get_nano_time_first :
    (os : Os) (s : Sys os) (unix ticks now : ℕ) (w1 w2 w3 : os.World)
    → s.timer ≡ none
    → os.unix_time s.world ≡ (unix, w1)
    → os.monotonic w1 ≡ (ticks, w2)
    → os.monotonic w2 ≡ (now, w3)
    → unix < 2 ^ 31
    → ticks / nanoseconds_per_second ≤ unix
    → ticks ≤ now
    → now < 2 ^ 62
    → get_nano_time os s
      ≡ ok (
        unix * nanoseconds_per_second + ticks % nanoseconds_per_second + (now - ticks),
        record s {
          world = w3;
          timer = some ((unix - ticks / nanoseconds_per_second) * nanoseconds_per_second);
        },
      )
unfolding get_nano_time get_instance get_local_diff get_time_now get_nano
get_nano_time_first os s unix ticks now w1 w2 w3 fresh at_unix at_ticks at_now u t n b =
    ground arith

-- Once the singleton is made, two calls differ by what the monotonic clock advanced between them,
-- whatever the process did in between, as long as the sum stays below 2 ^ 64; so the stamps that the
-- service writes never run backwards.
pub get_nano_time_elapsed :
    (os : Os) (s later : Sys os) (d then now : ℕ) (w1 w2 : os.World)
    → s.timer ≡ some d
    → later.timer ≡ some d
    → os.monotonic s.world ≡ (then, w1)
    → os.monotonic later.world ≡ (now, w2)
    → then ≤ now
    → now + d < 2 ^ 64
    → (t : ℕ) × (get_nano_time os s ≡ ok (t, record s { world = w1 }))
      × (get_nano_time os later ≡ ok (t + (now - then), record later { world = w2 }))
unfolding get_nano_time get_instance get_time_now get_nano
get_nano_time_elapsed os s later d then now w1 w2 set kept at_then at_now le fits =
    (then + d, ground arith, ground arith)

make_instance_total :
    (os : Os) (o : Option ℕ) (s : Sys os)
    → (d : ℕ) × (s' : Sys os) × (make_instance os o s ≡ ok (d, s')) × (s'.mem ≡ s.mem)
unfolding make_instance get_local_diff get_time_now
make_instance_total os none s = (_, _, refl, refl)
make_instance_total os (some d) s = (d, s, refl, refl)

-- The clock always answers a long, and leaves the memory alone.
pub get_nano_time_total :
    (os : Os) (s : Sys os)
    → (t : ℕ) × (s' : Sys os) × (get_nano_time os s ≡ ok (t, s')) × (s'.mem ≡ s.mem) × (t < 2 ^ 64)
unfolding get_nano_time get_instance get_time_now get_nano
get_nano_time_total os s =
    let (d, s', e, same) = make_instance_total os s.timer s in
    (
      to_long ((os.monotonic s'.world).0 + d),
      record s' { world = (os.monotonic s'.world).1 },
      rw (e, ◌>>=◌),
      same,
      omega arith,
    )
