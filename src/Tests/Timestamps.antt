-- ===== src/Tests/Timestamps.antt =====
-- Timestamps of results and waivers.
use greenwave.Prelude.{◌≡◌, refl, some}
use greenwave.Outcome.{ok, raise, unexpected}
use greenwave.Timestamp.{DateTime, read_timestamp, right_before_this_time}
use greenwave.Timestamp.Printed.{RightBefore, right_before_this_time-RightBefore}
use greenwave.Tests.Publishing.{publishing}

times_run :
    (right_before_this_time "2020-02-07T03:14:43.076427" ≡ ok "2020-02-07T03:14:43.076426")
    × (right_before_this_time "2020-03-01 00:00:00 UTC" ≡ ok "2020-02-29T23:59:59.999999")
    × (right_before_this_time "1900-03-01T0:0:0.0" ≡ ok "1900-02-28T23:59:59.999999")
    × (right_before_this_time "0001-01-01T00:00:00.0" ≡ raise (unexpected "OverflowError"))
    × (right_before_this_time "2020-02-30T00:00:00.0" ≡ raise (unexpected "ValueError"))
    × (right_before_this_time "2020-02-07T03:14:43" ≡ raise (unexpected "ValueError"))
unfolding publishing
times_run = (refl, refl, refl, refl, refl, refl)

abbrev leap_day_ends : DateTime
leap_day_ends = record {
  year = 2020;
  month = 3;
  day = 1;
  hour = 0;
  minute = 0;
  second = 0;
  microsecond = 0;
}

leap_day_read : read_timestamp "2020-03-01 00:00:00 UTC" ≡ some leap_day_ends
unfolding publishing
leap_day_read = refl

right_before_this_time-RightBefore_example :
    RightBefore leap_day_ends (right_before_this_time "2020-03-01 00:00:00 UTC")
right_before_this_time-RightBefore_example =
    right_before_this_time-RightBefore "2020-03-01 00:00:00 UTC" leap_day_ends leap_day_read
