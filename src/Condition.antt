-- ===== src/Condition.antt =====
-- `Condition::waitForSeconds` of condition.h: the time up to which `pthread_cond_timedwait` waits. The
-- other methods, and those of mutex.h and thread.h, are calls of pthread.
use yeyj_tcp_server.Base.{ℕ, ◌+◌, ◌*◌, ◌/◌, ◌%◌}

-- `NanoSecondsPerSecond`.
abbrev pub nano_seconds_per_second : ℕ
nano_seconds_per_second = 1000000000

-- A `struct timespec`.
pub record Timespec : Type 0 where
  pub tv_sec : ℕ
  pub tv_nsec : ℕ

-- What `waitForSeconds(second)` makes of the time that `clock_gettime` gives. The seconds are an
-- `int` that is not below zero, so the products stay in the range of `int64_t`.
unfoldable pub wait_until : ℕ → Timespec → Timespec
wait_until second now =
    let nano_seconds = second * nano_seconds_per_second in
    record {
      tv_sec = now.tv_sec + (now.tv_nsec + nano_seconds) / nano_seconds_per_second;
      tv_nsec = now.tv_nsec + (now.tv_nsec + nano_seconds) % nano_seconds_per_second;
    }
