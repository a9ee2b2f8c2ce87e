-- ===== src/Clock.antt =====
-- The clock as text and as numbers: `getTimeInSecond` and its like, and `getDateAsString`, of
-- utilities.cpp, and `updateTime` of tcpServer.cpp. The results of `gettimeofday` and `localtime` are
-- parameters.
pub mod Padding
pub mod Dates
use yeyj_tcp_server.Base.{
  ℤ, as_int, ℕ, ◌+◌, ◌-◌, ◌/◌, List, ◌∷◌, ◌++◌, leb, if◌then◌else◌, length, replicate, Run, ok,
  fault, out_of_range,
}
use yeyj_tcp_server.Logging.{Line}
use yeyj_tcp_server.Text.{decimal}

-- What `gettimeofday` gives.
pub record Timeval : Type 0 where
  pub tv_sec : ℕ
  pub tv_usec : ℕ

unfoldable pub get_time_in_second : Timeval → ℤ
get_time_in_second t = as_int t.tv_sec

unfoldable pub get_time_in_micro_second : Timeval → ℕ
get_time_in_micro_second t = t.tv_usec

unfoldable pub get_time_in_milli_second : Timeval → ℕ
unfolding get_time_in_micro_second
get_time_in_milli_second t = get_time_in_micro_second t / 1000

-- What `localtime` gives: the years since 1900, which are not negative, and the months from 0 on.
pub record Tm : Type 0 where
  pub tm_year : ℕ
  pub tm_mon : ℕ
  pub tm_mday : ℕ
  pub tm_hour : ℕ
  pub tm_min : ℕ
  pub tm_sec : ℕ

-- `%4d`, and `%02d`.
unfoldable pub padded : ℕ → ℕ → ℕ → Line
padded fill width n = replicate (width - length (decimal n)) fill ++ decimal n

unfoldable pub get_date_as_string : Tm → Line
unfolding padded
get_date_as_string t =
    padded b' ' 4 (t.tm_year + 1900)
    ++ b'/' ∷ (padded b'0' 2 (t.tm_mon + 1) ++ b'/' ∷ padded b'0' 2 t.tm_mday)

-- The string that `sprintf` prints in `updateTime`.
unfoldable pub time_text : Tm → Line
unfolding padded
time_text t =
    let clock =
      padded b'0' 2 t.tm_hour ++ b':' ∷ (padded b'0' 2 t.tm_min ++ b':' ∷ padded b'0' 2 t.tm_sec) in
    padded b' ' 4 (t.tm_year + 1900)
    ++ b'/' ∷ (padded b'0' 2 (t.tm_mon + 1) ++ b'/' ∷ (padded b'0' 2 t.tm_mday ++ b' ' ∷ clock))

-- `updateTime`: the string and its null byte are printed into an array of 20 bytes.
unfoldable pub update_time : Tm → Run Line
unfolding time_text
update_time t = if leb (length (time_text t) + 1) 20 then ok (time_text t) else fault out_of_range
