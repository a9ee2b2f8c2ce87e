-- ===== src/Tests/Clocks.antt =====
-- The clock at concrete times.
use yeyj_tcp_server.Base.{◌⊎◌, ◌≤◌, ◌<◌, ◌≡◌, refl, arith, ok, fault, out_of_range, length, codes}
use yeyj_tcp_server.Clock.Dates.{IsTime, update_time_lem}
use yeyj_tcp_server.Clock.{Tm, padded, get_date_as_string, time_text, update_time}
use yeyj_tcp_server.Text.{decimal, digits_loop}

-- two times of a day in November 2026
abbrev morning : Tm
morning = record { tm_year = 126; tm_mon = 10; tm_mday = 27; tm_hour = 8; tm_min = 5; tm_sec = 0 }

abbrev evening : Tm
evening = record morning { tm_hour = 20 }

morning_text : time_text morning ≡ codes "2026/11/27 08:05:00"
unfolding time_text padded decimal digits_loop
morning_text = refl

same_day : get_date_as_string morning ≡ get_date_as_string evening
unfolding get_date_as_string
same_day = refl

evening-IsTime : IsTime evening
evening-IsTime = record {
  month = omega arith;
  day = omega arith;
  hour = omega arith;
  minute = omega arith;
  second = omega arith;
}

update_time_lem_example :
    ((126 < 8100)
      × (update_time evening ≡ ok (time_text evening))
      × (length (time_text evening) ≡ 19))
    ⊎ ((8100 ≤ 126) × (update_time evening ≡ fault out_of_range))
update_time_lem_example = update_time_lem evening evening-IsTime
