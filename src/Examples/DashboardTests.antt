-- ===== src/Examples/DashboardTests.antt =====
-- Durations of dashboard-commons.js at concrete values.
use p_loadtesting.Prelude.{refl, ◌≡◌, ◌<◌, ◌↔◌, ◌%◌, false}
use p_loadtesting.Dashboard.{format_duration, get_time_format, parts}
use p_loadtesting.Dashboard.Durations.{milliseconds, milliseconds-parts_iff}

-- Two hours and a half are printed as six minutes.
format_9000000 : format_duration 9000000 false ≡ "6 min"
unfolding format_duration
format_9000000 = refl

format_3723004 : format_duration 3723004 false ≡ "1 hour(s) 2 min 3 sec 4 ms"
unfolding format_duration
format_3723004 = refl

time_format_60000 : get_time_format 60000 ≡ "%d %H:%M"
unfolding get_time_format
time_format_60000 = refl

milliseconds-parts_iff_example :
    (milliseconds (parts 9000000) ≡ 9000000) ↔ (9000000 % 86400000 < 8640000)
milliseconds-parts_iff_example = milliseconds-parts_iff 9000000
