-- ===== src/Examples/Texts.antt =====
-- Runs of the conversions between numbers, dates and texts.
use rainlogs.Prelude.{◌*◌, ◌≡◌, refl, some, codes, negsuc}
use rainlogs.Calendar.{second, decimal, format_stamp, format_day, month_start}
use rainlogs.Strconv.{atoi}

decimal_runs : decimal 40309 ≡ codes "40309"
unfolding decimal
decimal_runs = refl

format_stamp_runs : format_stamp (1709210096 * second) ≡ codes "20240229T123456Z"
unfolding format_stamp
format_stamp_runs = refl

format_day_runs : format_day (1767225599 * second) ≡ codes "2025/12/31"
unfolding format_day
format_day_runs = refl

month_start_runs : month_start (1709210096 * second) ≡ 1706745600 * second
unfolding month_start
month_start_runs = refl

atoi_runs : atoi (codes "-120") ≡ some (negsuc 119)
unfolding atoi
atoi_runs = refl
