-- ===== src/Usage/Tests.antt =====
-- Usage: runs, and the instance of its theorem.
use jawas.Base.{some, ◌≡◌, refl, arith, ◌-◌}
use jawas.Usage.{Rusage, Usage, new_usage, timediff, elapsed, ended, stop_usage}
use jawas.Usage.Average.{IsBounded, IsAverage, stop_usage-IsAverage}

-- A second is taken for 2 ^ 20 microseconds.
timediff_runs : timediff (record { sec = 3; usec = 5 }) (record { sec = 1; usec = 9 }) ≡ 2097148
unfolding timediff
timediff_runs = refl

abbrev later : Rusage
later = record { utime = record { sec = 0; usec = 7 }; stime = record { sec = 0; usec = 2 } }

abbrev busy : Usage
unfolding new_usage
busy = record new_usage { hits = 2; time = 4 }

-- The times 4, 4 and 9.
stop_runs : (stop_usage (some later) busy).time ≡ 5
unfolding stop_usage busy elapsed timediff new_usage
stop_runs = refl

stop_usage-IsAverage_example :
    IsBounded 9 (stop_usage (some later) busy)
    × IsAverage
        (stop_usage (some later) busy).time
        ((stop_usage (some later) busy).hits - 1)
        busy.time
        (elapsed (ended (some later) busy))
        9
unfolding busy elapsed timediff new_usage
stop_usage-IsAverage_example =
    stop_usage-IsAverage 9 (some later) busy (omega arith)
      (record { hits_few = omega arith; time_small = omega arith }) (omega arith)
