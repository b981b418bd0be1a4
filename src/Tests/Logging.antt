-- ===== src/Tests/Logging.antt =====
-- A line of the log.
use rdma_tutorial.Prelude.{ℕ, ◌≡◌, ◌≤◌, refl, some, List, [], ◌∷◌, ◌++◌, length, codes, arith}
use rdma_tutorial.Libc.{
  Tm, IsTime, strftime, date_time, decimal, percent_d, percent_02d, percent_06ld,
}
use rdma_tutorial.Rdmacm05.Common.Logging.{timestr, log, log-fits}

abbrev moment : Tm
moment = record { tm_sec = 9; tm_min = 30; tm_hour = 7; tm_mday = 1; tm_mon = 1; tm_year = 124 }

moment-IsTime : IsTime moment
moment-IsTime = record {
  sec = omega arith;
  min = omega arith;
  hour = omega arith;
  mday = omega arith;
  mon = omega arith;
  year = omega arith;
}

log_line :
    log moment 4050 (codes "listen begin")
    ≡ some (codes "2024-02-01 07:30:09.004050 listen begin\n")
unfolding log timestr strftime date_time decimal percent_d percent_02d percent_06ld
log_line = refl

log-fits_example :
    (time : List ℕ) × (timestr 64 moment 4050 ≡ some time)
    × (length time ≤ 32)
    × (log moment 4050 (codes "listen begin")
        ≡ some (time ++ 32 ∷ (codes "listen begin" ++ (10 ∷ []))))
log-fits_example = log-fits moment 4050 (codes "listen begin") moment-IsTime (omega arith)
