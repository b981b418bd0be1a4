-- ===== src/Rdmacm05/Common/Logging.antt =====
-- The log lines of src/rdmacm05/common.c. What gettimeofday and localtime give are arguments, and
-- what is printed is the result; `none` is a write past a buffer, or the use of one that strftime
-- left undefined.
use mathlib.Core.Path.{subst}
use rdma_tutorial.Prelude.{
  ℕ, suc, ◌+◌, ◌≤◌, ◌<◌, ◌≡◌, refl, true, Option, none, some, List, [], ◌∷◌, ◌++◌, ltb, length,
  drop, if◌then◌else◌, arith, length-append,
}
use rdma_tutorial.Libc.{
  Tm, strftime, percent_06ld, date_time, IsTime, length-date_time, length-percent_06ld, length-year,
  length-decimal-le, percent_d,
}

-- sprintf into a buffer of `room` bytes
abbrev pub sprintf : ℕ → List ℕ → Option (List ℕ)
sprintf room text = if ltb (length text) room then some text else none

-- `room` is what the caller's buffer has.
unfoldable pub timestr : ℕ → Tm → ℕ → Option (List ℕ)
timestr room tm_info tv_usec = elim (strftime 64 tm_info) [
  | none ↦ none
  | some time_buf ↦ sprintf room (time_buf ++ 46 ∷ percent_06ld tv_usec)
]

-- LOG
unfoldable pub log : Tm → ℕ → List ℕ → Option (List ℕ)
log tm_info tv_usec msg = elim (timestr 64 tm_info tv_usec) [
  | none ↦ none
  | some buffer ↦ some (buffer ++ 32 ∷ (msg ++ (10 ∷ [])))
]

-- LOGF, where `body` is what vprintf makes of the format and its arguments
unfoldable pub logf : Tm → ℕ → List ℕ → Option (List ℕ)
logf tm_info tv_usec body = elim (timestr 64 tm_info tv_usec) [
  | none ↦ none
  | some buffer ↦ some (buffer ++ 32 ∷ body)
]

abbrev stamp : Tm → ℕ → List ℕ
stamp tm usec = date_time tm ++ 46 ∷ percent_06ld usec

length-stamp :
    (tm : Tm) (usec : ℕ)
    → IsTime tm
    → usec < 1000000
    → length (stamp tm usec) ≡ length (percent_d (1900 + tm.tm_year)) + 22
length-stamp tm usec h small = omega (
  arith,
  length-append (date_time tm) (46 ∷ percent_06ld usec),
  length-date_time tm h,
  length-percent_06ld usec small,
)

length-percent_d-le : (n : ℕ) → length (percent_d n) ≤ 10
unfolding percent_d
length-percent_d-le n = length-decimal-le 9 n

below : (m n : ℕ) → m < n → ltb m n ≡ true
below m n h = ground arith

strftime-date_time : (tm : Tm) → IsTime tm → strftime 64 tm ≡ some (date_time tm)
unfolding strftime
strftime-date_time tm h =
    rw
      (below (length (date_time tm)) 64
        (omega (arith, length-date_time tm h, length-percent_d-le (1900 + tm.tm_year))))
      refl

timestr-stamp :
    (tm : Tm) (usec : ℕ) → IsTime tm → usec < 1000000 → timestr 64 tm usec ≡ some (stamp tm usec)
unfolding timestr
timestr-stamp tm usec h small =
    rw (strftime-date_time tm h, timestr)
      (rw
        (below (length (stamp tm usec)) 64
          (omega (arith, length-stamp tm usec h small, length-percent_d-le (1900 + tm.tm_year))))
        refl)

drop_after : (xs : List ℕ) (c : ℕ) (ys : List ℕ) → drop (suc (length xs)) (xs ++ c ∷ ys) ≡ ys
drop_after [] c ys = refl
drop_after (x ∷ xs) c ys = drop_after xs c ys

drop_past :
    (n : ℕ) (xs : List ℕ) (c : ℕ) (ys : List ℕ) → length xs ≡ n → drop (suc n) (xs ++ c ∷ ys) ≡ ys
drop_past n xs c ys e = subst (λ k. drop (suc k) (xs ++ c ∷ ys) ≡ ys) e (drop_after xs c ys)

-- For every time that localtime may give after 1900 and every part of a second, LOG stays within
-- its two buffers of 64 bytes: the line that it prints is a stamp of at most 32 bytes, a blank, the
-- message and a newline.
pub log-fits :
    (tm : Tm) (usec : ℕ) (msg : List ℕ)
    → IsTime tm
    → usec < 1000000
    → (time : List ℕ) × (timestr 64 tm usec ≡ some time)
      × (length time ≤ 32)
      × (log tm usec msg ≡ some (time ++ 32 ∷ (msg ++ (10 ∷ []))))
unfolding log
log-fits tm usec msg h small = (
  stamp tm usec,
  timestr-stamp tm usec h small,
  omega (arith, length-stamp tm usec h small, length-percent_d-le (1900 + tm.tm_year)),
  rw (timestr-stamp tm usec h small, log) refl,
)

-- Up to the year 9999 the columns of the log are aligned: LOG prints a line whose bytes from the
-- 28th on are the message and a newline.
pub log-aligned :
    (tm : Tm) (usec : ℕ) (msg : List ℕ)
    → IsTime tm
    → tm.tm_year < 8100
    → usec < 1000000
    → (line : List ℕ) × (log tm usec msg ≡ some line) × (drop 27 line ≡ msg ++ (10 ∷ []))
unfolding log
log-aligned tm usec msg h year small =
    (stamp tm usec ++ 32 ∷ (msg ++ (10 ∷ [])), rw (timestr-stamp tm usec h small, log) refl, rest)
  where
    wide : length (stamp tm usec) ≡ 26
    wide = omega (
      arith,
      length-stamp tm usec h small,
      length-year (1900 + tm.tm_year) (omega arith) (omega arith),
    )

    rest : drop 27 (stamp tm usec ++ 32 ∷ (msg ++ (10 ∷ []))) ≡ (msg ++ (10 ∷ []))
    rest = drop_past 26 (stamp tm usec) 32 (msg ++ (10 ∷ [])) wide
