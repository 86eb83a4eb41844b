-- ===== src/Timestamp.antt =====
-- src/include/timestamp.h and src/timestamp.cpp: a point in time, the number of its microseconds
-- after the Epoch; the header asks for times after the Epoch only. A text
-- is the list of its bytes. `gmtime_r` is a parameter.
pub mod Texts
mod Tests
use yatwb.Base.{
  ℕ, ◌+◌, ◌-◌, ◌*◌, ◌/◌, ◌%◌, List, [], ◌∷◌, ◌++◌, Bool, false, length, replicate, ltb,
}
use yatwb.Base.Decimal.{decimal, padded}
use yatwb.Base.Text.{c_string, snprintf}

abbrev pub micro_seconds_per_second : ℕ
micro_seconds_per_second = 1000 * 1000

-- `valid()`
abbrev pub is_valid_time : ℕ → Bool
is_valid_time t = ltb 0 t

-- A `double` of seconds as far as the code reads it, where it is not below zero: whether it is
-- above zero, and the cast to `int64_t` of its product with the microseconds of a second, which is
-- 0 for less than a microsecond.
pub record Seconds : Type 0 where
  pub is_positive : Bool
  pub delta : ℕ

-- `0.0`
abbrev pub no_seconds : Seconds
no_seconds = record { is_positive = false; delta = 0 }

-- `addTime`, where the sum is an `int64_t`: below `2 ^ 63`, a condition of the theorems that use it.
abbrev pub add_time : ℕ → Seconds → ℕ
add_time t seconds = t + seconds.delta

-- `now()`, with the seconds and microseconds that `gettimeofday` gives.
unfoldable pub now_of : ℕ → ℕ → ℕ
now_of tv_sec tv_usec = tv_sec * micro_seconds_per_second + tv_usec

-- `toString()`
unfoldable pub to_string : ℕ → List ℕ
to_string t =
    let seconds = t / micro_seconds_per_second in
    let microseconds = t % micro_seconds_per_second in
    c_string (snprintf (32 - 1) (decimal seconds ++ 46 ∷ padded 6 microseconds))

-- `struct tm`, none of whose fields is negative after the Epoch.
pub record Tm : Type 0 where
  pub tm_year : ℕ
  pub tm_mon : ℕ
  pub tm_mday : ℕ
  pub tm_hour : ℕ
  pub tm_min : ℕ
  pub tm_sec : ℕ

-- `%wd`
abbrev pub spaced : ℕ → ℕ → List ℕ
spaced w n = replicate (w - length (decimal n)) 32 ++ decimal n

-- `%4d%02d%02d`, `%02d:%02d:%02d` and `%06d`.
abbrev pub date_text : Tm → List ℕ
date_text tm = spaced 4 (tm.tm_year + 1900) ++ padded 2 (tm.tm_mon + 1) ++ padded 2 tm.tm_mday

abbrev pub clock_text : Tm → List ℕ
clock_text tm = padded 2 tm.tm_hour ++ 58 ∷ padded 2 tm.tm_min ++ 58 ∷ padded 2 tm.tm_sec

-- `toFormattedString()`
unfoldable pub to_formatted_string : (ℕ → Tm) → ℕ → List ℕ
to_formatted_string gmtime t =
    let tm = gmtime (t / micro_seconds_per_second) in
    let microseconds = t % micro_seconds_per_second in
    c_string (snprintf 64 (date_text tm ++ 32 ∷ clock_text tm ++ 46 ∷ padded 6 microseconds))
