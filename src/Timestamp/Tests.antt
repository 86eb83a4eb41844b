-- ===== src/Timestamp/Tests.antt =====
-- Texts of times at concrete inputs.
use yatwb.Base.{ℕ, ◌/◌, ◌%◌, ◌≡◌, refl, [], ◌∷◌, arith}
use yatwb.Base.Decimal.{digits_onto}
use yatwb.Timestamp.{Tm, to_string, to_formatted_string}
use yatwb.Timestamp.Texts.{IsTime, IsGmtime, IsStamp, to_string-IsTime, to_formatted_string-IsStamp}

one_second : to_string 1000042 ≡ 49 ∷ 46 ∷ 48 ∷ 48 ∷ 48 ∷ 48 ∷ 52 ∷ 50 ∷ []
unfolding to_string digits_onto
one_second = refl

to_string-IsTime_example : IsTime 1700000000000042 (to_string 1700000000000042)
to_string-IsTime_example = to_string-IsTime 1700000000000042 (omega arith)

-- The first of January of some year, with the time of the day.
abbrev new_year : ℕ → Tm
new_year s = record {
  tm_year = 100;
  tm_mon = 0;
  tm_mday = 1;
  tm_hour = s % 86400 / 3600;
  tm_min = s % 3600 / 60;
  tm_sec = s % 60;
}

new_year-IsGmtime : IsGmtime new_year
new_year-IsGmtime = record {
  year = λ s h. omega arith;
  mon = λ s h. omega arith;
  mday = λ s h. omega arith;
  min = λ s h. omega arith;
  sec = λ s h. omega arith;
  clock = λ s h. omega arith;
}

to_formatted_string-IsStamp_example :
    IsStamp (new_year 946728000) 946728000000000 (to_formatted_string new_year 946728000000000)
to_formatted_string-IsStamp_example =
    to_formatted_string-IsStamp new_year 946728000000000 new_year-IsGmtime (omega arith)
