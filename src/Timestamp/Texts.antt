-- ===== src/Timestamp/Texts.antt =====
-- The texts of a point in time say which it is, and fit their arrays.
use yatwb.Base.{
  suc, ℕ, ◌+◌, ◌*◌, ◌/◌, ◌%◌, ◌^◌, ◌≤◌, ◌<◌, ◌≡◌, ap, ◌∙◌, List, ◌∷◌, ◌++◌, length, length-append,
  arith,
}
use yatwb.Base.Decimal.{
  decimal, padded, value, AreDigits, decimal-AreDigits, padded-AreDigits, value-decimal,
  value-padded, length-decimal, decimal-length, length-padded, digits-HasNoNul,
}
use yatwb.Base.Text.{HasNoNul, append-HasNoNul, c_string-snprintf}
use yatwb.Timestamp.{Tm, date_text, clock_text, spaced, to_string, to_formatted_string}

-- Seconds and a fraction of six digits, which stand for `t`.
pub record IsTime (t : ℕ) (text : List ℕ) : Type 0 where
  pub seconds : List ℕ
  pub fraction : List ℕ
  pub parts : text ≡ seconds ++ 46 ∷ fraction
  pub seconds_digits : AreDigits seconds
  pub fraction_digits : AreDigits fraction
  pub six : length fraction ≡ 6
  pub stands_for : value seconds * 1000000 + value fraction ≡ t
  pub short : length text ≤ 20

-- Every `int64_t` that is not negative has room.
text_fits :
    (t : ℕ) → t < 2 ^ 63 → length (decimal (t / 1000000) ++ 46 ∷ padded 6 (t % 1000000)) ≤ 20
text_fits t h = omega (
  arith,
  length-append (decimal (t / 1000000)) (46 ∷ padded 6 (t % 1000000)),
  length-decimal 12 (t / 1000000) (omega (arith, h)),
  length-padded 5 (t % 1000000) (omega arith),
)

-- For every time of 64 bits with sign after the Epoch: `toString` is not cut, has at most 20
-- characters, and consists of digits, a dot and six digits, which, read as seconds and
-- microseconds, are the time.
pub to_string-IsTime : (t : ℕ) → t < 2 ^ 63 → IsTime t (to_string t)
unfolding to_string
to_string-IsTime t h =
    let whole = decimal (t / 1000000) in
    let part = padded 6 (t % 1000000) in
    let whole_digits = decimal-AreDigits (t / 1000000) in
    let part_digits = padded-AreDigits 6 (t % 1000000) in
    let fits = text_fits t h in
    let text : to_string t ≡ whole ++ 46 ∷ part =
      c_string-snprintf 31 (whole ++ 46 ∷ part) (omega (arith, fits)) (
        append-HasNoNul whole (46 ∷ part) (digits-HasNoNul whole whole_digits)
          (omega arith, digits-HasNoNul part part_digits)) in
    record {
      seconds = whole;
      fraction = part;
      parts = text;
      seconds_digits = whole_digits;
      fraction_digits = part_digits;
      six = length-padded 5 (t % 1000000) (omega arith);
      stands_for = omega (arith, value-decimal (t / 1000000), value-padded 6 (t % 1000000));
      short = omega (arith, ap length text, fits);
    }

-- As documented, for times before the year 10000.
pub record IsGmtime (gmtime : ℕ → Tm) : Type 0 where
  pub year : (s : ℕ) → s < 253402300800 → (gmtime s).tm_year + 1900 < 10000
  pub mon : (s : ℕ) → s < 253402300800 → (gmtime s).tm_mon < 12
  pub mday : (s : ℕ) → s < 253402300800 → (gmtime s).tm_mday < 32
  pub min : (s : ℕ) → s < 253402300800 → (gmtime s).tm_min < 60
  pub sec : (s : ℕ) → s < 253402300800 → (gmtime s).tm_sec < 60
  pub clock :
      (s : ℕ)
      → s < 253402300800
      → (gmtime s).tm_hour * 3600 + (gmtime s).tm_min * 60 + (gmtime s).tm_sec ≡ s % 86400

-- `n` in `w` digits.
pub record IsNumber (w n : ℕ) (text : List ℕ) : Type 0 where
  pub are_digits : AreDigits text
  pub width : length text ≡ w
  pub stands_for : value text ≡ n

padded-IsNumber : (k n : ℕ) → n < 10 ^ suc k → IsNumber (suc k) n (padded (suc k) n)
padded-IsNumber k n h = record {
  are_digits = padded-AreDigits (suc k) n;
  width = length-padded k n h;
  stands_for = value-padded (suc k) n;
}

spaced-IsNumber : (n : ℕ) → 1000 ≤ n → n < 10000 → IsNumber 4 n (spaced 4 n)
spaced-IsNumber n ge lt =
    let width : length (decimal n) ≡ 4 =
      omega
        (arith, length-decimal 3 n (omega (arith, lt)), decimal-length 3 n (omega (arith, ge))) in
    rw width
      (record { are_digits = decimal-AreDigits n; width = width; stands_for = value-decimal n })

-- The date of `tm`, and a clock that stands for the time of the day.
pub record IsStamp (tm : Tm) (t : ℕ) (text : List ℕ) : Type 0 where
  pub year : List ℕ
  pub month : List ℕ
  pub day : List ℕ
  pub hours : List ℕ
  pub minutes : List ℕ
  pub seconds : List ℕ
  pub fraction : List ℕ
  pub parts :
      text ≡ (year ++ month ++ day) ++ 32 ∷ (hours ++ 58 ∷ minutes ++ 58 ∷ seconds) ++ 46 ∷ fraction
  pub year_of : IsNumber 4 (tm.tm_year + 1900) year
  pub month_of : IsNumber 2 (tm.tm_mon + 1) month
  pub day_of : IsNumber 2 tm.tm_mday day
  pub widths :
      (length hours ≡ 2) × (length minutes ≡ 2) × (length seconds ≡ 2) × (length fraction ≡ 6)
  pub time_of_day :
      (value hours * 3600 + value minutes * 60 + value seconds) * 1000000 + value fraction
      ≡ t % 86400000000
  pub short : length text ≡ 24

IsNumber-HasNoNul : {w n : ℕ} (text : List ℕ) → IsNumber w n text → HasNoNul text
IsNumber-HasNoNul text v = digits-HasNoNul text v.are_digits

-- A text of texts has the sum of their lengths, and no NUL.
stamp_lem :
    (y mo d hr mi se fr : List ℕ) (ny nmo nd nhr nmi nse nfr : ℕ)
    → IsNumber 4 ny y
    → IsNumber 2 nmo mo
    → IsNumber 2 nd d
    → IsNumber 2 nhr hr
    → IsNumber 2 nmi mi
    → IsNumber 2 nse se
    → IsNumber 6 nfr fr
    → let text = (y ++ mo ++ d) ++ 32 ∷ (hr ++ 58 ∷ mi ++ 58 ∷ se) ++ 46 ∷ fr in
      (length text ≡ 24) × HasNoNul text
stamp_lem y mo d hr mi se fr _ _ _ _ _ _ _ vy vmo vd vhr vmi vse vfr = (
  omega (
    arith,
    length-append (y ++ mo ++ d ++ 32 ∷ (hr ++ 58 ∷ mi ++ 58 ∷ se)) (46 ∷ fr),
    length-append (y ++ mo ++ d) (32 ∷ (hr ++ 58 ∷ mi ++ 58 ∷ se)),
    length-append (y ++ mo) d,
    length-append y mo,
    length-append (hr ++ 58 ∷ mi) (58 ∷ se),
    length-append hr (58 ∷ mi),
    vy.width,
    vmo.width,
    vd.width,
    vhr.width,
    vmi.width,
    vse.width,
    vfr.width,
  ),
  append-HasNoNul (y ++ mo ++ d ++ 32 ∷ (hr ++ 58 ∷ mi ++ 58 ∷ se)) (46 ∷ fr)
      (append-HasNoNul (y ++ mo ++ d) (32 ∷ (hr ++ 58 ∷ mi ++ 58 ∷ se))
        (append-HasNoNul (y ++ mo) d
          (append-HasNoNul y mo (IsNumber-HasNoNul y vy) (IsNumber-HasNoNul mo vmo))
          (IsNumber-HasNoNul d vd))
        (
          omega arith,
          append-HasNoNul (hr ++ 58 ∷ mi) (58 ∷ se)
              (append-HasNoNul hr (58 ∷ mi) (IsNumber-HasNoNul hr vhr)
                (omega arith, IsNumber-HasNoNul mi vmi))
              (omega arith, IsNumber-HasNoNul se vse),
        ))
      (omega arith, IsNumber-HasNoNul fr vfr),
)

-- With a `gmtime_r` as documented, for every time after the Epoch and before the year 10000:
-- `toFormattedString` has 24 characters and is not cut; they are the year, month and day of
-- `gmtime_r` in digits, a space, two digits each for hours, minutes and seconds with colons between
-- them, a dot and six digits, and the clock stands for the time since midnight.
pub to_formatted_string-IsStamp :
    (gmtime : ℕ → Tm) (t : ℕ)
    → IsGmtime gmtime
    → t < 253402300800 * 1000000
    → IsStamp (gmtime (t / 1000000)) t (to_formatted_string gmtime t)
unfolding to_formatted_string
to_formatted_string-IsStamp gmtime t v h =
    let s = t / 1000000 in
    let tm = gmtime s in
    let hs : s < 253402300800 = omega (arith, h) in
    let clock = v.clock s hs in
    let y = spaced-IsNumber (tm.tm_year + 1900) (omega arith) (v.year s hs) in
    let mo = padded-IsNumber 1 (tm.tm_mon + 1) (omega (arith, v.mon s hs)) in
    let d = padded-IsNumber 1 tm.tm_mday (omega (arith, v.mday s hs)) in
    let hr = padded-IsNumber 1 tm.tm_hour (omega (arith, clock)) in
    let mi = padded-IsNumber 1 tm.tm_min (omega (arith, v.min s hs)) in
    let se = padded-IsNumber 1 tm.tm_sec (omega (arith, v.sec s hs)) in
    let fr = padded-IsNumber 5 (t % 1000000) (omega arith) in
    let text = date_text tm ++ 32 ∷ clock_text tm ++ 46 ∷ padded 6 (t % 1000000) in
    let (long, no_nul) = stamp_lem _ _ _ _ _ _ _ _ _ _ _ _ _ _ y mo d hr mi se fr in
    let whole : to_formatted_string gmtime t ≡ text =
      c_string-snprintf 64 text (omega (arith, long)) no_nul in
    record {
      year = spaced 4 (tm.tm_year + 1900);
      month = padded 2 (tm.tm_mon + 1);
      day = padded 2 tm.tm_mday;
      hours = padded 2 tm.tm_hour;
      minutes = padded 2 tm.tm_min;
      seconds = padded 2 tm.tm_sec;
      fraction = padded 6 (t % 1000000);
      parts = whole;
      year_of = y;
      month_of = mo;
      day_of = d;
      widths = (hr.width, mi.width, se.width, fr.width);
      time_of_day =
          omega (arith, hr.stands_for, mi.stands_for, se.stands_for, fr.stands_for, clock);
      short = ap length whole ∙ long;
    }
