-- ===== src/Screen/Dates.antt =====
-- The screen of the date, from the proxy's reply to what stands on the display.
use ikt104_eksamen_oppgave.Base.{
  ℕ, zero, suc, ◌<◌, ◌≤◌, ◌≡◌, refl, ap, ◌∙◌, arith, pos, List, [], ◌∷◌, ◌++◌, some, false, Bytes,
  codes, decimal, length, take, take_of_le, length-append, get_or, All,
}
use ikt104_eksamen_oppgave.Proxy.{InfoReply, info_body}
use ikt104_eksamen_oppgave.Alarm.{Alarm}
use ikt104_eksamen_oppgave.Info.{InfoData, parse_info}
use ikt104_eksamen_oppgave.Info.Reply.{IsSimpleReply, read_epoch-parse_info, length-digits_fuel}
use ikt104_eksamen_oppgave.Calendar.{
  DateTime, epoch_to_datetime, read_epoch, long_max, weekday_name, month_name,
}
use ikt104_eksamen_oppgave.Calendar.Spec.{IsDateTime, month_length, leap_days}
use ikt104_eksamen_oppgave.Calendar.Correct.{IsFor, epoch_to_datetime-IsFor}
use ikt104_eksamen_oppgave.Screen.{Lines, date_lines, epoch_date_lines, datetime_lines, is_empty}
use ikt104_eksamen_oppgave.Screen.Texts.{clock_digits, clock_text-clock_digits}

-- The three letters of a weekday, from Sunday as 0, and of a month, from January as 1.
abbrev pub weekdays : List Bytes
weekdays =
    codes "Sun"
    ∷ codes "Mon"
    ∷ codes "Tue"
    ∷ codes "Wed"
    ∷ codes "Thu"
    ∷ codes "Fri"
    ∷ codes "Sat"
    ∷ []

abbrev pub months : List Bytes
months =
    []
    ∷ codes "Jan"
    ∷ codes "Feb"
    ∷ codes "Mar"
    ∷ codes "Apr"
    ∷ codes "May"
    ∷ codes "Jun"
    ∷ codes "Jul"
    ∷ codes "Aug"
    ∷ codes "Sep"
    ∷ codes "Oct"
    ∷ codes "Nov"
    ∷ codes "Dec"
    ∷ []

-- A date and time as two lines.
abbrev pub lines_of : DateTime → Lines
lines_of t = (
  get_or weekdays t.wday [] ++ (b' ' ∷ decimal t.day ++ (b' ' ∷ get_or months t.month [])),
  clock_digits t.hour t.min t.sec,
)

weekday_name-take : (wd : ℕ) → wd < 7 → take 3 (weekday_name (pos wd)) ≡ get_or weekdays wd []
unfolding weekday_name
weekday_name-take zero h = refl
weekday_name-take (suc zero) h = refl
weekday_name-take (suc (suc zero)) h = refl
weekday_name-take (suc (suc (suc zero))) h = refl
weekday_name-take (suc (suc (suc (suc zero)))) h = refl
weekday_name-take (suc (suc (suc (suc (suc zero))))) h = refl
weekday_name-take (suc (suc (suc (suc (suc (suc zero)))))) h = refl
weekday_name-take (suc (suc (suc (suc (suc (suc (suc wd))))))) h = absurd (omega arith)

month_name-get_or : (m : ℕ) → 1 ≤ m → m ≤ 12 → month_name (pos m) ≡ get_or months m []
unfolding month_name
month_name-get_or zero low high = absurd (omega arith)
month_name-get_or (suc zero) low high = refl
month_name-get_or (suc (suc zero)) low high = refl
month_name-get_or (suc (suc (suc zero))) low high = refl
month_name-get_or (suc (suc (suc (suc zero)))) low high = refl
month_name-get_or (suc (suc (suc (suc (suc zero))))) low high = refl
month_name-get_or (suc (suc (suc (suc (suc (suc zero)))))) low high = refl
month_name-get_or (suc (suc (suc (suc (suc (suc (suc zero))))))) low high = refl
month_name-get_or (suc (suc (suc (suc (suc (suc (suc (suc zero)))))))) low high = refl
month_name-get_or (suc (suc (suc (suc (suc (suc (suc (suc (suc zero))))))))) low high = refl
month_name-get_or (suc (suc (suc (suc (suc (suc (suc (suc (suc (suc zero)))))))))) low high = refl
month_name-get_or (suc (suc (suc (suc (suc (suc (suc (suc (suc (suc (suc zero))))))))))) low high =
    refl
month_name-get_or (suc (suc (suc (suc (suc (suc (suc (suc (suc (suc (suc (suc zero)))))))))))) low
      high =
    refl
month_name-get_or (suc (suc (suc (suc (suc (suc (suc (suc (suc (suc (suc (suc (suc m)))))))))))))
      low high =
    absurd (omega arith)

-- What holds of the items and of the default holds of what is looked up.
get_or_of_All :
    {A : Type 0} (P : A → Type 0) (xs : List A) (i : ℕ) (d : A) → All P xs → P d → P (get_or xs i d)
get_or_of_All P [] i d h hd = hd
get_or_of_All P (x ∷ xs) zero d (h, hs) hd = h
get_or_of_All P (x ∷ xs) (suc i) d (h, hs) hd = get_or_of_All P xs i d hs hd

-- No name is longer than three letters.
Short : Bytes → Type 0
Short name = length name ≤ 3

get_or-Short : (names : List Bytes) (i : ℕ) → All Short names → Short (get_or names i [])
unfolding Short
get_or-Short names i h = get_or_of_All Short names i [] h (omega arith)

weekdays-Short : All Short weekdays
unfolding Short
weekdays-Short = omega arith

months-Short : All Short months
unfolding Short
months-Short = omega arith

month_length_lt : (y m : ℕ) → month_length y m < 100
unfolding month_length leap_days
month_length_lt y m = ground arith

length-decimal_two : (n : ℕ) → n < 100 → length (decimal n) ≤ 2
unfolding decimal
length-decimal_two n h = omega (arith, length-digits_fuel 1 n n [] (omega arith))

line_fits :
    (day month : Bytes) (number : Bytes)
    → length day ≤ 3
    → length month ≤ 3
    → length number ≤ 2
    → take 16 (day ++ (b' ' ∷ number ++ (b' ' ∷ month))) ≡ day ++ (b' ' ∷ number ++ (b' ' ∷ month))
line_fits day month number hday hmonth hd = take_of_le 16 _ (
    omega (
      arith,
      length-append day (b' ' ∷ number ++ (b' ' ∷ month)),
      length-append number (b' ' ∷ month),
    ))

-- Nothing of a date is cut off.
date_lines-lines_of : (t : DateTime) → IsDateTime t → t.wday < 7 → date_lines t ≡ lines_of t
unfolding Short
date_lines-lines_of t v week =
    unfold date_lines in
    (λ i. (
      (ap (λ text. take 16 text)
              (λ j.
                weekday_name-take t.wday week j
                ++ (b' ' ∷ decimal t.day
                    ++ (b' ' ∷ month_name-get_or t.month v.month_in.0 v.month_in.1 j)))
            ∙ line_fits (get_or weekdays t.wday []) (get_or months t.month []) (decimal t.day)
                (get_or-Short weekdays t.wday weekdays-Short)
                (get_or-Short months t.month months-Short)
                (length-decimal_two t.day
                  (omega (arith, v.day_in, month_length_lt t.year t.month))))
          i,
      ap (λ text. take 16 text)
          (clock_text-clock_digits t.hour t.min t.sec (omega (arith, v.hour_in))
            (omega (arith, v.min_in)) (omega (arith, v.sec_in)))
          i,
    ))

nonempty_of_read :
    (text : Bytes) (n : ℕ) → read_epoch 0 text ≡ some n → 1 ≤ n → is_empty text ≡ false
nonempty_of_read [] n e h = unfold read_epoch in ground arith
nonempty_of_read (c ∷ text) n e h = refl

datetime_lines_of_read :
    (s : Alarm) (info : InfoData) (n : ℕ)
    → read_epoch 0 info.unix_epoch ≡ some n
    → 1 ≤ n
    → datetime_lines s (some info) ≡ some (date_lines (epoch_to_datetime (pos n)))
unfolding datetime_lines epoch_date_lines
datetime_lines_of_read s info n e h = rw (nonempty_of_read info.unix_epoch n e h, e) refl

-- From a reply of the proxy whose strings are ordinary ASCII, with an epoch from 1 to the greatest
-- `long`, the screen of the date shows the weekday's three letters, the day and the month's three
-- letters, and below them the time of day in two digits each, of the one date and time that the
-- epoch stands for; nothing is cut off, and the loop over the digits does not overflow.
pub datetime_lines-parse_info :
    (r : InfoReply) (s : Alarm) (g : InfoData)
    → IsSimpleReply r
    → 1 ≤ r.unix_epoch
    → r.unix_epoch ≤ long_max
    → (t : DateTime) × IsFor r.unix_epoch t
      × (datetime_lines s (some (parse_info (info_body r) g)) ≡ some (lines_of t))
datetime_lines-parse_info r s g h low fits =
    let f : IsFor r.unix_epoch (epoch_to_datetime (pos r.unix_epoch)) =
      epoch_to_datetime-IsFor (pos r.unix_epoch) fits in
    (
      epoch_to_datetime (pos r.unix_epoch),
      f,
      datetime_lines_of_read s _ r.unix_epoch (read_epoch-parse_info r h g fits) low
          ∙ ap some (date_lines-lines_of _ f.date_time (omega (arith, f.weekday))),
    )
