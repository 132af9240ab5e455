-- ===== src/Models/Hms/RoundTrip.antt =====
-- Times of day of models/time.go: what is printed is read back.
use strike_reserve.Base.{
  ℕ, ◌+◌, ◌-◌, ◌*◌, ◌/◌, ◌%◌, ◌<◌, ◌≡◌, refl, ap, true, [], ◌∷◌, ◌++◌, some, ltb, arith,
}
use strike_reserve.Models.Hms.{
  Text, TimeOfDay, is_digit, one_or_two, two, pad2, parse_hms, format_hms, from_hm_to_hms, hm_time,
}

pad2-digits :
    (n : ℕ) → n < 100 → (is_digit (b'0' + n / 10) ≡ true) × (is_digit (b'0' + n % 10) ≡ true)
unfolding is_digit
pad2-digits n h = ground arith

pad2-value : (n : ℕ) → ((b'0' + n / 10) - b'0') * 10 + ((b'0' + n % 10) - b'0') ≡ n
pad2-value n = omega arith

one_or_two-pad2 : (n : ℕ) (rest : Text) → n < 100 → one_or_two (pad2 n ++ rest) ≡ some (n, rest)
unfolding one_or_two pad2
one_or_two-pad2 n rest h =
    let (a, b) = pad2-digits n h in rw (a, b) (ap (λ m. some (m, rest)) (pad2-value n))

two-pad2 : (n : ℕ) (rest : Text) → n < 100 → two (pad2 n ++ rest) ≡ some (n, rest)
unfolding two pad2
two-pad2 n rest h =
    let (a, b) = pad2-digits n h in rw (a, b) (ap (λ m. some (m, rest)) (pad2-value n))

-- A time of day in the ranges of hours, minutes and seconds is read back from its text.
parse_hms-format_hms :
    (t : TimeOfDay)
    → t.hour < 24
    → t.minute < 60
    → t.second < 60
    → parse_hms (format_hms t) ≡ some t
unfolding parse_hms format_hms
parse_hms-format_hms t h m s =
    let hour : ltb t.hour 24 ≡ true = ground arith in
    let minute : ltb t.minute 60 ≡ true = ground arith in
    let second : ltb t.second 60 ≡ true = ground arith in
    rw
      (
        one_or_two-pad2 t.hour _ (omega arith),
        hour,
        two-pad2 t.minute _ (omega arith),
        minute,
        two-pad2 t.second [] (omega arith),
        second,
      )
      refl

-- "HH:MM"
unfoldable pub display : ℕ → ℕ → Text
unfolding pad2
display hour minute = pad2 hour ++ b':' ∷ pad2 minute

-- A time of day from a request, as two digits for the hour and two for the minute, is shown again
-- as it was given, and is read as its hour and minute.
pub hm_round_trip :
    (hour minute : ℕ)
    → hour < 24
    → minute < 60
    → (hm_time (from_hm_to_hms (display hour minute)) ≡ some (display hour minute))
      × (parse_hms (from_hm_to_hms (display hour minute))
          ≡ some (record { hour = hour; minute = minute; second = 0 }))
unfolding display hm_time from_hm_to_hms pad2 format_hms
hm_round_trip hour minute h m = (
  refl,
  parse_hms-format_hms (record { hour = hour; minute = minute; second = 0 }) h m (omega arith),
)
