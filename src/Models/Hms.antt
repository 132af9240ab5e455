-- ===== src/Models/Hms.antt =====
-- app/internal/models/time.go: times of day as text, "HH:MM:SS". A text is its bytes.
-- `parse_hms` is `time.Parse` at the layout "15:04:05", of which the program reads hour and minute.
pub mod RoundTrip
use strike_reserve.Base.{
  ℕ, ◌+◌, ◌-◌, ◌*◌, ◌/◌, ◌%◌, Bool, true, false, ◌&&◌, ◌||◌, List, [], ◌∷◌, ◌++◌, Option, none,
  some, take, length, ltb, leb, ◌==◌, if◌then◌else◌,
}

abbrev pub Text : Type 0
Text = List ℕ

pub record TimeOfDay : Type 0 where
  pub hour : ℕ
  pub minute : ℕ
  pub second : ℕ

-- hm + ":00"
unfoldable pub from_hm_to_hms : Text → Text
from_hm_to_hms hm = hm ++ b':' ∷ b'0' ∷ b'0' ∷ []

-- string(t)[:5]; `none` is the panic on a shorter text.
unfoldable pub hm_time : Text → Option Text
hm_time t = if ltb (length t) 5 then none else some (take 5 t)

is_digit : ℕ → Bool
is_digit c = leb b'0' c && leb c b'9'

abbrev Number : Type 0
Number = Option (ℕ × Text)

abbrev digit : ℕ → ℕ
digit c = c - b'0'

-- The hour has one digit or two, minute and second have two.
one_or_two : Text → Number
unfolding is_digit
one_or_two [] = none
one_or_two (a ∷ []) = if is_digit a then some (digit a, []) else none
one_or_two (a ∷ b ∷ rest) =
    if is_digit a
    then if is_digit b then some (digit a * 10 + digit b, rest) else some (digit a, b ∷ rest)
    else none

two : Text → Number
unfolding is_digit
two (a ∷ b ∷ rest) = if is_digit a && is_digit b then some (digit a * 10 + digit b, rest) else none
two _ = none

colon : Text → Option Text
colon [] = none
colon (c ∷ rest) = if c == b':' then some rest else none

all_digits : Text → Bool
unfolding is_digit
all_digits [] = true
all_digits (c ∷ rest) = is_digit c && all_digits rest

-- Behind the seconds may stand a fraction, and nothing else.
fraction : Text → Bool
unfolding is_digit all_digits
fraction [] = true
fraction (c ∷ []) = false
fraction (c ∷ d ∷ rest) = (c == b'.' || c == b',') && is_digit d && all_digits rest

infixl 5 ◌>>=◌ ◌>>◌
abbrev ◌>>=◌ {ℓ κ} : {A : Type ℓ} {B : Type κ} → Option A → (A → Option B) → Option B
none >>= k = none
some a >>= k = k a

abbrev ◌>>◌ {ℓ} : {B : Type ℓ} → Option (Unit {0}) → Option B → Option B
m >> k = m >>= λ _. k

abbrev guard : Bool → Option (Unit {0})
guard true = some tt
guard false = none

unfoldable pub parse_hms : Text → Option TimeOfDay
unfolding one_or_two two colon fraction
parse_hms t = do
  (h, t1) ← one_or_two t
  guard (ltb h 24)
  t2 ← colon t1
  (m, t3) ← two t2
  guard (ltb m 60)
  t4 ← colon t3
  (s, t5) ← two t4
  guard (ltb s 60)
  guard (fraction t5)
  some (record { hour = h; minute = m; second = s })

-- The callers drop the error: the zero time has hour and minute 0.
unfoldable pub time_or_zero : Text → TimeOfDay
unfolding parse_hms
time_or_zero t = elim (parse_hms t) [
  | none ↦ record { hour = 0; minute = 0; second = 0 }
  | some r ↦ r
]

-- What the database driver hands to `Scan`.
pub data Scanned : Type 0 where
  null : Scanned
  time : TimeOfDay → Scanned
  string : Text → Scanned
  bytes : Text → Scanned
  other : Scanned

pad2 : ℕ → Text
pad2 n = (b'0' + n / 10) ∷ (b'0' + n % 10) ∷ []

-- v.Format("15:04:05")
unfoldable pub format_hms : TimeOfDay → Text
unfolding pad2
format_hms t = pad2 t.hour ++ b':' ∷ pad2 t.minute ++ b':' ∷ pad2 t.second

clip : Text → Text
clip v = if ltb 8 (length v) then take 8 v else v

-- `none` is the error on a value of another type.
unfoldable pub scan : Scanned → Option Text
unfolding format_hms clip
scan null = some []
scan (time v) = some (format_hms v)
scan (string v) = some (clip v)
scan (bytes v) = some (clip v)
scan other = none

-- `none` is SQL's NULL.
unfoldable pub value : Text → Option Text
value [] = none
value (c ∷ t) = some (c ∷ t)
