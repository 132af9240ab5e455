-- ===== src/Redis/Keys.antt =====
-- That the keys of app/internal/app/di.go tell lanes and days apart: an identifier's text has no colon.
use Prim.Native.Char.{Char, code}
use Prim.Native.String.{◌++◌}
use text.Mathlib.TextLemmas.{append_cancel_left, nil-append, cons-append}
use text.Mathlib.TextEquality.{Char-path}
use strike_reserve.Base.{ℕ, ◌≡◌, refl, sym, ap, ◌∙◌, String, Bool, true, not, ◌&&◌, ◌==◌, arith}
use strike_reserve.World.{SlotCacheKey}
use strike_reserve.Redis.{key_to_string}

abbrev pub no_colon : String → Bool
no_colon String.[] = true
no_colon (String.◌∷◌ c s) = not (code c == b':') && no_colon s

abbrev head : String → ℕ
head String.[] = 0
head (String.◌∷◌ c s) = code c

abbrev tail : String → String
tail String.[] = String.[]
tail (String.◌∷◌ c s) = s

head-append : (c : Char) (s t : String) → head (String.◌∷◌ c s ++ t) ≡ code c
head-append c s t = ap head (cons-append c s t)

tail-append : (c : Char) (s t : String) → tail (String.◌∷◌ c s ++ t) ≡ s ++ t
tail-append c s t = ap tail (cons-append c s t)

abbrev colon_char : Char
colon_char = ":"

-- A text behind a colon does not begin with another character.
starts_with_colon :
    (c : Char) (s t b : String)
    → no_colon (String.◌∷◌ c s) ≡ true
    → ":" ++ b ≡ String.◌∷◌ c s ++ t
    → ⊥
starts_with_colon c s t b h e =
    let colon : code c ≡ b':' =
      sym (head-append c s t) ∙ sym (ap head e) ∙ head-append colon_char String.[] b in
    absurd (ground (arith, colon, h))

colon_split :
    (a a' b b' : String)
    → no_colon a ≡ true
    → no_colon a' ≡ true
    → a ++ (":" ++ b) ≡ a' ++ (":" ++ b')
    → (a ≡ a') × (b ≡ b')
colon_split String.[] String.[] b b' h k e =
    (refl, append_cancel_left ":" b b' (append_cancel_left "" _ _ e))
colon_split String.[] (String.◌∷◌ c s) b b' h k e =
    absurd (starts_with_colon c s _ b k (sym (nil-append _) ∙ e))
colon_split (String.◌∷◌ c s) String.[] b b' h k e =
    absurd (starts_with_colon c s _ b' h (sym (nil-append _) ∙ sym e))
colon_split (String.◌∷◌ c s) (String.◌∷◌ c' s') b b' h k e =
    let first = Char-path c c' (sym (head-append c s _) ∙ ap head e ∙ head-append c' s' _) in
    let (rest, after) =
      colon_split s s' b b' (ground (arith, h)) (ground (arith, k))
        (sym (tail-append c s _) ∙ ap tail e ∙ tail-append c' s' _) in
    ((λ i. String.◌∷◌ (first i) (rest i)), after)

-- The texts of identifiers have no colon, and those of identifiers and days are different for
-- different ones.
pub record IsKeyText (id_text date_text : ℕ → String) : Type 0 where
  pub colon_free : (n : ℕ) → no_colon (id_text n) ≡ true
  pub ids : (m n : ℕ) → id_text m ≡ id_text n → m ≡ n
  pub dates : (m n : ℕ) → date_text m ≡ date_text n → m ≡ n

-- Different keys have different texts.
pub key_to_string_inj :
    (id_text date_text : ℕ → String) (k l : SlotCacheKey)
    → IsKeyText id_text date_text
    → key_to_string id_text date_text k ≡ key_to_string id_text date_text l
    → k ≡ l
unfolding key_to_string
key_to_string_inj id_text date_text k l t e =
    let (ids, dates) =
      colon_split (id_text k.lane_id) (id_text l.lane_id) (date_text k.date) (date_text l.date)
        (t.colon_free k.lane_id) (t.colon_free l.lane_id) (append_cancel_left "slots:" _ _ e) in
    let lane = t.ids k.lane_id l.lane_id ids in
    let date = t.dates k.date l.date dates in λ i. record { lane_id = lane i; date = date i }
