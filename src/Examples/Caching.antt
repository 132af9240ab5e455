-- ===== src/Examples/Caching.antt =====
-- A Redis server with one key, and a codec for the empty list.
use Prim.Native.Char.{Char}
use mathlib.Core.List.{Memᴰ}
use strike_reserve.Base.{
  zero, suc, sym, ap, some_inj, arith, Bool-cases, inl, inr, ℕ, String, refl, ◌≡◌, List, [], ◌∷◌,
  Option, none, some, str_eq, eq_iff, if◌then◌else◌, true,
}
use strike_reserve.Models.{Slot}
use strike_reserve.World.{SlotCacheKey}
use strike_reserve.Redis.{RedisClient, Json, key_to_string, get, set}
use strike_reserve.Redis.Laws.{HoldsSet, IsCodec, Uses, blank, was_set, was_read, get-Set}
use strike_reserve.Redis.Keys.{no_colon, IsKeyText}

abbrev OneKey : Type 0
OneKey = Option (String × String)

abbrev find : String → OneKey → Option String
find k none = none
find k (some (l, v)) = if str_eq l k then some v else none

abbrev client : RedisClient OneKey
client = record { get = λ k r. (find k r, r); set = λ k v r. some (k, v); del = λ k r. none }

abbrev write : List Slot → Option String
write [] = some "[]"
write (s ∷ slots) = none

abbrev json : Json
json = record { marshal = write; unmarshal = λ text. some [] }

client-HoldsSet : HoldsSet client
client-HoldsSet = record {
  set_only = λ key k v text r h. elim (Bool-cases (str_eq key k)) [
    | inl e ↦ inl (sym ((eq_iff key k).0 e), sym (some_inj (rw e at h)))
    | inr e ↦ absurd (cc (rw e at h))
  ];
  del_only = λ key k text r h. absurd (cc h);
  get_only = λ key k text r h. h;
}

json-IsCodec : IsCodec json
unfolding IsCodec
json-IsCodec [] text h = refl
json-IsCodec (s ∷ slots) text h = absurd (cc h)

abbrev pub stroke : Char
stroke = "1"

-- Numbers as strokes.
unfoldable pub strokes : ℕ → String
strokes zero = ""
strokes (suc n) = String.◌∷◌ stroke (strokes n)

strokes-colon_free : (n : ℕ) → no_colon (strokes n) ≡ true
unfolding strokes
strokes-colon_free zero = refl
strokes-colon_free (suc n) = ground (arith, strokes-colon_free n)

abbrev rest : String → String
rest String.[] = String.[]
rest (String.◌∷◌ c s) = s

strokes_inj : (m n : ℕ) → strokes m ≡ strokes n → m ≡ n
unfolding strokes
strokes_inj zero zero e = refl
strokes_inj zero (suc n) e = absurd (cc e)
strokes_inj (suc m) zero e = absurd (cc e)
strokes_inj (suc m) (suc n) e = ap suc (strokes_inj m n (ap rest e))

strokes-IsKeyText : IsKeyText strokes strokes
strokes-IsKeyText = record {
  colon_free = strokes-colon_free;
  ids = strokes_inj;
  dates = strokes_inj;
}

abbrev key : SlotCacheKey
key = record { lane_id = 3; date = 2 }

abbrev other_key : SlotCacheKey
other_key = record { lane_id = 3; date = 4 }

abbrev entry : SlotCacheKey × List Slot
entry = (key, [])

abbrev text_of : SlotCacheKey → String
text_of = key_to_string strokes strokes

abbrev after_set : OneKey
unfolding set
after_set = set client json text_of key [] none

abbrev after_read : OneKey
unfolding get
after_read = (get client json text_of other_key after_set).1

used : Uses client json strokes strokes (entry ∷ []) after_read
unfolding after_set after_read
used = was_read _ _ other_key (was_set [] none key [] (blank none (λ k. refl)))

get-Set_example : Memᴰ entry (entry ∷ [])
unfolding after_set after_read set get key_to_string strokes
get-Set_example =
    get-Set client json strokes strokes (entry ∷ []) after_read key [] client-HoldsSet json-IsCodec
      strokes-IsKeyText used refl
