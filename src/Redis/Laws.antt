-- ===== src/Redis/Laws.antt =====
-- Where the lists come from that app/internal/cache/redis.go hands out, by what the client documents.
use mathlib.Core.List.{Memᴰ}
use strike_reserve.Base.{
  [], ◌∷◌, ℕ, ◌≡◌, ◌⊎◌, inl, inr, refl, sym, ap, some_inj, ◌∙◌, String, List, Option, none, some,
  arith,
}
use strike_reserve.Models.{Slot}
use strike_reserve.World.{SlotCacheKey}
use strike_reserve.Redis.{RedisClient, Json, get, set, delete, decoded, sent, key_to_string}
use strike_reserve.Redis.Keys.{IsKeyText, key_to_string_inj}

-- What was encoded is decoded.
unfoldable pub IsCodec : Json → Type 0
IsCodec json =
    (slots : List Slot) (text : String)
    → json.marshal slots ≡ some text
    → json.unmarshal text ≡ some slots

-- Under a key the client has what was set last, or what was there, or nothing: a command may fail, and
-- its error is dropped. Deleting brings nothing, whether it succeeds or not, and neither does reading.
pub record HoldsSet {R : Type 0} (client : RedisClient R) : Type 0 where
  pub set_only :
      (key k v text : String) (r : R)
      → (client.get k (client.set key v r)).0 ≡ some text
      → ((k ≡ key) × (text ≡ v)) ⊎ ((client.get k r).0 ≡ some text)
  pub del_only :
      (key k text : String) (r : R)
      → (client.get k (client.del key r)).0 ≡ some text
      → (client.get k r).0 ≡ some text
  pub get_only :
      (key k text : String) (r : R)
      → (client.get k (client.get key r).1).0 ≡ some text
      → (client.get k r).0 ≡ some text

module _ {R : Type 0} (client : RedisClient R) (json : Json) (id_text date_text : ℕ → String) where
  abbrev text_of : SlotCacheKey → String
  text_of = key_to_string id_text date_text

  -- A list that is read is a text that is stored, decoded.
  stored :
      (key : SlotCacheKey) (l : List Slot) (r : R)
      → (get client json text_of key r).0 ≡ some l
      → (text : String) × ((client.get (text_of key) r).0 ≡ some text)
        × (json.unmarshal text ≡ some l)
  unfolding get
  stored key l r h = by (client.get (text_of key) r) refl h
    where
      by :
          (x : Option String × R)
          → client.get (text_of key) r ≡ x
          → (decoded client json text_of x).0 ≡ some l
          → (text : String) × ((client.get (text_of key) r).0 ≡ some text)
            × (json.unmarshal text ≡ some l)
      by (none, r') e k = absurd (cc k)
      by (some text, r') e k = (text, ap (λ y. y.0) e, k)

  read :
      (key : SlotCacheKey) (l : List Slot) (text : String) (r : R)
      → (client.get (text_of key) r).0 ≡ some text
      → json.unmarshal text ≡ some l
      → (get client json text_of key r).0 ≡ some l
  unfolding get
  read key l text r h k = ground arith

  -- What reading does to the server.
  get-state :
      (key : SlotCacheKey) (r : R)
      → (get client json text_of key r).1 ≡ (client.get (text_of key) r).1
  unfolding get
  get-state key r = state (client.get (text_of key) r)
    where
      state : (x : Option String × R) → (decoded client json text_of x).1 ≡ x.1
      state (none, r') = refl
      state (some text, r') = refl

  set-only :
      (key k : SlotCacheKey) (slots l : List Slot) (r : R)
      → HoldsSet client
      → IsCodec json
      → IsKeyText id_text date_text
      → (get client json text_of k (set client json text_of key slots r)).0 ≡ some l
      → ((k ≡ key) × (l ≡ slots)) ⊎ ((get client json text_of k r).0 ≡ some l)
  unfolding set IsCodec
  set-only key k slots l r c j t h =
      let (text, there, decodes) = stored k l (set client json text_of key slots r) h in
      by (json.marshal slots) refl text there decodes
    where
      by :
          (o : Option String)
          → json.marshal slots ≡ o
          → (text : String)
          → (client.get (text_of k) (sent client json text_of key o r)).0 ≡ some text
          → json.unmarshal text ≡ some l
          → ((k ≡ key) × (l ≡ slots)) ⊎ ((get client json text_of k r).0 ≡ some l)
      by none m text there decodes = inr (read k l text r there decodes)
      by (some v) m text there decodes =
          elim (c.set_only (text_of key) (text_of k) v text r there) [
            | inl (x, y) ↦ inl (
              key_to_string_inj id_text date_text k key t x,
              some_inj (sym decodes ∙ ap json.unmarshal y ∙ j slots v m),
            )
            | inr x ↦ inr (read k l text r x decodes)
          ]

  -- The states of the server after calls of the cache, beside all the lists that were set, the last one
  -- first. Between calls, time and other clients may take keys away.
  pub data Uses : List (SlotCacheKey × List Slot) → R → Type 0 where
    blank : (r : R) → ((k : String) → (client.get k r).0 ≡ none) → Uses [] r
    was_set :
        (history : List (SlotCacheKey × List Slot)) (r : R) (key : SlotCacheKey) (slots : List Slot)
        → Uses history r
        → Uses ((key, slots) ∷ history) (set client json text_of key slots r)
    was_deleted :
        (history : List (SlotCacheKey × List Slot)) (r : R) (key : SlotCacheKey)
        → Uses history r
        → Uses history (delete client json text_of key r)
    was_read :
        (history : List (SlotCacheKey × List Slot)) (r : R) (key : SlotCacheKey)
        → Uses history r
        → Uses history (get client json text_of key r).1
    expired :
        (history : List (SlotCacheKey × List Slot)) (r r' : R)
        → ((k text : String) → (client.get k r').0 ≡ some text → (client.get k r).0 ≡ some text)
        → Uses history r
        → Uses history r'

  -- What is read from the server after a change was there before.
  carried :
      (key : SlotCacheKey) (l : List Slot) (r r' : R)
      → ((text : String)
          → (client.get (text_of key) r').0 ≡ some text
          → (client.get (text_of key) r).0 ≡ some text)
      → (get client json text_of key r').0 ≡ some l
      → (get client json text_of key r).0 ≡ some l
  carried key l r r' f h =
      let (text, there, decodes) = stored key l r' h in read key l text r (f text there) decodes

  -- Whatever calls of the cache come in whatever order, from a server that has nothing, with keys that
  -- expire between them, and commands that fail: a list that is read under the key of a lane and a day
  -- is one that was set for this lane and this day; if the client has under a key what was set, the
  -- codec reads what it writes, identifiers' texts have no colon, and those of identifiers and days
  -- differ for different ones.
  pub get-Set :
      (history : List (SlotCacheKey × List Slot)) (r : R) (key : SlotCacheKey) (l : List Slot)
      → HoldsSet client
      → IsCodec json
      → IsKeyText id_text date_text
      → Uses history r
      → (get client json text_of key r).0 ≡ some l
      → Memᴰ (key, l) history
  unfolding delete
  get-Set _ r key l c j t (blank _ empty) h =
      let (text, there, decodes) = stored key l r h in
      absurd (cc (sym (empty (text_of key)) ∙ there))
  get-Set _ _ key l c j t (was_set history r k slots u) h =
      elim (set-only k key slots l r c j t h) [
        | inl (x, y) ↦ Memᴰ.head (λ i. (x i, y i))
        | inr x ↦ Memᴰ.tail (get-Set history r key l c j t u x)
      ]
  get-Set _ _ key l c j t (was_deleted history r k u) h = get-Set history r key l c j t u (
      carried key l r (delete client json text_of k r)
        (λ text x. c.del_only (text_of k) (text_of key) text r x) h)
  get-Set _ _ key l c j t (was_read history r k u) h = get-Set history r key l c j t u (
      carried key l r (get client json text_of k r).1
        (λ text x.
          c.get_only (text_of k) (text_of key) text r
            (sym (ap (λ y. (client.get (text_of key) y).0) (get-state k r)) ∙ x))
        h)
  get-Set _ _ key l c j t (expired history r r' less u) h =
      get-Set history r key l c j t u (carried key l r r' (less (text_of key)) h)
