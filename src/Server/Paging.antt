-- ===== src/Server/Paging.antt =====
-- The replies of GetBookingsList of app/internal/handler/handler.go, by its parameters.
use strike_reserve.Base.{
  List, [], map, length, ltb, ℕ, suc, ◌+◌, ◌-◌, ◌*◌, ◌%◌, ◌≤◌, ◌<◌, ◌≡◌, refl, sym, false, ◌∙◌,
  Bool, true, false, ◌||◌, Option, none, some, leb, str_eq, if◌then◌else◌, arith, Bool-cases, inl,
  inr,
}
use strike_reserve.Base.Int.{ℤ, pos, negsuc, to_u64, to_int, pred_u64, u64_mod}
use strike_reserve.Models.{Claims, Booking, role_admin}
use strike_reserve.World.{World}
use strike_reserve.Exec.{◌>>=◌, query, query_rows_unchecked}
use strike_reserve.Repository.Bookings
use strike_reserve.Repository.Bookings.{page_of}
use strike_reserve.Handler.Api.{
  Response, reply, failure, BookingPage, to_api_booking, invalid_request, msg_invalid_page,
  msg_invalid_page_size,
}
use strike_reserve.Repository.Sql.{bigint_end}
use strike_reserve.Service.Bookings as Service
use strike_reserve.Handler.Bookings.{
  PageConfig, get_bookings_list, page_refused, page_size_refused, param_or,
}
use strike_reserve.Server.{Server}

-- Whether the server refuses the numbers that are sent as LIMIT and OFFSET.
abbrev pub out_of_bounds : ℕ → ℕ → Bool
out_of_bounds size page = leb bigint_end size || leb bigint_end (pred_u64 page * size % u64_mod)

-- A page before the least one. A negative page is none: it is read as a number near 2^64.
abbrev pub page_below : ℕ → Option ℤ → Bool
page_below least none = false
page_below least (some (pos n)) = ltb n least
page_below least (some (negsuc n)) = false

abbrev pub size_outside : ℕ → ℕ → Option ℤ → Bool
size_outside least most none = false
size_outside least most (some (pos n)) = ltb most n || ltb n least
size_outside least most (some (negsuc n)) = true

-- An int of Go.
abbrev pub IsInt : Option ℤ → Type 0
IsInt none = Unit
IsInt (some (pos n)) = n < bigint_end
IsInt (some (negsuc n)) = n < bigint_end

-- The page that is shown: none of it, where the server refuses its numbers.
abbrev pub shown : ℕ → ℕ → List Booking → List Booking
shown size page rows =
    if out_of_bounds size page then [] else page_of size (pred_u64 page * size % u64_mod) rows

abbrev pub page_reply : ℕ → ℕ → List Booking → Response BookingPage
page_reply size page rows = reply 200 (record {
  bookings = map to_api_booking (shown size page rows);
  pagination = record { page = to_int page; page_size = to_int size; total = to_int (length rows) };
})

unfoldable pub list_reply : PageConfig → Option ℤ → Option ℤ → List Booking → Response BookingPage
unfolding pred_u64 to_u64 to_int page_of to_api_booking
list_reply c page size rows =
    if page_below c.min_page page
    then failure 400 invalid_request msg_invalid_page
    else if size_outside c.min_page_size c.max_page_size size
    then failure 400 invalid_request msg_invalid_page_size
    else page_reply (param_or c.default_page_size size) (param_or c.default_page page) rows

page_refused-below :
    (c : PageConfig) (page : Option ℤ)
    → c.min_page ≤ bigint_end
    → IsInt page
    → page_refused c page ≡ page_below c.min_page page
unfolding to_u64
page_refused-below c none m h = refl
page_refused-below c (some (pos n)) m h = ground arith
page_refused-below c (some (negsuc n)) m h = ground arith

page_size_refused-outside :
    (c : PageConfig) (size : Option ℤ)
    → c.max_page_size < bigint_end
    → IsInt size
    → page_size_refused c size ≡ size_outside c.min_page_size c.max_page_size size
unfolding to_u64
page_size_refused-outside c none m h = refl
page_size_refused-outside c (some (pos n)) m h = ground arith
page_size_refused-outside c (some (negsuc n)) m h = ground arith

-- A negative page as uint64, less one, times a size, as the product wraps around.
together : (d k m size : ℕ) → d + k ≡ m → d * size + k * size ≡ m * size
together d k m size h = rw (sym h) (grind arith)

wraps :
    (n size : ℕ)
    → n + 2 ≤ u64_mod
    → 0 < size
    → (n + 2) * size ≤ bigint_end
    → leb bigint_end ((u64_mod - 2 - n) * size % u64_mod) ≡ true
wraps n size b h k =
    let e = together (u64_mod - 2 - n) (n + 2) u64_mod size (omega arith) in
    wraps_by ((u64_mod - 2 - n) * size) ((n + 2) * size) size h (grind arith) k e
  where
    wraps_by :
        (x a s : ℕ)
        → 0 < s
        → 0 < a
        → a ≤ bigint_end
        → x + a ≡ u64_mod * s
        → leb bigint_end (x % u64_mod) ≡ true
    wraps_by x a s h p k e = ground arith

pred_negative : (n : ℕ) → n < bigint_end → pred_u64 (to_u64 (negsuc n)) ≡ u64_mod - 2 - n
unfolding pred_u64 to_u64
pred_negative n h = omega arith

-- What a negative page comes to: not 400, but an offset that the server refuses, and so no booking.
negative_shown :
    (c : PageConfig) (n size : ℕ) (rows : List Booking)
    → n < bigint_end
    → 0 < size
    → (n + 2) * size ≤ bigint_end
    → shown size (param_or c.default_page (some (negsuc n))) rows ≡ []
negative_shown c n size rows b h k =
    let past = wraps n size (omega arith) h k in
    rw (pred_negative n b, past) (refused (leb bigint_end size))
  where
    refused :
        (b : Bool)
        → if◌then◌else◌ {A = List Booking}
            (b || true)
            []
            (page_of size ((u64_mod - 2 - n) * size % u64_mod) rows)
          ≡ []
    refused true = refl
    refused false = refl

-- The reply by the tests of the handler.
abbrev tested : PageConfig → Option ℤ → Option ℤ → List Booking → Response BookingPage
tested c page size rows =
    if page_refused c page
    then failure 400 invalid_request msg_invalid_page
    else if page_size_refused c size
    then failure 400 invalid_request msg_invalid_page_size
    else page_reply (param_or c.default_page_size size) (param_or c.default_page page) rows

tested-list_reply :
    (c : PageConfig) (page size : Option ℤ) (rows : List Booking)
    → c.min_page ≤ bigint_end
    → c.max_page_size < bigint_end
    → IsInt page
    → IsInt size
    → tested c page size rows ≡ list_reply c page size rows
unfolding list_reply
tested-list_reply c page size rows m n h k =
    rw (page_refused-below c page m h, page_size_refused-outside c size n k) refl

module _ {C : Type 0} (s : Server C) where
  handler-tested :
      (user : Claims) (page size : Option ℤ) (w : World C)
      → str_eq user.role role_admin ≡ true
      → s.env.fault w.ticks ≡ none
      → s.env.fault (suc w.ticks) ≡ none
      → (get_bookings_list s.env s.pages (some user) page size w).0
        ≡ tested s.pages page size w.db.bookings
  unfolding get_bookings_list Service.get_list Bookings.get_list Bookings.list_statement ◌>>=◌ query
      query_rows_unchecked
  handler-tested user page size w role f g = elim (Bool-cases (page_refused s.pages page)) [
    | inl a ↦ rw (role, a) refl
    | inr a ↦ elim (Bool-cases (page_size_refused s.pages size)) [
      | inl b ↦ rw (role, a, b) refl
      | inr b ↦
          elim (Bool-cases (
            out_of_bounds (param_or s.pages.default_page_size size)
              (param_or s.pages.default_page page))) [
                | inl c ↦ rw (role, a, b, f, g, c) refl
                | inr c ↦ rw (role, a, b, f, g, c) refl
              ]
    ]
  ]

  -- An administrator's request for a page is answered 400 where the page is not negative and before
  -- the least one, or the size is negative or out of its bounds. Else it is answered 200 with the
  -- number of all bookings and those of the page, or none of them where the server refuses the offset
  -- or the limit that page and size come to; if no statement fails, the bounds of the configuration
  -- are those of an int, and so are the parameters.
  pub list_bookings_reply :
      (user : Claims) (page size : Option ℤ) (w : World C)
      → str_eq user.role role_admin ≡ true
      → s.env.fault w.ticks ≡ none
      → s.env.fault (suc w.ticks) ≡ none
      → s.pages.min_page ≤ bigint_end
      → s.pages.max_page_size < bigint_end
      → IsInt page
      → IsInt size
      → (get_bookings_list s.env s.pages (some user) page size w).0
        ≡ list_reply s.pages page size w.db.bookings
  list_bookings_reply user page size w role f g m n h k =
      handler-tested user page size w role f g
      ∙ tested-list_reply s.pages page size w.db.bookings m n h k
