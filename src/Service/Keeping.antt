-- ===== src/Service/Keeping.antt =====
-- What the operations of app/internal/service do to a property of the tables that the statements keep.
use strike_reserve.Base.{ℕ, zero, suc, String, List, [], ◌∷◌, Option, none, some}
use strike_reserve.Models.{
  Slot, User, UserRegister, UserLogin, UserRole, Lane, LaneCreate, Schedule,
}
use strike_reserve.Db.{Db}
use strike_reserve.World.{Env, SlotCacheKey}
use strike_reserve.Exec.{Result, ok, err, TxManager, tick, IsTransactional}
use strike_reserve.Exec.Keeps.{Keeps, Keeps-run, Keeps-bind}
use strike_reserve.Repository.Keeping.{Closed, Joining, Growing, repository_rules}
use strike_reserve.Service.Cache.{lookup, store, invalidate_slots_cache}
use strike_reserve.Service.Bookings
use strike_reserve.Service.Bookings.{create_in_tx, cancel_in_tx, forget_slot, forget_if_changed}
use strike_reserve.Service.Lanes
use strike_reserve.Service.Lanes.{
  LaneConfig, generate, create_schedule_in_tx, none_exists, some_slots, load_slots,
}
use strike_reserve.Service.Auth.{Jwt, AuthConfig, generate_token, or_foreign}
use strike_reserve.Models.Hms.{Text}
use strike_reserve.Service.Generator
use strike_reserve.Service.Generator.{GeneratorConfig, fill, over, save}
use strike_reserve.Service.Users
use strike_reserve.Service.Users.{Bcrypt, hash_password, check_password, drawn}

module _ {C : Type 0} {P : Db → Type 0} (env : Env C) where
  lookup-Keeps : (k : SlotCacheKey) → Keeps P (lookup env k)
  unfolding lookup
  lookup-Keeps k = record { at = λ w h. h }

  store-Keeps : (k : SlotCacheKey) (slots : List Slot) → Keeps P (store env k slots)
  unfolding store
  store-Keeps k slots = record { at = λ w h. h }

  pub invalidate-Keeps : (lane_id date : ℕ) → Keeps P (invalidate_slots_cache env lane_id date)
  unfolding invalidate_slots_cache
  invalidate-Keeps lane_id date = record { at = λ w h. h }

  forget_slot-Keeps : (s : Slot) → Keeps P (forget_slot env s)
  unfolding forget_slot
  forget_slot-Keeps s = record { at = λ w h. h }

  forget_if_changed-Keeps : (s : Option Slot) → Keeps P (forget_if_changed env s)
  forget_if_changed-Keeps none = search repository_rules
  forget_if_changed-Keeps (some s) = forget_slot-Keeps s

generate-Keeps : {C : Type 0} {P : Db → Type 0} (f : ℕ → List Slot) → Keeps P (generate {C = C} f)
unfolding generate
generate-Keeps f = record { at = λ w h. h }

none_exists-Keeps :
    {C : Type 0} {P : Db → Type 0} (r : Result Schedule) → Keeps P (none_exists {C = C} r)
none_exists-Keeps (ok s) = search repository_rules
none_exists-Keeps (err e) = search repository_rules

some_slots-Keeps :
    {C : Type 0} {P : Db → Type 0} (slots : List Slot) → Keeps P (some_slots {C = C} slots)
some_slots-Keeps [] = search repository_rules
some_slots-Keeps (s ∷ slots) = search repository_rules

ruleset service_rules = (
  repository_rules, lookup-Keeps, store-Keeps, forget_slot-Keeps, forget_if_changed-Keeps,
  generate-Keeps, none_exists-Keeps, some_slots-Keeps, invalidate-Keeps,
)

module _ {C : Type 0} {P : Db → Type 0} (env : Env C) where
  load_slots-Keeps :
      (lane_id date : ℕ) (o : Option (List Slot)) → Keeps P (load_slots env lane_id date o)
  load_slots-Keeps lane_id date none = search service_rules
  load_slots-Keeps lane_id date (some x) = search service_rules

  pub get_available_slots-Keeps :
      (lane_id date : ℕ) → Keeps P (Lanes.get_available_slots env lane_id date)
  unfolding Lanes.get_available_slots
  get_available_slots-Keeps lane_id date = search (service_rules, load_slots-Keeps)

module _ {C : Type 0} {P : Db → Type 0} (env : Env C) (j : Joining P) where
  pub create_lane-Keeps : (l : LaneCreate) → Keeps P (Lanes.create_lane env l)
  unfolding Lanes.create_lane
  create_lane-Keeps l = search service_rules

module _ {C : Type 0} {P : Db → Type 0} (env : Env C) (c : Closed P) where
  create_in_tx-Keeps : (user_id slot_id : ℕ) → Keeps P (create_in_tx env user_id slot_id)
  unfolding create_in_tx
  create_in_tx-Keeps user_id slot_id = search service_rules

  cancel_in_tx-Keeps : (id user_id : ℕ) → Keeps P (cancel_in_tx env id user_id)
  unfolding cancel_in_tx
  cancel_in_tx-Keeps id user_id = search service_rules depth 9

module _ {C : Type 0} {P : Db → Type 0} (env : Env C) (g : Growing P) where
  create_schedule_in_tx-Keeps :
      (config : LaneConfig) (s : Schedule) → Keeps P (create_schedule_in_tx env config s)
  unfolding create_schedule_in_tx
  create_schedule_in_tx-Keeps config s = search service_rules depth 12

  save-Keeps : (slots : List Slot) → Keeps P (save env slots)
  save-Keeps [] = search service_rules
  save-Keeps (s ∷ slots) = search service_rules

  fill-Keeps : (gc : GeneratorConfig) (id : ℕ) (r : Result Schedule) → Keeps P (fill env gc id r)
  fill-Keeps gc id (err e) = search service_rules
  fill-Keeps gc id (ok s) = search (service_rules, save-Keeps)

  pub generate_lane-Keeps :
      (gc : GeneratorConfig) (id : ℕ) → Keeps P (Generator.generate_lane env gc id)
  unfolding Generator.generate_lane
  generate_lane-Keeps gc id = search (service_rules, fill-Keeps)

-- A round of the generator, where each lane's turn keeps the property.
module _ {C : Type 0} {P : Db → Type 0} (env : Env C) (g : GeneratorConfig)
    (turn : (id : ℕ) → Keeps P (Generator.generate_lane env g id)) where
  generate_lanes-Keeps : (lanes : List Lane) → Keeps P (Generator.generate_lanes env g lanes)
  unfolding Generator.generate_lanes
  generate_lanes-Keeps [] = search service_rules
  generate_lanes-Keeps (l ∷ lanes) = Keeps-bind _ _ (turn l.id) (λ _. generate_lanes-Keeps lanes)

  over-Keeps : (r : Result (List Lane)) → Keeps P (over env g r)
  over-Keeps (err e) = search service_rules
  over-Keeps (ok lanes) = generate_lanes-Keeps lanes

  pub generate_all-Keeps : Keeps P (Generator.generate_all env g)
  unfolding Generator.generate_all
  generate_all-Keeps = search (service_rules, over-Keeps)

  pub run-Keeps : (ticks : ℕ) → Keeps P (Generator.run env g ticks)
  unfolding Generator.run
  run-Keeps zero = generate_all-Keeps
  run-Keeps (suc ticks) = Keeps-bind _ _ generate_all-Keeps (λ _. run-Keeps ticks)

drawn-Keeps : {C : Type 0} {P : Db → Type 0} (o : Option String) → Keeps P (drawn {C = C} o)
drawn-Keeps none = search service_rules
drawn-Keeps (some x) = search service_rules

module _ {C : Type 0} {P : Db → Type 0} (b : Bcrypt) where
  hash_password-Keeps :
      (cost : ℕ) (password : String) → Keeps P (hash_password {C = C} b cost password)
  unfolding hash_password
  hash_password-Keeps cost password = record {
    at = λ w h. (drawn-Keeps {P = P} (b.generate w.ticks cost password)).at (tick w) h;
  }

  check_password-Keeps :
      (u : User) (password : String) (h : Option String)
      → Keeps P (check_password {C = C} b u password h)
  check_password-Keeps u password none = search service_rules
  check_password-Keeps u password (some h) = search service_rules

module _ {C : Type 0} {P : Db → Type 0} (env : Env C) (b : Bcrypt) (j : Joining P) where
  pub register-Keeps : (cost : ℕ) (r : UserRegister) → Keeps P (Users.register env b cost r)
  unfolding Users.register
  register-Keeps cost r = search (service_rules, hash_password-Keeps)

  pub login-Keeps : (l : UserLogin) → Keeps P (Users.login env b l)
  unfolding Users.login
  login-Keeps l = search (service_rules, check_password-Keeps)

module _ {C : Type 0} {P : Db → Type 0} (env : Env C) (c : Closed P) where
  pub get_or_create_dummy-Keeps :
      (id_text : ℕ → String) (role : UserRole)
      → Keeps P (Users.get_or_create_dummy env id_text role)
  unfolding Users.get_or_create_dummy
  get_or_create_dummy-Keeps id_text role = search service_rules

  pub get_list-Keeps : (page_size page : ℕ) → Keeps P (Bookings.get_list env page_size page)
  unfolding Bookings.get_list
  get_list-Keeps page_size page = search service_rules

  pub get_by_user_id-Keeps : (user_id : ℕ) → Keeps P (Bookings.get_by_user_id env user_id)
  unfolding Bookings.get_by_user_id
  get_by_user_id-Keeps user_id = search service_rules

  pub get_all_lanes-Keeps : Keeps P (Lanes.get_all_lanes env)
  unfolding Lanes.get_all_lanes
  get_all_lanes-Keeps = search service_rules

module _ {C : Type 0} {P : Db → Type 0} (env : Env C) (jwt : Jwt) (id_text : ℕ → String) where
  or_foreign-Keeps : (o : Option Text) → Keeps P (or_foreign {C = C} o)
  or_foreign-Keeps none = search service_rules
  or_foreign-Keeps (some token) = search service_rules

  pub generate_token-Keeps :
      (a : AuthConfig) (u : User) → Keeps P (generate_token env jwt id_text a u)
  unfolding generate_token
  generate_token-Keeps a u = search (service_rules, or_foreign-Keeps)

module _ {C : Type 0} {P : Db → Type 0} (env : Env C) (c : Closed P) (tx : TxManager C)
    (t : IsTransactional C tx) where
  pub create-Keeps : (user_id slot_id : ℕ) → Keeps P (Bookings.create env tx user_id slot_id)
  unfolding Bookings.create
  create-Keeps user_id slot_id =
      Keeps-bind _ _ (Keeps-run tx t _ (create_in_tx-Keeps env c user_id slot_id))
        (λ x. search service_rules)

  pub cancel-Keeps : (id user_id : ℕ) → Keeps P (Bookings.cancel env tx id user_id)
  unfolding Bookings.cancel
  cancel-Keeps id user_id =
      Keeps-bind _ _ (Keeps-run tx t _ (cancel_in_tx-Keeps env c id user_id))
        (λ x. search service_rules)

module _ {C : Type 0} {P : Db → Type 0} (env : Env C) (tx : TxManager C) (t : IsTransactional C tx)
    (g : Growing P) where
  pub create_schedule-Keeps :
      (c : LaneConfig) (s : Schedule) → Keeps P (Lanes.create_schedule env tx c s)
  unfolding Lanes.create_schedule
  create_schedule-Keeps c s = Keeps-run tx t _ (create_schedule_in_tx-Keeps env g c s)
