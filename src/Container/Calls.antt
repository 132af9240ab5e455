-- ===== src/Container/Calls.antt =====
-- Calls of the getters of app/internal/app/di.go, one after another.
use strike_reserve.Base.{some, List, [], ◌∷◌}
use strike_reserve.Config.{Config}
use strike_reserve.Database.{Pgx}
use strike_reserve.Service.Users.{Bcrypt}
use strike_reserve.Container.{
  Resources, Getter, ◌then_get◌, database, user_repository, lane_repository, schedule_repository,
  slot_repository, booking_repository, redis, cache, auth_service, user_service, lane_service,
  booking_service, slot_generator, echo_server, handler,
}

pub data Call : Type 0 where
  get_database get_user_repository get_lane_repository get_schedule_repository get_slot_repository
        get_booking_repository get_redis get_cache get_auth_service get_user_service
        get_lane_service get_booking_service get_slot_generator get_echo_server get_handler :
      Call

module _ {W P F : Type 0} (res : Resources W) (pgx : Pgx P) (bcrypt : Bcrypt) (cfg : Config F) where
  unfoldable pub perform : Call → Getter W
  unfolding database user_repository lane_repository schedule_repository slot_repository
      booking_repository redis cache auth_service user_service lane_service booking_service
      slot_generator echo_server handler
  perform get_database = database res pgx bcrypt cfg
  perform get_user_repository = user_repository res pgx bcrypt cfg
  perform get_lane_repository = lane_repository res pgx bcrypt cfg
  perform get_schedule_repository = schedule_repository res pgx bcrypt cfg
  perform get_slot_repository = slot_repository res pgx bcrypt cfg
  perform get_booking_repository = booking_repository res pgx bcrypt cfg
  perform get_redis = redis res pgx bcrypt cfg
  perform get_cache = cache res pgx bcrypt cfg
  perform get_auth_service = auth_service res pgx bcrypt cfg
  perform get_user_service = user_service res pgx bcrypt cfg
  perform get_lane_service = lane_service res pgx bcrypt cfg
  perform get_booking_service = booking_service res pgx bcrypt cfg
  perform get_slot_generator = slot_generator res pgx bcrypt cfg
  perform get_echo_server = echo_server res pgx bcrypt cfg
  perform get_handler = handler res pgx bcrypt cfg

  unfoldable pub perform_all : List Call → Getter W
  unfolding perform
  perform_all [] = some
  perform_all (call ∷ calls) = perform call then_get perform_all calls
