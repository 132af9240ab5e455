-- ===== src/Server/History.antt =====
-- What holds after any history of requests and generator rounds.
use strike_reserve.Base.{List, [], ◌∷◌, All}
use strike_reserve.Models.{Schedule}
use strike_reserve.Db.Intact.{Intact}
use strike_reserve.World.{World}
use strike_reserve.Exec.{IsTransactional}
use strike_reserve.Repository.Integrity.{Intact-Closed, Intact-Growing}
use strike_reserve.Service.Keeping.{create_schedule-Keeps, generate_lane-Keeps}
use strike_reserve.Server.{Server, Request, create_schedule, request, generation, Event, history}
use strike_reserve.Server.Keeping.{Kept, Asks, Admits, history-Keeps}

abbrev AnySchedule : Schedule → Type 0
AnySchedule sch = Unit

any_request : (q : Request) → Asks AnySchedule q
any_request (create_schedule lane_id body) = tt
any_request _ = tt

any_events : (events : List Event) → All (Admits AnySchedule) events
any_events [] = tt
any_events (request header q ∷ events) = (any_request q, any_events events)
any_events (generation ∷ events) = (tt, any_events events)

module _ {C : Type 0} (s : Server C) (t : IsTransactional C s.tx) where
  Intact-Kept : Kept s AnySchedule Intact
  Intact-Kept = record {
    closed = Intact-Closed;
    schedule = λ sch a. create_schedule-Keeps s.env s.tx t Intact-Growing s.lanes sch;
    turn = generate_lane-Keeps s.env Intact-Growing s.generator;
  }

  -- Whatever the requests, their tokens, the order of events and the failures of driver and server,
  -- a history that starts from intact tables ends with intact tables: at most one active booking
  -- for a slot, one slot for a lane and a start, one schedule for a lane, one user for an e-mail
  -- address, unique identifiers, no dangling reference, and every slot and schedule ends after it starts.
  pub history-Intact :
      (events : List Event) (w : World C) → Intact w.db → Intact (history s events w).db
  history-Intact events w i = history-Keeps s t Intact-Kept events w (any_events events) i
