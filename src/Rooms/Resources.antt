-- ===== src/Rooms/Resources.antt =====
-- cleanup.go: what a room holds is detached from it under the locks and stopped after them.
use server_crawl_stars.Base.{
  ℕ, ◌+◌, String, Bool, true, false, List, [], ◌∷◌, ◌++◌, map, Option, none, some, ◌==◌,
  if◌then◌else◌,
}
use server_crawl_stars.Base.Dict.{Dict}
use server_crawl_stars.Rooms.Types.{
  RoomStatus, MatchStatus, CloseCause, MatchPhase, ClientSession, ClientObservation, RoomResources,
  Room, Worker, Runtime,
}

abbrev pub no_resources : RoomResources
no_resources = record { tickers = []; stops = []; sessions = []; client_observations = [] }

-- `merge`
unfoldable pub merge : RoomResources → RoomResources → RoomResources
merge r other = record {
  tickers = r.tickers ++ other.tickers;
  stops = r.stops ++ other.stops;
  sessions = r.sessions ++ other.sessions;
  client_observations = r.client_observations ++ other.client_observations;
}

-- A list after `append`, if the pointer is not nil.
abbrev pub push : Option ℕ → List ℕ → List ℕ
push none xs = xs
push (some a) xs = xs ++ a ∷ []

abbrev take_timer : Option ℕ → Option ℕ → RoomResources → RoomResources
take_timer ticker stop r = record r { tickers = push ticker r.tickers; stops = push stop r.stops }

-- `detachGameplayLocked`
unfoldable pub detach_gameplay : RoomResources → Room → RoomResources × Room
detach_gameplay r room =
    (take_timer room.ticker room.stop r, record room { ticker = none; stop = none })

-- `detachBotFillLocked`
unfoldable pub detach_bot_fill : RoomResources → Room → RoomResources × Room
detach_bot_fill r room = (
  take_timer room.bot_fill_ticker room.bot_fill_stop r,
  record room { bot_fill_ticker = none; bot_fill_stop = none },
)

-- `detachMatchedAttachDeadlineLocked`
unfoldable pub detach_matched_attach_deadline : RoomResources → Room → RoomResources × Room
detach_matched_attach_deadline r room = (
  take_timer room.match_attach_ticker room.match_attach_stop r,
  record room {
    match_attach_ticker = none;
    match_attach_stop = none;
    match_attach_deadline_at = none;
  },
)

-- `detachReadyDeadlineLocked`
unfoldable pub detach_ready_deadline : RoomResources → Room → RoomResources × Room
detach_ready_deadline r room = (
  take_timer room.ready_deadline_ticker room.ready_deadline_stop r,
  record room {
    ready_deadline_ticker = none;
    ready_deadline_stop = none;
    ready_deadline_at = none;
  },
)

-- The countdown's part of `removeRoomLockedWithCause`.
unfoldable pub detach_countdown : RoomResources → Room → RoomResources × Room
detach_countdown r room = (
  take_timer room.countdown_ticker room.countdown_stop r,
  record room { countdown_ticker = none; countdown_stop = none },
)

phase_of_match : MatchStatus → RoomStatus → MatchPhase
phase_of_match MatchStatus.matched status = MatchPhase.matched
phase_of_match MatchStatus.loading status = MatchPhase.loading
phase_of_match MatchStatus.starting status = MatchPhase.starting
phase_of_match MatchStatus.started status = MatchPhase.started
phase_of_match MatchStatus.unset RoomStatus.waiting = MatchPhase.waiting
phase_of_match MatchStatus.unset RoomStatus.started = MatchPhase.started

abbrev pub is_started : RoomStatus → Bool
is_started RoomStatus.waiting = false
is_started RoomStatus.started = true

-- `matchPhaseForRoom`
unfoldable pub match_phase_for_room : Room → MatchPhase
unfolding phase_of_match
match_phase_for_room room =
    if room.ending
    then MatchPhase.ending
    else if is_started room.status
    then MatchPhase.started
    else phase_of_match room.match_status room.status

-- `claimCloseCause`: the first cause stays.
unfoldable pub claim_close_cause : CloseCause → ClientSession → ClientSession
claim_close_cause cause session = elim session.close_cause [
  | none ↦ record session { close_cause = some cause }
  | some _ ↦ session
]

abbrev pub write {ℓ} : {A : Type ℓ} → (ℕ → A) → ℕ → A → ℕ → A
write h p v q = if p == q then v else h q

-- `removeRoomLockedWithCause` on the sessions: each gets the cause and the room's phase.
unfoldable pub claim_all :
    CloseCause → MatchPhase → Dict ℕ → (ℕ → ClientSession) → ℕ → ClientSession
unfolding claim_close_cause
claim_all cause phase [] heap = heap
claim_all cause phase ((player_id, p) ∷ clients) heap =
    claim_all cause phase clients
      (write heap p (record (claim_close_cause cause (heap p)) { match_phase = phase }))

abbrev observe_client : String → String × ℕ → ClientObservation
observe_client room_id (player_id, session) = record {
  room_id = room_id;
  player_id = player_id;
  session = session;
}

-- The rest of `removeRoomLockedWithCause`, for a room that is still there.
unfoldable pub detach_all : RoomResources → Room → RoomResources × Room
unfolding detach_gameplay detach_bot_fill detach_matched_attach_deadline detach_ready_deadline
    detach_countdown
detach_all r room =
    let (r1, room1) = detach_countdown r (record room { removed = true }) in
    let (r2, room2) = detach_bot_fill r1 room1 in
    let (r3, room3) = detach_matched_attach_deadline r2 room2 in
    let (r4, room4) = detach_ready_deadline r3 room3 in
    let (r5, room5) = detach_gameplay r4 room4 in
    (
      record r5 {
        sessions = r5.sessions ++ map (λ c. c.1) room.clients;
        client_observations = r5.client_observations ++ map (observe_client room.id) room.clients;
      },
      record room5 { clients = []; reservations = [] },
    )

-- What `removeRoomLockedWithCause` returns and changes; `none` for a room that was removed before.
pub record Removal : Type 0 where
  pub player_ids : List String
  pub resources : RoomResources
  pub room : Room
  pub client_sessions : ℕ → ClientSession

-- `removeRoomLockedWithCause`, past its first test
unfoldable pub removal : CloseCause → (ℕ → ClientSession) → RoomResources → Room → Removal
unfolding detach_all match_phase_for_room
removal cause heap r room =
    let (r', room') = detach_all r room in
    record {
      player_ids = map (λ p. p.id) room.players;
      resources = r';
      room = room';
      client_sessions = claim_all cause (match_phase_for_room room) room.clients heap;
    }

-- `removeRoomLockedWithCause`
unfoldable pub remove_room :
    CloseCause → (ℕ → ClientSession) → RoomResources → Room → Option Removal
remove_room cause heap r room = if room.removed then none else some (removal cause heap r room)

-- `roomResources.stop`
unfoldable pub stop_resources : RoomResources → Runtime → Runtime
stop_resources r rt = record rt {
  stopped_tickers = rt.stopped_tickers ++ r.tickers;
  closed_stops = rt.closed_stops ++ r.stops;
}

-- `closeWithCause` on each session; `releaseClient`, which it calls, finds the room removed.
close_sessions : CloseCause → List ℕ → (ℕ → ClientSession) → ℕ → ClientSession
unfolding claim_close_cause
close_sessions cause [] heap = heap
close_sessions cause (p ∷ ps) heap =
    close_sessions cause ps
      (write heap p (record (claim_close_cause cause (heap p)) { closed = true }))

-- The session part of `roomResources.closeWithCause`.
unfoldable pub close_with_cause :
    CloseCause → RoomResources → (ℕ → ClientSession) → ℕ → ClientSession
unfolding close_sessions
close_with_cause cause r = close_sessions cause r.sessions

-- `launchRoomWorker`: no worker starts once shutdown has closed the gate.
unfoldable pub launch_room_worker : Worker → Runtime → Bool × Runtime
launch_room_worker w rt =
    if rt.workers_closing then (false, rt) else (true, record rt { workers = w ∷ rt.workers })

-- `NewTicker` and `make(chan struct{})`: the ticker is the handle, the channel the next one.
unfoldable pub new_timer : Runtime → ℕ × ℕ × Runtime
new_timer rt = (rt.next_handle, rt.next_handle + 1, record rt { next_handle = rt.next_handle + 2 })
