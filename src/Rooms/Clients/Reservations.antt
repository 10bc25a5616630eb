-- ===== src/Rooms/Clients/Reservations.antt =====
-- What a reservation of a client's place promises (websocket.go).
use server_crawl_stars.Base.{
  ℕ, ◌≡◌, ◌⊎◌, ◌&&◌, str_eq, refl, ap, ◌∙◌, inl, inr, String, true, false, List, [], ◌∷◌, none,
  some, arith, eq_iff, Option-cases, if_keep,
}
use mathlib.Core.Path.{subst}
use server_crawl_stars.Base.Dict.{lookup, insert, has_key, lookup-insert, lookup-delete}
use server_crawl_stars.Rooms.Types.{player_already_connected, Result, ok, err, Room, Store}
use server_crawl_stars.Rooms.Resources.{write}
use server_crawl_stars.Rooms.Phases.{is_matched, reached}
use server_crawl_stars.Rooms.Participants.{has_player}
use server_crawl_stars.Rooms.Identity.{authenticate_player}
use server_crawl_stars.Rooms.Clients.{
  ClientReservation, is_authorized, reserve_error, reserve_client, rollback_client_reservation,
}

-- The player shows one token, and it is not empty and has the digest of the player's session.
abbrev pub Shows : (String → String) → Room → String → List String → Type 0
Shows sha256 room player_id tokens =
    (token : String) × ((tokens ≡ token ∷ [])
      × (str_eq token "" ≡ false)
      × (lookup player_id room.sessions ≡ some (sha256 token)))

shows :
    (sha256 : String → String) (room : Room) (player_id : String) (tokens : List String)
    → is_authorized sha256 room player_id tokens ≡ true
    → Shows sha256 room player_id tokens
unfolding is_authorized authenticate_player
shows sha256 room player_id [] e = absurd (ground arith)
shows sha256 room player_id (token ∷ []) e = elim (Option-cases (lookup player_id room.sessions)) [
  | inl none_there ↦ absurd (ground arith)
  | inr (digest, there) ↦
      (token, (refl, ground arith, there ∙ ap some (ground (arith, eq_iff digest (sha256 token)))))
]
shows sha256 room player_id (token ∷ other ∷ more) e = absurd (ground arith)

shown :
    (sha256 : String → String) (room : Room) (player_id : String) (tokens : List String)
    → Shows sha256 room player_id tokens
    → is_authorized sha256 room player_id tokens ≡ true
unfolding is_authorized authenticate_player
shown sha256 room player_id tokens (token, (one, filled, there)) =
    ap (is_authorized sha256 room player_id) one
    ∙ ground (arith, filled, there, eq_iff (sha256 token) (sha256 token))

-- What a player must be to reserve a place in a room.
pub record MayConnect (now : ℕ) (sha256 : String → String) (player_id : String)
    (tokens : List String) (room : Room) : Type 0 where
  pub here : room.removed ≡ false
  pub going_on : room.ending ≡ false
  pub known : has_player player_id room.players ≡ true
  pub in_time : (is_matched room.match_status && reached now room.match_attach_deadline_at) ≡ false
  pub authorized : Shows sha256 room player_id tokens
  pub not_done : has_key player_id room.finalized_game_end_results ≡ false
  pub not_connected : has_key player_id room.clients ≡ false
  pub not_reserved : has_key player_id room.reservations ≡ false

-- The checks pass only for a player that the room knows and that shows its one token, whose result is
-- not final and who has neither a client nor a reservation.
reserve_error-none :
    (now : ℕ) (sha256 : String → String) (room : Room) (player_id : String) (tokens : List String)
    → reserve_error now sha256 room player_id tokens ≡ none
    → MayConnect now sha256 player_id tokens room
unfolding reserve_error
reserve_error-none now sha256 room player_id tokens e = record {
  here = ground arith;
  going_on = ground arith;
  known = ground arith;
  in_time = ground arith;
  authorized = shows sha256 room player_id tokens (ground arith);
  not_done = ground arith;
  not_connected = ground arith;
  not_reserved = ground arith;
}

-- Whoever may connect passes them.
MayConnect-none :
    (now : ℕ) (sha256 : String → String) (room : Room) (player_id : String) (tokens : List String)
    → MayConnect now sha256 player_id tokens room
    → reserve_error now sha256 room player_id tokens ≡ none
unfolding reserve_error
MayConnect-none now sha256 room player_id tokens m = ground (
  arith,
  m.here,
  m.going_on,
  m.known,
  m.in_time,
  shown sha256 room player_id tokens m.authorized,
  m.not_done,
  m.not_connected,
  m.not_reserved,
)

-- A room whose player has a reservation refuses another one with `player_already_connected`.
reserved_twice :
    (now : ℕ) (sha256 : String → String) (room : Room) (player_id : String) (tokens : List String)
    (handle : ℕ)
    → reserve_error now sha256 room player_id tokens ≡ none
    → reserve_error now sha256
        (record room { reservations = insert player_id handle room.reservations })
        player_id
        tokens
      ≡ some player_already_connected
unfolding reserve_error is_authorized authenticate_player
reserved_twice now sha256 room player_id tokens handle e =
    ground (
      arith,
      lookup-insert player_id player_id handle room.reservations,
      eq_iff player_id player_id,
    )

-- A granted reservation names the registered room, whose player may connect, and stands in it.
pub record Granted (now : ℕ) (room_id player_id : String) (tokens : List String) (s t : Store)
    (r : ClientReservation) : Type 0 where
  pub not_closed : s.closed ≡ false
  pub registered : lookup room_id s.rooms ≡ some r.room
  pub may_connect : MayConnect now s.sha256 player_id tokens (s.heap r.room)
  pub for_player : r.player_id ≡ player_id
  pub stands : (t.heap r.room).reservations ≡ insert player_id r.handle (s.heap r.room).reservations
  pub still_here : (t.heap r.room).removed ≡ false
  pub other_rooms : (ref : ℕ) → t.heap ref ≡ write s.heap r.room (t.heap r.room) ref

-- Why a reservation is refused: the Store is closed, the room unknown, or the player may not connect.
pub record Refused (now : ℕ) (room_id player_id : String) (tokens : List String) (s : Store)
    : Type 0 where
  pub reason :
      (s.closed ≡ true)
      ⊎ (lookup room_id s.rooms ≡ none)
      ⊎ ((ref : ℕ) × ((lookup room_id s.rooms ≡ some ref)
            × (¬ MayConnect now s.sha256 player_id tokens (s.heap ref))))

-- When `reserveClient` succeeds, the reservation is granted; when it fails, it is refused for one of
-- these reasons and the Store is as before.
abbrev pub Reserved :
    ℕ → String → String → List String → Store → Result ClientReservation × Store → Type 0
Reserved now room_id player_id tokens s (ok r, t) = Granted now room_id player_id tokens s t r
Reserved now room_id player_id tokens s (err e, t) =
    (t ≡ s) × Refused now room_id player_id tokens s

-- A reservation is granted only by a Store that is not closed and in a registered room, to a player
-- that the room knows, in time, and who shows the one token of its session, with no final result, no
-- client and no reservation; it then stands in the room, and no other room changes. It is refused only
-- where one of these fails, and then nothing changes.
pub reserve_client-Reserved :
    (now : ℕ) (room_id player_id : String) (tokens : List String) (s : Store)
    → Reserved now room_id player_id tokens s (reserve_client now room_id player_id tokens s)
unfolding reserve_client
reserve_client-Reserved now room_id player_id tokens s =
    elim (Option-cases (lookup room_id s.rooms)) [
      | inl e ↦ simp (e, reserve_client) (refl, record { reason = inr (inl e) })
      | inr (ref, e) ↦
          elim (Option-cases (reserve_error now s.sha256 (s.heap ref) player_id tokens)) [
            | inr (problem, h) ↦
                simp (e, h, reserve_client)
                  (if_keep (Reserved now room_id player_id tokens s) s.closed
                    (λ k. (refl, record { reason = inl k }))
                    (λ k. (
                      refl,
                      record {
                        reason = inr (
                            inr (
                              ref,
                              (
                                e,
                                λ m. absurd (
                                    ground (
                                      arith,
                                      h,
                                      MayConnect-none now s.sha256 (s.heap ref) player_id tokens m,
                                    )),
                              ),
                            ));
                      },
                    )))
            | inl fine ↦
                simp (e, fine, reserve_client)
                  (if_keep (Reserved now room_id player_id tokens s) s.closed
                    (λ k. (refl, record { reason = inl k }))
                    (λ k. record {
                      not_closed = k;
                      registered = e;
                      may_connect =
                          reserve_error-none now s.sha256 (s.heap ref) player_id tokens fine;
                      for_player = refl;
                      stands = ground arith;
                      still_here = ground (
                        arith,
                        (reserve_error-none now s.sha256 (s.heap ref) player_id tokens fine).here,
                      );
                      other_rooms = λ p. ground arith;
                    }))
          ]
    ]

-- A reservation that is rolled back leaves the reservations of the room as they were before it.
pub rollback-reserve :
    (now : ℕ) (room_id player_id : String) (tokens : List String) (s : Store)
    (r : ClientReservation) (t : Store)
    → reserve_client now room_id player_id tokens s ≡ (ok r, t)
    → (id : String)
    → lookup id ((rollback_client_reservation r t).heap r.room).reservations
      ≡ lookup id (s.heap r.room).reservations
unfolding rollback_client_reservation
rollback-reserve now room_id player_id tokens s r t e id =
    let g : Granted now room_id player_id tokens s t r =
      subst (Reserved now room_id player_id tokens s) e
        (reserve_client-Reserved now room_id player_id tokens s) in
    let before = (s.heap r.room).reservations in
    let held = λ (k : String). ap (lookup k) g.stands ∙ lookup-insert player_id k r.handle before in
    ground (
      arith,
      held id,
      held player_id,
      held r.player_id,
      g.still_here,
      g.for_player,
      eq_iff player_id id,
      eq_iff player_id r.player_id,
      eq_iff r.player_id id,
      g.may_connect.not_reserved,
      lookup-delete r.player_id id (t.heap r.room).reservations,
    )
