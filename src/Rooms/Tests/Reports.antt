-- ===== src/Rooms/Tests/Reports.antt =====
-- Publications and reconnect graces in the tests.
use server_crawl_stars.Rooms.RateLimit.{second, retry_after_seconds}
use server_crawl_stars.Rooms.RateLimit.Waiting.{retry_after_seconds_least}
use server_crawl_stars.Base.{ℕ, ◌≤◌, ◌*◌, ◌+◌, length, true, ◌↔◌, ◌≡◌, refl, inl, List, [], ◌∷◌}
use server_crawl_stars.Base.Dict.{Dict, lookup}
use server_crawl_stars.Rooms.Types.{ReconnectGrace, PlayerResponse}
use server_crawl_stars.Rooms.Observer.{
  active_rooms_observation, ObservationTransition, ObservationEvent, publishes, drains, drain,
  observation_run,
}
use server_crawl_stars.Rooms.Observer.Order.{
  is_increasing, Quiet, observation_run_order, observation_run_drained,
}
use server_crawl_stars.Rooms.Inputs.{expired_reconnect_players, expire_grace}
use server_crawl_stars.Rooms.Inputs.Graces.{IsOut, expired_reconnect_players-IsOut}
use server_crawl_stars.Rooms.Tests.{human}

abbrev first_room : ObservationTransition
first_room = record { kind = active_rooms_observation; value = 1; sequence = 1 }

abbrev second_room : ObservationTransition
second_room = record { kind = active_rooms_observation; value = 2; sequence = 2 }

-- The newer transition comes first; a second caller waits for the drainer.
abbrev reports : List ObservationEvent
reports =
    drains 0 ∷ drains 0 ∷ drains 0 ∷ publishes first_room ∷ drains 0 ∷ publishes second_room ∷ []

told_here : (observation_run reports).told ≡ second_room ∷ []
unfolding observation_run
told_here = refl

observation_run_order_example :
    (is_increasing active_rooms_observation (observation_run reports).told ≡ true)
    × (length (observation_run reports).drainers ≤ 1)
observation_run_order_example = observation_run_order active_rooms_observation reports

observation_run_drained_example :
    Quiet (drain (length (observation_run reports).pending * 2 + 2) 0 (observation_run reports))
observation_run_drained_example = observation_run_drained reports

abbrev graces : Dict ReconnectGrace
graces = ("player_b", record { generation = 2; expires_at = 5 }) ∷ []

abbrev generations : Dict ℕ
generations = ("player_b", 2) ∷ []

abbrev players : List PlayerResponse
players = human "player_b" 0 ∷ []

reported : (expired_reconnect_players 7 generations players graces).0 ≡ "player_b" ∷ []
unfolding expired_reconnect_players expire_grace lookup
reported = refl

expired_reconnect_players-IsOut_example : IsOut 7 generations "player_b" graces
unfolding expired_reconnect_players expire_grace lookup
expired_reconnect_players-IsOut_example =
    expired_reconnect_players-IsOut 7 generations players graces "player_b" (inl refl)

retry_after_seconds_least_example :
    (retry_after_seconds 1500000000 ≤ 2) ↔ ((1 ≤ 2) × (1500000000 ≤ 2 * second))
retry_after_seconds_least_example = retry_after_seconds_least 1500000000 2
