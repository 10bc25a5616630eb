-- ===== src/Simulation/Modes.antt =====
-- game_config.go: the choice of a mode, the lookup of a character, and the team of a participant.
-- The guards on a negative index have no counterpart: an index is a natural number.
pub mod Deal
use server_crawl_stars.Base.{
  ℕ, zero, suc, ◌+◌, ◌/◌, ◌%◌, String, Bool, true, false, List, [], ◌∷◌, Option, none, some, str_eq,
  ltb, leb, ◌==◌, if◌then◌else◌, length, get_elem?, is_some,
}
use server_crawl_stars.Simulation.Types.{
  GameConfig, GameModeConfig, GameModeRulesConfig, TeamConfig, PlayerTypeConfig,
}

unfoldable pub find_mode : String → List GameModeConfig → Option GameModeConfig
find_mode id [] = none
find_mode id (mode ∷ rest) = if str_eq mode.id id then some mode else find_mode id rest

-- `SelectMode`: the configuration with the mode put in, or an error for an unknown mode.
unfoldable pub select_mode : GameConfig → String → Option GameConfig
unfolding find_mode
select_mode config id = elim (find_mode id config.mode_catalog.catalog) [
  | none ↦ none
  | some mode ↦ some (record config { selected_mode = mode })
]

unfoldable pub find_player_type : ℕ → List PlayerTypeConfig → Option PlayerTypeConfig
find_player_type c [] = none
find_player_type c (t ∷ ts) = if t.character_type == c then some t else find_player_type c ts

-- `GameConfig.PlayerType`
unfoldable pub player_type : GameConfig → ℕ → Option PlayerTypeConfig
unfolding find_player_type
player_type config c = find_player_type c config.player_types

abbrev pub team_red : String
team_red = "red"

abbrev pub team_blue : String
team_blue = "blue"

-- `DefaultGameModeConfig`
abbrev pub default_game_mode_config : GameModeConfig
default_game_mode_config = record {
  id = "duel_1v1";
  players_per_match = 2;
  teams = record { name = team_red; size = 1 } ∷ record { name = team_blue; size = 1 } ∷ [];
  rules = record { team_behavior = "two_teams"; friendly_fire = false };
}

-- `GameConfig.MatchPlayerCount`
unfoldable pub match_player_count : GameConfig → ℕ
match_player_count config =
    if config.selected_mode.players_per_match == 0
    then default_game_mode_config.players_per_match
    else config.selected_mode.players_per_match

-- What one pass over the teams at one slot does: it reaches the participant, or goes on with the
-- number of participants dealt so far and whether any team took one.
pub data Round : Type 0 where
  found : String → Round
  passed : ℕ → Bool → Round

unfoldable pub deal_round : ℕ → ℕ → List TeamConfig → ℕ → Bool → Round
deal_round index slot [] assigned progressed = passed assigned progressed
deal_round index slot (team ∷ rest) assigned progressed =
    let skip = deal_round index slot rest assigned progressed in
    let take = deal_round index slot rest (assigned + 1) true in
    if leb team.size slot then skip else if assigned == index then found team.name else take

-- The loop over the slots; the outer `none` means that the fuel ran out.
unfoldable pub deal : ℕ → ℕ → ℕ → List TeamConfig → ℕ → Option (Option (String × ℕ))
unfolding deal_round
deal zero index slot teams assigned = none
deal (suc fuel) index slot teams assigned = elim (deal_round index slot teams assigned false) [
  | found name ↦ some (if str_eq name "" then none else some (name, slot))
  | passed assigned' progressed ↦
      let rest = deal fuel index (suc slot) teams assigned' in
      if progressed then rest else some none
]

abbrev flatten {ℓ} : {A : Type ℓ} → Option (Option A) → Option A
flatten none = none
flatten (some o) = o

-- `matchTeamForPlayerIndex`; every round that goes on deals one more participant.
unfoldable pub match_team_for_player_index : ℕ → List TeamConfig → Option (String × ℕ)
unfolding deal
match_team_for_player_index index teams = flatten (deal (index + 2) index 0 teams 0)

named : ℕ → ℕ → Option TeamConfig → Option (String × ℕ)
named index k none = none
named index k (some team) = if str_eq team.name "" then none else some (team.name, index / k)

-- `roomTeamForPlayerIndex`
unfoldable pub room_team_for_player_index : ℕ → List TeamConfig → Option (String × ℕ)
unfolding named
room_team_for_player_index index teams =
    let k = length teams in if k == 0 then none else named index k (get_elem? teams (index % k))

-- `GameConfig.TeamForPlayerIndex`
unfoldable pub team_for_player_index : GameConfig → ℕ → Option (String × ℕ)
unfolding match_player_count match_team_for_player_index room_team_for_player_index
team_for_player_index config index =
    let teams = config.selected_mode.teams in
    let dealt =
      if ltb index (match_player_count config)
      then match_team_for_player_index index teams
      else none in
    let shared = room_team_for_player_index index teams in
    if is_some dealt
    then dealt
    else if is_some shared
    then shared
    else room_team_for_player_index index default_game_mode_config.teams
