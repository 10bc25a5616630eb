-- ===== src/Rooms/GameEnd.antt =====
-- game_end.go: who has won, lost or drawn after a tick, whether the match is over, and the results that
-- were final before. A nil map and an empty one are the same here: the code only asks for the length.
pub mod Results
pub mod Verdicts
pub mod Teams
pub mod Ending
use server_crawl_stars.Base.{
  ℕ, zero, suc, String, Bool, true, false, not, ◌&&◌, ◌||◌, List, [], ◌∷◌, Option, none, some,
  str_eq, ltb, leb, ◌==◌, if◌then◌else◌, length,
}
use server_crawl_stars.Base.Dict.{Dict, lookup, insert, has_key}
use server_crawl_stars.Simulation.Types.{PlayerData, TeamConfig, GameModeConfig, GameConfig}
use server_crawl_stars.Rooms.Types.{GameEndResult, win, lose, draw}

-- `livePlayerCount`
unfoldable pub live_player_count : List PlayerData → ℕ
live_player_count [] = 0
live_player_count (p ∷ ps) = let rest = live_player_count ps in if p.is_dead then rest else suc rest

-- The loop `for _, player := range players { results[player.ID] = … }`; a verdict of `none` skips the
-- player.
unfoldable pub assign :
    (PlayerData → Option GameEndResult) → List PlayerData → Dict GameEndResult → Dict GameEndResult
assign verdict [] results = results
assign verdict (p ∷ ps) results =
    assign verdict ps (elim (verdict p) [ none ↦ results | some r ↦ insert p.id r results ])

abbrev pub drawn : PlayerData → Option GameEndResult
drawn p = some draw

abbrev pub survived : PlayerData → Option GameEndResult
survived p = if p.is_dead then some lose else some win

-- The dead have lost; the last one alive, if there is one, has won.
abbrev pub stood_alone : ℕ → PlayerData → Option GameEndResult
stood_alone alive p = if p.is_dead then some lose else if alive == 1 then some win else none

unfoldable pub dead_player_count : List PlayerData → ℕ
dead_player_count [] = 0
dead_player_count (p ∷ ps) = let rest = dead_player_count ps in if p.is_dead then suc rest else rest

-- `playerSurvivalGameEndResults`, which is `duelGameEndResults` too
unfoldable pub player_survival_game_end_results : List PlayerData → Dict GameEndResult
player_survival_game_end_results players =
    let dead = dead_player_count players in
    if dead == 0
    then []
    else if dead == length players
    then assign drawn players []
    else assign survived players []

-- `soloGameEndResults`
unfoldable pub solo_game_end_results : List PlayerData → Dict GameEndResult
solo_game_end_results players =
    let alive = live_player_count players in
    if alive == length players
    then []
    else if alive == 0
    then assign drawn players []
    else assign (stood_alone alive) players []

-- `liveByTeam[name]`
unfoldable pub live_by_team : String → List PlayerData → ℕ
live_by_team name [] = 0
live_by_team name (p ∷ ps) =
    let rest = live_by_team name ps in
    if not p.is_dead && str_eq p.team name then suc rest else rest

unfoldable pub eliminations_from : List PlayerData → List TeamConfig → Dict Bool → Dict Bool
eliminations_from players [] eliminated = eliminated
eliminations_from players (team ∷ teams) eliminated =
    eliminations_from players teams
      (insert team.name (live_by_team team.name players == 0) eliminated)

-- `configuredTeamEliminations`, for at least one player
unfoldable pub configured_team_eliminations : GameModeConfig → List PlayerData → Dict Bool
unfolding eliminations_from
configured_team_eliminations mode players = eliminations_from players mode.teams []

-- The number of teams that are eliminated.
unfoldable pub eliminated_count : Dict Bool → ℕ
eliminated_count [] = 0
eliminated_count ((name, e) ∷ m) = let rest = eliminated_count m in if e then suc rest else rest

abbrev pub team_verdict : Option Bool → Option GameEndResult
team_verdict none = none
team_verdict (some true) = some lose
team_verdict (some false) = some win

abbrev pub by_team : Dict Bool → PlayerData → Option GameEndResult
by_team eliminated p = team_verdict (lookup p.team eliminated)

-- `teamGameEndResults`
unfoldable pub team_game_end_results : GameModeConfig → List PlayerData → Dict GameEndResult
team_game_end_results mode [] = []
team_game_end_results mode (p ∷ ps) =
    let players = p ∷ ps in
    let eliminated = configured_team_eliminations mode players in
    let count = eliminated_count eliminated in
    if count == 0
    then []
    else if count == length eliminated
    then assign drawn players []
    else assign (by_team eliminated) players []

-- The modes that `calculateGameEndResults` and `shouldEndGame` tell apart.
pub data EndRule : Type 0 where
  survival_rule solo_rule team_rule : EndRule

unfoldable pub end_rule : String → EndRule
end_rule id =
    if str_eq id "duel_1v1"
    then survival_rule
    else if str_eq id "solo"
    then solo_rule
    else if str_eq id "team"
    then team_rule
    else survival_rule

unfoldable pub results_by_rule : EndRule → GameModeConfig → List PlayerData → Dict GameEndResult
results_by_rule survival_rule mode players = player_survival_game_end_results players
results_by_rule solo_rule mode players = solo_game_end_results players
results_by_rule team_rule mode players = team_game_end_results mode players

-- `calculateGameEndResults`
unfoldable pub calculate_game_end_results : GameConfig → List PlayerData → Dict GameEndResult
unfolding results_by_rule
calculate_game_end_results config players =
    results_by_rule (end_rule config.selected_mode.id) config.selected_mode players

unfoldable pub ends_by_rule : EndRule → GameModeConfig → List PlayerData → Bool
ends_by_rule survival_rule mode players =
    not (length (player_survival_game_end_results players) == 0)
ends_by_rule solo_rule mode players =
    let alive = live_player_count players in ltb alive (length players) && leb alive 1
ends_by_rule team_rule mode players =
    ltb 0 (eliminated_count (configured_team_eliminations mode players))

-- `shouldEndGame`
unfoldable pub should_end_game : GameConfig → List PlayerData → Bool
unfolding ends_by_rule
should_end_game config [] = false
should_end_game config (p ∷ ps) =
    ends_by_rule (end_rule config.selected_mode.id) config.selected_mode (p ∷ ps)

-- `claimFinalizedGameEndResults`: the results claimed now, and all that are final.
unfoldable pub claim_finalized :
    Dict GameEndResult
    → Dict GameEndResult
    → Dict GameEndResult
    → Dict GameEndResult × Dict GameEndResult
claim_finalized [] claimed finalized = (claimed, finalized)
claim_finalized ((id, r) ∷ results) claimed finalized =
    claim_finalized results (if has_key id finalized then claimed else insert id r claimed)
      (if has_key id finalized then finalized else insert id r finalized)
