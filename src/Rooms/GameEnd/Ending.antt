-- ===== src/Rooms/GameEnd/Ending.antt =====
-- How the end of a match goes with its results (game_end.go).
use server_crawl_stars.Base.{
  ℕ, ◌<◌, ◌≤◌, ◌≡◌, refl, inl, inr, ◌≢◌, String, Bool, true, false, List, [], ◌∷◌, none, some,
  arith, ◌==◌, length, Option-cases, Bool-cases, Any,
}
use server_crawl_stars.Base.Dict.{Dict, lookup}
use server_crawl_stars.Simulation.Types.{PlayerData, GameModeConfig, GameConfig}
use server_crawl_stars.Rooms.Types.{GameEndResult, lose}
use server_crawl_stars.Rooms.GameEnd.{
  live_player_count, dead_player_count, drawn, survived, stood_alone,
  player_survival_game_end_results, solo_game_end_results, configured_team_eliminations,
  eliminated_count, by_team, team_game_end_results, EndRule, survival_rule, solo_rule, team_rule,
  end_rule, results_by_rule, calculate_game_end_results, ends_by_rule, should_end_game,
}
use server_crawl_stars.Rooms.GameEnd.Results.{assign_complete}
use server_crawl_stars.Rooms.GameEnd.Verdicts.{Named, Named-map, assigned, lookup-nil, dead-live}
use server_crawl_stars.Rooms.GameEnd.Teams.{configured_complete}

-- A player whom the results of the mode cover: in a team match, one of a configured team.
abbrev pub Covered : EndRule → GameModeConfig → PlayerData → Type 0
Covered survival_rule mode p = Unit {0}
Covered solo_rule mode p = Unit {0}
Covered team_rule mode p = Any (λ t. t.name ≡ p.team) mode.teams

survival_complete :
    (ps : List PlayerData) (id : String)
    → length (player_survival_game_end_results ps) ≢ 0
    → Named id (λ p. Unit {0}) ps
    → lookup id (player_survival_game_end_results ps) ≢ none
unfolding player_survival_game_end_results
survival_complete ps id h k = ground (
  arith,
  assign_complete drawn ps [] id (Named-map id _ _ ps (λ p u. cc) k),
  assign_complete survived ps [] id (Named-map id _ _ ps (λ p u. ground arith) k),
)

solo_complete :
    (ps : List PlayerData) (id : String)
    → live_player_count ps < length ps
    → live_player_count ps ≤ 1
    → Named id (λ p. Unit {0}) ps
    → lookup id (solo_game_end_results ps) ≢ none
unfolding solo_game_end_results
solo_complete ps id l o k = elim (Bool-cases (live_player_count ps == 0)) [
  | inl e ↦
      let c = assign_complete drawn ps [] id (Named-map id _ _ ps (λ p u. cc) k) in
      ground (arith, c)
  | inr e ↦
      let one : live_player_count ps ≡ 1 = ground arith in
      let c =
        assign_complete (stood_alone (live_player_count ps)) ps [] id
          (Named-map id _ _ ps (λ p u. ground arith) k) in
      ground (arith, c)
]

has_verdict : (out : Dict Bool) (p : PlayerData) → lookup p.team out ≢ none → by_team out p ≢ none
has_verdict out p h = elim (Option-cases (lookup p.team out)) [
  | inl e ↦ absurd (h e)
  | inr (b, e) ↦ ground arith
]

team_complete :
    (mode : GameModeConfig) (p : PlayerData) (ps : List PlayerData) (id : String)
    → 0 < eliminated_count (configured_team_eliminations mode (p ∷ ps))
    → Named id (λ q. Any (λ t. t.name ≡ q.team) mode.teams) (p ∷ ps)
    → lookup id (team_game_end_results mode (p ∷ ps)) ≢ none
unfolding team_game_end_results
team_complete mode p ps id c k =
    let out = configured_team_eliminations mode (p ∷ ps) in
    let every = assign_complete drawn (p ∷ ps) [] id (Named-map id _ _ (p ∷ ps) (λ q u. cc) k) in
    let part = assign_complete (by_team out) (p ∷ ps) [] id (
      Named-map id _ _ (p ∷ ps)
        (λ q u. has_verdict out q (configured_complete mode (p ∷ ps) q.team u)) k) in
    elim (Bool-cases (eliminated_count out == length out)) [
      | inl e ↦ ground (arith, every)
      | inr e ↦ ground (arith, part)
    ]

complete_by_rule :
    (rule : EndRule) (mode : GameModeConfig) (p : PlayerData) (ps : List PlayerData) (id : String)
    → ends_by_rule rule mode (p ∷ ps) ≡ true
    → Named id (Covered rule mode) (p ∷ ps)
    → lookup id (results_by_rule rule mode (p ∷ ps)) ≢ none
unfolding ends_by_rule results_by_rule
complete_by_rule survival_rule mode p ps id h k = survival_complete (p ∷ ps) id (ground arith) k
complete_by_rule solo_rule mode p ps id h k =
    solo_complete (p ∷ ps) id (ground arith) (ground arith) k
complete_by_rule team_rule mode p ps id h k = team_complete mode p ps id (ground arith) k

-- When the match ends, every player whom the mode covers has a result.
pub should_end_game_complete :
    (config : GameConfig) (ps : List PlayerData) (id : String)
    → should_end_game config ps ≡ true
    → Named id (Covered (end_rule config.selected_mode.id) config.selected_mode) ps
    → lookup id (calculate_game_end_results config ps) ≢ none
unfolding should_end_game calculate_game_end_results
should_end_game_complete config [] id h k = absurd k
should_end_game_complete config (p ∷ ps) id h k =
    complete_by_rule (end_rule config.selected_mode.id) config.selected_mode p ps id h k

length-none : (m : Dict GameEndResult) (id : String) → length m ≡ 0 → lookup id m ≡ none
unfolding lookup
length-none [] id h = refl
length-none (x ∷ m) id h = absurd (omega arith)

only_lose :
    (n : ℕ) (id : String) (r : GameEndResult) (ps : List PlayerData)
    → n ≢ 1
    → Named id (λ p. stood_alone n p ≡ some r) ps
    → r ≡ lose
only_lose n id r [] h k = absurd k
only_lose n id r (p ∷ ps) h (inl k) = ground arith
only_lose n id r (p ∷ ps) h (inr k) = only_lose n id r ps h k

solo_open :
    (ps : List PlayerData) (id : String) (r : GameEndResult)
    → (live_player_count ps < length ps → 1 < live_player_count ps)
    → lookup id (solo_game_end_results ps) ≡ some r
    → r ≡ lose
unfolding solo_game_end_results
solo_open ps id r o h = elim (Bool-cases (live_player_count ps == length ps)) [
  | inl all_live ↦ absurd (lookup-nil id r (ground (arith, h)))
  | inr some_dead ↦
      let many : 1 < live_player_count ps = o (ground (arith, dead-live ps)) in
      only_lose (live_player_count ps) id r ps (omega arith)
        (assigned (stood_alone (live_player_count ps)) ps id r (ground (arith, h)))
]

open_by_rule :
    (rule : EndRule) (mode : GameModeConfig) (p : PlayerData) (ps : List PlayerData) (id : String)
    (r : GameEndResult)
    → ends_by_rule rule mode (p ∷ ps) ≡ false
    → lookup id (results_by_rule rule mode (p ∷ ps)) ≡ some r
    → r ≡ lose
unfolding ends_by_rule results_by_rule team_game_end_results
open_by_rule survival_rule mode p ps id r h k =
    absurd (ground (arith, length-none (player_survival_game_end_results (p ∷ ps)) id))
open_by_rule solo_rule mode p ps id r h k = solo_open (p ∷ ps) id r (λ l. ground arith) k
open_by_rule team_rule mode p ps id r h k = absurd (lookup-nil id r (ground (arith, k)))

no_players :
    (rule : EndRule) (mode : GameModeConfig) (id : String)
    → lookup id (results_by_rule rule mode []) ≡ none
unfolding results_by_rule player_survival_game_end_results solo_game_end_results
    team_game_end_results dead_player_count live_player_count lookup
no_players survival_rule mode id = refl
no_players solo_rule mode id = refl
no_players team_rule mode id = refl

-- Before the match ends nobody has won and nothing is drawn: a result there is a loss.
pub should_end_game_open :
    (config : GameConfig) (ps : List PlayerData) (id : String) (r : GameEndResult)
    → should_end_game config ps ≡ false
    → lookup id (calculate_game_end_results config ps) ≡ some r
    → r ≡ lose
unfolding should_end_game calculate_game_end_results
should_end_game_open config [] id r h k =
    absurd (ground (arith, no_players (end_rule config.selected_mode.id) config.selected_mode id))
should_end_game_open config (p ∷ ps) id r h k =
    open_by_rule (end_rule config.selected_mode.id) config.selected_mode p ps id r h k
