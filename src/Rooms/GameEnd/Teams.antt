-- ===== src/Rooms/GameEnd/Teams.antt =====
-- The results of a team match: a team is out when none of its players is alive (game_end.go).
use server_crawl_stars.Base.{
  ◌<◌, ◌≤◌, ◌≡◌, ◌⊎◌, inl, inr, ◌≢◌, String, Bool, true, false, List, [], ◌∷◌, Option, none, some,
  arith, eq_iff, ◌==◌, length, Option-cases, Bool-cases, Any,
}
use server_crawl_stars.Base.Dict.{Dict, lookup, insert, lookup-insert}
use server_crawl_stars.Simulation.Types.{PlayerData, TeamConfig, GameModeConfig}
use server_crawl_stars.Rooms.Types.{GameEndResult, win, lose, draw}
use server_crawl_stars.Rooms.GameEnd.{
  drawn, live_by_team, eliminations_from, configured_team_eliminations, eliminated_count,
  team_verdict, by_team, team_game_end_results,
}
use server_crawl_stars.Rooms.GameEnd.Verdicts.{Named, Named-map, Named-draw, assigned, lookup-nil}

-- An entry for a team says whether nobody of it is alive.
eliminations_sound :
    (ps : List PlayerData) (teams : List TeamConfig) (m : Dict Bool) (n : String) (b : Bool)
    → lookup n (eliminations_from ps teams m) ≡ some b
    → (lookup n m ≡ some b) ⊎ (b ≡ (live_by_team n ps == 0))
unfolding eliminations_from
eliminations_sound ps [] m n b h = inl h
eliminations_sound ps (t ∷ teams) m n b h =
    let out = live_by_team t.name ps == 0 in
    ground (
      arith,
      eliminations_sound ps teams (insert t.name out m) n b h,
      lookup-insert t.name n out m,
      eq_iff t.name n,
    )

pub configured_sound :
    (mode : GameModeConfig) (ps : List PlayerData) (n : String) (b : Bool)
    → lookup n (configured_team_eliminations mode ps) ≡ some b
    → b ≡ (live_by_team n ps == 0)
unfolding configured_team_eliminations lookup
configured_sound mode ps n b h = ground (arith, eliminations_sound ps mode.teams [] n b h)

eliminations_keep :
    (ps : List PlayerData) (teams : List TeamConfig) (m : Dict Bool) (n : String)
    → lookup n m ≢ none
    → lookup n (eliminations_from ps teams m) ≢ none
unfolding eliminations_from
eliminations_keep ps [] m n h = h
eliminations_keep ps (t ∷ teams) m n h =
    let out = live_by_team t.name ps == 0 in
    eliminations_keep ps teams (insert t.name out m) n
      (ground (arith, lookup-insert t.name n out m))

eliminations_complete :
    (ps : List PlayerData) (teams : List TeamConfig) (m : Dict Bool) (n : String)
    → Any (λ t. t.name ≡ n) teams
    → lookup n (eliminations_from ps teams m) ≢ none
unfolding eliminations_from
eliminations_complete ps [] m n h = absurd h
eliminations_complete ps (t ∷ teams) m n (inr h) = eliminations_complete ps teams _ n h
eliminations_complete ps (t ∷ teams) m n (inl h) =
    let out = live_by_team t.name ps == 0 in
    eliminations_keep ps teams (insert t.name out m) n
      (ground (arith, lookup-insert t.name n out m, eq_iff t.name n))

-- Every team of the mode has an entry.
pub configured_complete :
    (mode : GameModeConfig) (ps : List PlayerData) (n : String)
    → Any (λ t. t.name ≡ n) mode.teams
    → lookup n (configured_team_eliminations mode ps) ≢ none
unfolding configured_team_eliminations
configured_complete mode ps n h = eliminations_complete ps mode.teams [] n h

eliminated-le : (m : Dict Bool) → eliminated_count m ≤ length m
unfolding eliminated_count
eliminated-le [] = omega arith
eliminated-le ((k, e) ∷ m) = ground (arith, eliminated-le m)

all_out :
    (m : Dict Bool) (n : String) (b : Bool)
    → eliminated_count m ≡ length m
    → lookup n m ≡ some b
    → b ≡ true
unfolding eliminated_count lookup
all_out [] n b c h = cc
all_out ((k, e) ∷ m) n b c h = ground (arith, eliminated-le m, all_out m n b)

-- With every entry out, nobody of a team of the mode is alive.
nobody_left :
    (mode : GameModeConfig) (ps : List PlayerData) (n : String)
    → eliminated_count (configured_team_eliminations mode ps)
      ≡ length (configured_team_eliminations mode ps)
    → Any (λ t. t.name ≡ n) mode.teams
    → live_by_team n ps ≡ 0
nobody_left mode ps n c h = elim (Option-cases (lookup n (configured_team_eliminations mode ps))) [
  | inl e ↦ absurd (configured_complete mode ps n h e)
  | inr (b, e) ↦ ground (
    arith,
    all_out (configured_team_eliminations mode ps) n b c e,
    configured_sound mode ps n b e,
  )
]

team_side :
    (mode : GameModeConfig) (ps all : List PlayerData) (id : String)
    → Named id (λ p. by_team (configured_team_eliminations mode all) p ≡ some win) ps
    → Named id (λ p. 0 < live_by_team p.team all) ps
team_side mode ps all id = Named-map id _ _ ps (λ p e.
    elim (Option-cases (lookup p.team (configured_team_eliminations mode all))) [
      | inl n ↦ absurd (ground arith)
      | inr (b, s) ↦ ground (arith, configured_sound mode all p.team b s)
    ])

team_out :
    (mode : GameModeConfig) (ps all : List PlayerData) (id : String)
    → Named id (λ p. by_team (configured_team_eliminations mode all) p ≡ some lose) ps
    → Named id (λ p. live_by_team p.team all ≡ 0) ps
team_out mode ps all id = Named-map id _ _ ps (λ p e.
    elim (Option-cases (lookup p.team (configured_team_eliminations mode all))) [
      | inl n ↦ absurd (ground arith)
      | inr (b, s) ↦ ground (arith, configured_sound mode all p.team b s)
    ])

no_team_draw : (o : Option Bool) → team_verdict o ≡ some draw → ⊥
no_team_draw none h = cc
no_team_draw (some true) h = cc
no_team_draw (some false) h = cc

never_named :
    (id : String) (P : PlayerData → Type 0) (ps : List PlayerData)
    → ((p : PlayerData) → P p → ⊥)
    → Named id P ps
    → ⊥
never_named id P [] f h = h
never_named id P (p ∷ ps) f (inl h) = f p h.1
never_named id P (p ∷ ps) f (inr h) = never_named id P ps f h

-- What a result of a team match says of the player's team.
abbrev pub TeamResult : GameModeConfig → List PlayerData → String → GameEndResult → Type 0
TeamResult mode ps id win = Named id (λ p. 0 < live_by_team p.team ps) ps
TeamResult mode ps id lose = Named id (λ p. live_by_team p.team ps ≡ 0) ps
TeamResult mode ps id draw = (n : String) → Any (λ t. t.name ≡ n) mode.teams → live_by_team n ps ≡ 0

by_side :
    (mode : GameModeConfig) (ps : List PlayerData) (id : String) (r : GameEndResult)
    → Named id (λ p. by_team (configured_team_eliminations mode ps) p ≡ some r) ps
    → TeamResult mode ps id r
by_side mode ps id win h = team_side mode ps ps id h
by_side mode ps id lose h = team_out mode ps ps id h
by_side mode ps id draw h = absurd (never_named id _ ps (λ p. no_team_draw _) h)

team_draw :
    (mode : GameModeConfig) (ps : List PlayerData) (id : String) (r : GameEndResult)
    → eliminated_count (configured_team_eliminations mode ps)
      ≡ length (configured_team_eliminations mode ps)
    → r ≡ draw
    → TeamResult mode ps id r
team_draw mode ps id draw c h = λ n. nobody_left mode ps n c
team_draw mode ps id win c h = absurd (cc)
team_draw mode ps id lose c h = absurd (cc)

-- A winner's team has somebody alive, a loser's team has nobody, and in a draw no team of the mode has.
pub team_results :
    (mode : GameModeConfig) (ps : List PlayerData) (id : String) (r : GameEndResult)
    → lookup id (team_game_end_results mode ps) ≡ some r
    → TeamResult mode ps id r
unfolding team_game_end_results
team_results mode [] id r h = absurd (lookup-nil id r h)
team_results mode (p ∷ ps) id r h =
    let out = configured_team_eliminations mode (p ∷ ps) in
    elim (Bool-cases (eliminated_count out == 0)) [
      | inl none_out ↦ absurd (lookup-nil id r (ground (arith, h)))
      | inr some_out ↦ elim (Bool-cases (eliminated_count out == length out)) [
        | inl every ↦
            team_draw mode (p ∷ ps) id r (ground arith)
              (Named-draw id r (p ∷ ps) (assigned drawn (p ∷ ps) id r (ground (arith, h))))
        | inr part ↦
            by_side mode (p ∷ ps) id r (assigned (by_team out) (p ∷ ps) id r (ground (arith, h)))
      ]
    ]
