-- ===== src/Rooms/Inputs/Graces.antt =====
-- Which players lose their place when a reconnect grace runs out (websocket.go,
-- `expiredReconnectPlayersLocked`).
use server_crawl_stars.Base.{
  ℕ, ◌≡◌, refl, ◌≤◌, ◌⊎◌, inl, inr, String, Bool, true, false, List, [], ◌∷◌, none, some, arith,
  if◌then◌else◌, eq_iff, Any, Option-cases,
}
use mathlib.Core.Path.{subst}
use server_crawl_stars.Base.Dict.{Dict, lookup, lookup-delete}
use server_crawl_stars.Rooms.Types.{PlayerResponse, ReconnectGrace}
use server_crawl_stars.Rooms.Inputs.{expire_grace, expired_reconnect_players}

-- The generation of a player's last connection; zero for a player that never connected.
abbrev pub current_generation : Dict ℕ → String → ℕ
current_generation generations id = elim (lookup id generations) [ none ↦ 0 | some g ↦ g ]

-- A grace that has run out at an instant and belongs to the player's last connection.
abbrev pub IsOut : ℕ → Dict ℕ → String → Dict ReconnectGrace → Type 0
IsOut now generations id graces =
    (grace : ReconnectGrace) × ((lookup id graces ≡ some grace)
      × (grace.expires_at ≤ now)
      × (grace.generation ≡ current_generation generations id))

-- The graces never come back.
expire_grace-lookup :
    (now : ℕ) (generations : Dict ℕ) (id other : String) (graces : Dict ReconnectGrace)
    (grace : ReconnectGrace)
    → lookup other (expire_grace now generations id graces).1 ≡ some grace
    → lookup other graces ≡ some grace
unfolding expire_grace
expire_grace-lookup now generations id other graces grace h =
    ground (arith, lookup-delete id other graces, eq_iff id other)

expire_grace-IsOut :
    (now : ℕ) (generations : Dict ℕ) (id : String) (graces : Dict ReconnectGrace)
    → (expire_grace now generations id graces).0 ≡ true
    → IsOut now generations id graces
unfolding expire_grace
expire_grace-IsOut now generations id graces h = elim (Option-cases (lookup id graces)) [
  | inl e ↦ absurd (ground (arith, e))
  | inr (grace, e) ↦ (grace, (e, ground (arith, e), ground (arith, e)))
]

first_or_rest :
    (b : Bool) (j id : String) (js : List String)
    → Any (λ k. k ≡ id) (if b then j ∷ js else js)
    → ((b ≡ true) × (j ≡ id)) ⊎ Any (λ k. k ≡ id) js
first_or_rest true j id js (inl h) = inl (refl, h)
first_or_rest true j id js (inr h) = inr h
first_or_rest false j id js h = inr h

-- A player is reported as gone only when a grace of the player's last connection has run out.
pub expired_reconnect_players-IsOut :
    (now : ℕ) (generations : Dict ℕ) (ps : List PlayerResponse) (graces : Dict ReconnectGrace)
    (id : String)
    → Any (λ j. j ≡ id) (expired_reconnect_players now generations ps graces).0
    → IsOut now generations id graces
unfolding expired_reconnect_players
expired_reconnect_players-IsOut now generations [] graces id h = absurd h
expired_reconnect_players-IsOut now generations (p ∷ ps) graces id h =
    let (is_out, graces1) = expire_grace now generations p.id graces in
    elim (first_or_rest is_out p.id id (expired_reconnect_players now generations ps graces1).0 h) [
      | inl (e, same) ↦
          subst (λ j. IsOut now generations j graces) same
            (expire_grace-IsOut now generations p.id graces e)
      | inr later ↦
          let (grace, (e, late, own)) =
            expired_reconnect_players-IsOut now generations ps graces1 id later in
          (grace, (expire_grace-lookup now generations p.id id graces grace e, late, own))
    ]
