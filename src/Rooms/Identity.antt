-- ===== src/Rooms/Identity.antt =====
-- identity.go and the identities of store.go: random identifiers with a bounded retry, the register
-- of player identifiers, and a session's token.
use Prim.Native.String.{◌++◌ as str_append}
use server_crawl_stars.Base.{
  ℕ, zero, suc, String, Bool, false, List, [], ◌∷◌, ◌++◌, Option, none, some, str_eq, if◌then◌else◌,
}
use server_crawl_stars.Base.Dict.{Dict, lookup, insert, delete, has_key}
use server_crawl_stars.Rooms.Types.{internal, Result, ok, err, Room, Store}
use server_crawl_stars.Rooms.Monad.{M, ◌>>=◌, ◌>>◌, return, modify, gets, refuse_if}

abbrev pub identity_retry_limit : ℕ
identity_retry_limit = 8

abbrev pub room_id_prefix : String
room_id_prefix = "room_"

abbrev pub player_id_prefix : String
player_id_prefix = "player_"

-- `randomValue`
unfoldable pub random_value : String → List (Option String) → Option String × List (Option String)
random_value prefix [] = (none, [])
random_value prefix (none ∷ rest) = (none, rest)
random_value prefix (some v ∷ rest) = (some (str_append prefix v), rest)

-- The retry loop of `uniqueRoomIDLocked` and `uniquePlayerIDLocked`.
unfoldable pub unique_value {ℓ} :
    {V : Type ℓ} → ℕ → String → Dict V → List (Option String) → Result String × List (Option String)
unique_value zero prefix taken random = (err internal, random)
unique_value (suc tries) prefix taken random =
    let (value, rest) = random_value prefix random in
    let again = unique_value tries prefix taken rest in
    elim value [
      | none ↦ (err internal, rest)
      | some id ↦ if has_key id taken then again else (ok id, rest)
    ]

unfoldable pub unique_room_id : M String
unique_room_id s =
    let (r, rest) = unique_value identity_retry_limit room_id_prefix s.rooms s.random in
    (r, record s { random = rest })

unfoldable pub unique_player_id : M String
unique_player_id s =
    let (r, rest) = unique_value identity_retry_limit player_id_prefix s.player_ids s.random in
    (r, record s { random = rest })

pub record PlayerCredentials : Type 0 where
  pub id : String
  pub session_token : String
  pub session : String

-- `playerIDs[id] = struct{}{}`
unfoldable pub reserve_player_id : String → Store → Store
reserve_player_id id s = record s { player_ids = insert id tt s.player_ids }

-- `releasePlayerIDs`
unfoldable pub forget : List String → Dict (Unit {0}) → Dict (Unit {0})
forget [] taken = taken
forget (id ∷ ids) taken = forget ids (delete id taken)

unfoldable pub release_player_ids : List String → Store → Store
unfolding forget
release_player_ids ids s = record s { player_ids = forget ids s.player_ids }

unfoldable pub session_token : M String
session_token s =
    let (value, rest) = random_value "" s.random in
    (elim value [ none ↦ err internal | some token ↦ ok token ], record s { random = rest })

-- `issuePlayerCredentialsLocked`
unfoldable pub issue_player_credentials_locked : M PlayerCredentials
unfolding session_token
issue_player_credentials_locked = do
  id ← unique_player_id
  token ← session_token
  modify (reserve_player_id id)
  digest ← gets (λ s. s.sha256 token)
  return (record { id = id; session_token = token; session = digest })

-- `issuePlayerCredentials`
unfoldable pub issue_player_credentials : M PlayerCredentials
unfolding issue_player_credentials_locked
issue_player_credentials = do
  closed ← gets (λ s. s.closed)
  refuse_if closed internal
  issue_player_credentials_locked

-- The loop of `reserveBotIDsLocked`, which gives back what it reserved when a draw fails.
unfoldable pub reserve_from : ℕ → List String → M (List String)
reserve_from zero ids s = (ok ids, s)
reserve_from (suc count) ids s =
    let (r, s') = unique_player_id s in
    elim r [
      | ok id ↦ reserve_from count (ids ++ id ∷ []) (reserve_player_id id s')
      | err e ↦ (err e, release_player_ids ids s')
    ]

unfoldable pub reserve_bot_ids : ℕ → M (List String)
unfolding reserve_from
reserve_bot_ids count = reserve_from count []

-- `authenticatePlayer`
unfoldable pub authenticate_player : (String → String) → Room → String → String → Bool
authenticate_player sha256 room player_id raw_token = elim (lookup player_id room.sessions) [
  | none ↦ false
  | some digest ↦ str_eq digest (sha256 raw_token)
]
