-- ===== src/Rooms/Inputs/Order.antt =====
-- What `setInput` promises about the ticks and the presses of a player's inputs (websocket.go).
use server_crawl_stars.Base.{
  ℕ, ◌≡◌, ◌≢◌, ◌⊎◌, String, str_eq, Bool, true, false, not, ◌&&◌, ◌||◌, Option, none, some, arith,
  eq_iff, if◌then◌else◌, inl, inr, Bool-cases, refl, ap, ◌∙◌, is_ref, List, [], ◌∷◌, All,
}
use mathlib.Core.Path.{subst}
use server_crawl_stars.Base.Dict.{lookup, has_key, lookup-insert, lookup-insert_self}
use server_crawl_stars.Simulation.Types.{ℤ, InputCommand}
use server_crawl_stars.Rooms.Types.{Room}
use server_crawl_stars.Rooms.Participants.{has_player}
use server_crawl_stars.Rooms.Inputs.{
  InputDisposition, input_stored, InputMessage, is_positive, leb_ℤ, is_negative, is_stale,
  is_superseded, last_processed_client_tick, command_of, merge_pending, set_room_input,
}

-- A tick that is zero, negative, or newer than the one that was seen.
abbrev pub IsNew : ℤ → ℤ → Type 0
IsNew tick seen = (is_positive tick ≡ false) ⊎ (leb_ℤ tick seen ≡ false)

-- The waiting command, if there is one, gives way to a tick.
abbrev pub GivesWay : ℤ → Option InputCommand → Type 0
GivesWay tick none = Unit
GivesWay tick (some waiting) =
    (is_positive waiting.client_tick ≡ false) ⊎ IsNew tick waiting.client_tick

-- An input that the room takes: for one of its players, from the player's present connection, before
-- the player's result is final, with a tick that is not negative, and newer than the last processed
-- and the waiting one where both are positive.
abbrev pub Accepted : String → InputMessage → ℕ → Room → Type 0
Accepted id input session room =
    (room.removed ≡ false)
    × (room.ending ≡ false)
    × (has_player id room.players ≡ true)
    × (has_key id room.finalized_game_end_results ≡ false)
    × (lookup id room.clients ≡ some session)
    × (is_negative input.client_tick ≡ false)
    × IsNew input.client_tick (last_processed_client_tick room.last_players id)
    × GivesWay input.client_tick (lookup id room.pending_inputs)

-- The command that waits after an input: the input's own, or, where it has no press and one with a
-- press and a positive tick waits, its tick and movement with the press and direction that wait.
abbrev pub waiting_after : String → InputMessage → Option InputCommand → InputCommand
waiting_after id input none = command_of id input
waiting_after id input (some waiting) =
    if is_positive input.client_tick
      && is_positive waiting.client_tick
      && (waiting.pressed_attack || waiting.pressed_skill)
      && not (input.pressed_attack || input.pressed_skill)
    then record {
      player_id = id;
      client_tick = input.client_tick;
      move_dir = input.move_dir;
      attack_dir = waiting.attack_dir;
      pressed_attack = waiting.pressed_attack;
      pressed_skill = waiting.pressed_skill;
    }
    else command_of id input

-- What becomes of an input: it is accepted and waits, or it is not and the room stays.
abbrev pub Handled : ℕ → String → InputMessage → ℕ → Room → InputDisposition × Room → Type 0
Handled now id input session room (disposition, after) =
    (Accepted id input session room
      × (disposition ≡ input_stored)
      × (lookup id after.pending_inputs
          ≡ some (waiting_after id input (lookup id room.pending_inputs)))
      × ((other : String)
          → lookup other after.pending_inputs ≡ (
              if str_eq other id
              then some (waiting_after id input (lookup id room.pending_inputs))
              else lookup other room.pending_inputs))
      × (after ≡ record room { last_activity_at = now; pending_inputs = after.pending_inputs }))
    ⊎ ((¬ Accepted id input session room) × (disposition ≢ input_stored) × (after ≡ room))

-- The tests of `setInput` once the player and the connection are known.
fresh :
    (tick : ℤ) (seen : ℤ) (waiting : Option InputCommand)
    → (is_stale tick seen || is_superseded tick waiting) ≡ false
    → IsNew tick seen × GivesWay tick waiting
fresh tick seen none h = (ground (arith, h), tt)
fresh tick seen (some waiting) h = (ground (arith, h), ground (arith, h))

not_fresh :
    (tick : ℤ) (seen : ℤ) (waiting : Option InputCommand)
    → (is_stale tick seen || is_superseded tick waiting) ≡ true
    → ¬ (IsNew tick seen × GivesWay tick waiting)
not_fresh tick seen none h new = absurd (ground (arith, h, new.0))
not_fresh tick seen (some waiting) h new = absurd (ground (arith, h, new.0, new.1))

abbrev is_shut : String → ℕ → Room → Bool
is_shut id session room =
    room.removed
    || room.ending
    || not (has_player id room.players)
    || has_key id room.finalized_game_end_results
    || not (is_ref (lookup id room.clients) session)

merge-waiting_after :
    (id : String) (input : InputMessage) (waiting : Option InputCommand)
    → merge_pending waiting (command_of id input) ≡ waiting_after id input waiting
unfolding merge_pending
merge-waiting_after id input none = refl
merge-waiting_after id input (some waiting) = ground arith

is_ref-some : (o : Option ℕ) (n : ℕ) → is_ref o n ≡ true → o ≡ some n
is_ref-some none n h = absurd (ground (arith, h))
is_ref-some (some m) n h = ap some (ground (arith, h))

pub set_room_input-Handled :
    (now : ℕ) (id : String) (input : InputMessage) (session : ℕ) (room : Room)
    → Handled now id input session room (set_room_input now id input session room)
unfolding set_room_input
set_room_input-Handled now id input session room =
    let seen = last_processed_client_tick room.last_players id in
    let waiting = lookup id room.pending_inputs in
    let stale = is_stale input.client_tick seen || is_superseded input.client_tick waiting in
    elim (Bool-cases (is_shut id session room)) [
      | inl shut ↦ simp shut (
          inr (
            λ a. absurd (ground (arith, shut, a.0, a.1, a.2, a.3, a.4)),
            λ e. absurd (ground (arith, e)),
            refl,
          ))
      | inr open_room ↦ elim (Bool-cases (is_negative input.client_tick)) [
        | inl negative ↦
            simp (open_room, negative)
              (inr (
                λ a. absurd (ground (arith, negative, a.5)),
                λ e. absurd (ground (arith, e)),
                refl,
              ))
        | inr natural ↦ elim (Bool-cases stale) [
          | inl late ↦
              simp (open_room, natural, late)
                (inr (
                  λ a. absurd (not_fresh input.client_tick seen waiting late (a.6, a.7)),
                  λ e. absurd (ground (arith, e)),
                  refl,
                ))
          | inr timely ↦
              let new = fresh input.client_tick seen waiting timely in
              simp (open_room, natural, timely)
                (inl (
                  (
                    ground (arith, open_room),
                    ground (arith, open_room),
                    ground (arith, open_room),
                    ground (arith, open_room),
                    is_ref-some (lookup id room.clients) session (ground (arith, open_room)),
                    refl,
                    new.0,
                    new.1,
                  ),
                  refl,
                  lookup-insert_self id (merge_pending waiting (command_of id input))
                        room.pending_inputs
                      ∙ ap some (merge-waiting_after id input waiting),
                  λ other. ground (
                    arith,
                    lookup-insert id other (merge_pending waiting (command_of id input))
                        room.pending_inputs,
                    merge-waiting_after id input waiting,
                    eq_iff id other,
                    eq_iff other id,
                  ),
                  refl,
                ))
        ]
      ]
    ]

-- A player's inputs one after the other, each at an instant and from a connection.
unfoldable pub set_room_inputs : String → List (ℕ × ℕ × InputMessage) → Room → Room
unfolding set_room_input
set_room_inputs id [] room = room
set_room_inputs id ((now, session, input) ∷ rest) room =
    set_room_inputs id rest ((set_room_input now id input session room).1)

-- An input without a press, with a positive tick.
abbrev pub OnlyMoves : ℕ × ℕ × InputMessage → Type 0
OnlyMoves (now, session, input) =
    (input.pressed_attack ≡ false)
    × (input.pressed_skill ≡ false)
    × (is_positive input.client_tick ≡ true)

-- A command with the press and the direction of another, and with no older tick.
abbrev pub KeepsPress : InputCommand → InputCommand → Type 0
KeepsPress first c =
    (c.pressed_attack ≡ first.pressed_attack)
    × (c.pressed_skill ≡ first.pressed_skill)
    × (c.attack_dir ≡ first.attack_dir)
    × (is_positive c.client_tick ≡ true)
    × (leb_ℤ first.client_tick c.client_tick ≡ true)

abbrev pub StillWaits : String → InputCommand → Room → Type 0
StillWaits id first room =
    (c : InputCommand) × ((lookup id room.pending_inputs ≡ some c) × KeepsPress first c)

leb_ℤ-trans : (a b c : ℤ) → leb_ℤ a b ≡ true → (leb_ℤ c b ≡ false) → leb_ℤ a c ≡ true
leb_ℤ-trans a b c h k = ground arith

leb_ℤ-refl : (a : ℤ) → leb_ℤ a a ≡ true
leb_ℤ-refl a = ground arith

-- What waits after an input without a press that is accepted.
kept_by :
    (id : String) (input : InputMessage) (first c : InputCommand)
    → (first.pressed_attack || first.pressed_skill) ≡ true
    → KeepsPress first c
    → OnlyMoves (0, 0, input)
    → GivesWay input.client_tick (some c)
    → KeepsPress first (waiting_after id input (some c))
kept_by id input first c press k m way =
    let newer : leb_ℤ input.client_tick c.client_tick ≡ false = ground (arith, k.3, m.2, way) in
    let later : leb_ℤ first.client_tick input.client_tick ≡ true =
      leb_ℤ-trans first.client_tick c.client_tick input.client_tick k.4 newer in
    let taken : waiting_after id input (some c) ≡ record {
      player_id = id;
      client_tick = input.client_tick;
      move_dir = input.move_dir;
      attack_dir = c.attack_dir;
      pressed_attack = c.pressed_attack;
      pressed_skill = c.pressed_skill;
    } =
      ground (arith, press, k.0, k.1, k.3, m) in
    rw taken (k.0, k.1, k.2, m.2, later)

one_kept :
    (now : ℕ) (id : String) (input : InputMessage) (session : ℕ) (room : Room)
    (first : InputCommand) (r : InputDisposition × Room)
    → (first.pressed_attack || first.pressed_skill) ≡ true
    → OnlyMoves (now, session, input)
    → StillWaits id first room
    → Handled now id input session room r
    → StillWaits id first r.1
one_kept now id input session room first (d, after) press m (c, (there, k))
      (inr (refused, other, same)) =
    (c, (ap (λ r. lookup id r.pending_inputs) same ∙ there, k))
one_kept now id input session room first (d, after) press m (c, (there, k))
      (inl (a, stored, waits, others, same)) =
    (
      waiting_after id input (some c),
      (
        waits ∙ ap (λ o. some (waiting_after id input o)) there,
        kept_by id input first c press k m (subst (GivesWay input.client_tick) there a.7),
      ),
    )

-- A press that waits for the next tick, with a positive tick, still waits after any number of the
-- player's inputs that have no press and a positive tick: with both of its flags and its attack
-- direction, and no older tick.
pub set_room_inputs-StillWaits :
    (id : String) (inputs : List (ℕ × ℕ × InputMessage)) (room : Room) (first : InputCommand)
    → (first.pressed_attack || first.pressed_skill) ≡ true
    → All OnlyMoves inputs
    → StillWaits id first room
    → StillWaits id first (set_room_inputs id inputs room)
unfolding set_room_inputs
set_room_inputs-StillWaits id [] room first press all waits = waits
set_room_inputs-StillWaits id ((now, session, input) ∷ rest) room first press (m, all) waits =
    set_room_inputs-StillWaits id rest ((set_room_input now id input session room).1) first press
      all
      (one_kept now id input session room first (set_room_input now id input session room) press m
        waits (set_room_input-Handled now id input session room))

-- An input of one player leaves the waiting inputs of the others as they are.
pub set_room_input-frame :
    (now : ℕ) (id other : String) (input : InputMessage) (session : ℕ) (room : Room)
    → other ≢ id
    → lookup other (set_room_input now id input session room).1.pending_inputs
      ≡ lookup other room.pending_inputs
unfolding set_room_input
set_room_input-frame now id other input session room far =
    let command = merge_pending (lookup id room.pending_inputs) (command_of id input) in
    ground (arith, lookup-insert id other command room.pending_inputs, eq_iff id other)
