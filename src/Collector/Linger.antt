-- ===== src/Collector/Linger.antt =====
-- internal/collector/collector.go: how long the identity of a game outlives its detection.
use rig_exporter.Base.{
  ℕ, ◌+◌, ◌≤◌, ◌<◌, ◌≡◌, inl, inr, refl, ap, ◌∙◌, none, some, List, [], ◌∷◌, arith, leb, leb→le,
  Bool-cases, length, All, Any,
}
use rig_exporter.Rtss.{Entry, base_name}
use rig_exporter.Collector.{OpenGame, no_game_open, game_linger, open_game}

-- Polls in which nothing renders, at these times.
abbrev pub silent : OpenGame → List ℕ → OpenGame
silent held [] = held
silent held (now ∷ times) = silent (open_game held none now) times

silent-no_game_open : (times : List ℕ) → silent no_game_open times ≡ no_game_open
unfolding open_game
silent-no_game_open [] = refl
silent-no_game_open (now ∷ times) = silent-no_game_open times

open_game-in_time :
    (held : OpenGame) (now : ℕ)
    → 0 < length held.name
    → now ≤ held.since + game_linger
    → open_game held none now ≡ held
unfolding open_game
open_game-in_time held now h k = ground arith

open_game-late :
    (held : OpenGame) (now : ℕ)
    → held.since + game_linger < now
    → open_game held none now ≡ no_game_open
unfolding open_game
open_game-late held now k = ground arith

silent-in_time :
    (held : OpenGame) (times : List ℕ)
    → 0 < length held.name
    → All (λ t. t ≤ held.since + game_linger) times
    → silent held times ≡ held
silent-in_time held [] h k = refl
silent-in_time held (now ∷ times) h k =
    ap (λ o. silent o times) (open_game-in_time held now h k.0) ∙ silent-in_time held times h k.1

silent-late :
    (held : OpenGame) (times : List ℕ)
    → 0 < length held.name
    → Any (λ t. held.since + game_linger < t) times
    → silent held times ≡ no_game_open
silent-late held [] h k = elim k [ ]
silent-late held (now ∷ times) h (inl k) =
    ap (λ o. silent o times) (open_game-late held now k) ∙ silent-no_game_open times
silent-late held (now ∷ times) h (inr k) = elim (Bool-cases (leb now (held.since + game_linger))) [
  | inl e ↦
      ap (λ o. silent o times)
        (open_game-in_time held now h (leb→le now (held.since + game_linger) e))
      ∙ silent-late held times h k
  | inr e ↦
      ap (λ o. silent o times) (open_game-late held now (ground arith)) ∙ silent-no_game_open times
]

-- A game that RTSS reports under a name is the open one at once, whatever was open before; it stays so,
-- with the time it was last seen, over any polls without an entry up to 15 seconds later, and a poll
-- without one after that forgets it for good.
pub open_game_exact :
    (before : OpenGame) (entry : Entry) (now : ℕ) (times : List ℕ)
    → 0 < length (base_name entry)
    → let shown : OpenGame = record { name = base_name entry; path = entry.path; since = now } in
      (open_game before (some entry) now ≡ shown)
      × (All (λ t. t ≤ now + game_linger) times
          → silent (open_game before (some entry) now) times ≡ shown)
      × (Any (λ t. now + game_linger < t) times
          → silent (open_game before (some entry) now) times ≡ no_game_open)
unfolding open_game
open_game_exact before entry now times h =
    let shown : OpenGame = record { name = base_name entry; path = entry.path; since = now } in
    (refl, silent-in_time shown times h, silent-late shown times h)
