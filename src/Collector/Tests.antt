-- ===== src/Collector/Tests.antt =====
-- Runs of the collector's game readings, with whole numbers for the floating point.
use rig_exporter.Base.{
  ℕ, ◌+◌, ◌*◌, ◌/◌, ◌≤◌, ◌<◌, ◌≡◌, refl, Bool, true, false, none, some, [], ◌∷◌, arith, ltb, All,
  Any,
}
use rig_exporter.Rtss.{Entry, base_name}
use rig_exporter.Base.Text.{codes}
use rig_exporter.Collector.{
  text, flag, number, Text, Float, Measure, game, running, rtss_up, rtss_status, fps, pid,
  frametime, Snap, OpenGame, open_game, add_game_readings, up, game_linger, no_game_open,
}
use rig_exporter.Base.Unicode.{ascii}
use rig_exporter.Collector.Linger.{silent, open_game_exact}
use rig_exporter.Collector.Counting.{count}
use rig_exporter.Collector.Frames.{add_game_readings-Adds}
use rig_exporter.Collector.Origins.{IsCredited, add_game_readings-IsCredited}

abbrev whole : Float ℕ
whole = record {
  of_nat = λ n. n;
  divide = λ a b. a / b;
  times = λ a b. a * b;
  is_positive = λ a. ltb 0 a;
}

abbrev hooked : Entry
hooked = record {
  process_id = 7;
  path = codes "C:/g.exe";
  flags = 0;
  time0 = 1000;
  time1 = 2000;
  frames = 60;
  frame_time_us = 16000;
  stat_framerate_avg = 0;
}

abbrev empty : Snap ℕ
empty = record {
  readings = [];
  origin = codes "R";
  status = up;
  message = none;
  version = [];
  fps_origin = [];
}

abbrev all_on : Measure → Bool
all_on m = true

abbrev same : Text → Text
same t = t

abbrev unrounded : Measure → ℕ → ℕ
unrounded m n = n

driver_rate :
    (add_game_readings whole ascii same unrounded all_on none
      (codes "AMD")
      (some 50)
      9
      none
      no_game_open
      empty).1
    ≡ record empty {
      readings =
          record { measure = game; value = text (codes "none"); origin = codes "R" }
          ∷ record { measure = running; value = flag false; origin = codes "R" }
          ∷ record { measure = rtss_up; value = flag true; origin = codes "R" }
          ∷ record { measure = rtss_status; value = text (codes "ok"); origin = codes "R" }
          ∷ record { measure = fps; value = number 50; origin = codes "AMD" }
          ∷ record { measure = frametime; value = number 20; origin = codes "AMD" }
          ∷ [];
      fps_origin = codes "AMD";
    }
unfolding add_game_readings
driver_rate = refl

open_game_exact_example :
    let shown : OpenGame = record { name = codes "g.exe"; path = codes "C:/g.exe"; since = 5 } in
    (open_game no_game_open (some hooked) 5 ≡ shown)
    × (All (λ t. t ≤ 5 + game_linger) (20 ∷ 15000000006 ∷ [])
        → silent (open_game no_game_open (some hooked) 5) (20 ∷ 15000000006 ∷ []) ≡ shown)
    × (Any (λ t. 5 + game_linger < t) (20 ∷ 15000000006 ∷ [])
        → silent (open_game no_game_open (some hooked) 5) (20 ∷ 15000000006 ∷ []) ≡ no_game_open)
unfolding open_game
open_game_exact_example =
    open_game_exact no_game_open hooked 5 (20 ∷ 15000000006 ∷ []) (unfold base_name in omega arith)

abbrev after_hooked : Snap ℕ
after_hooked =
    (add_game_readings whole ascii same unrounded all_on none (codes "AMD") (some 50) 9
      (some hooked) no_game_open empty).1

add_game_readings-Adds_example :
    (count fps after_hooked.readings ≡ 1)
    × (count pid after_hooked.readings ≡ 1)
    × (count frametime after_hooked.readings ≡ 1)
unfolding add_game_readings
add_game_readings-Adds_example =
    add_game_readings-Adds whole ascii same unrounded all_on none (codes "AMD") (some 50) 9
      (some hooked) no_game_open empty refl refl refl

add_game_readings-IsCredited_example :
    IsCredited
      (codes "AMD")
      empty
      (add_game_readings whole ascii same unrounded all_on none
        (codes "AMD")
        (some 50)
        9
        none
        no_game_open
        empty).1
add_game_readings-IsCredited_example =
    add_game_readings-IsCredited whole ascii same unrounded all_on none (codes "AMD") (some 50) 9
      none no_game_open empty
