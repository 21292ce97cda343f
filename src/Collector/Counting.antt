-- ===== src/Collector/Counting.antt =====
-- internal/collector/collector.go: how many readings of a measurement a step of a poll adds.
use rig_exporter.Base.{
  ℕ, ◌+◌, ◌<◌, ◌≡◌, inl, inr, refl, ◌∙◌, Bool, true, false, ◌&&◌, Option, none, some, List, [], ◌∷◌,
  ◌++◌, arith, ◌==◌, if◌then◌else◌, Bool-cases, length,
}
use rig_exporter.Base.Unicode.{Unicode}
use rig_exporter.Base.Text.{codes}
use rig_exporter.Collector.{
  text, flag, pairs, is_up, status_text, game_origin, Text, Float, Measure, game, running, rtss_up,
  rtss_status, rtss_version, details, fps, pid, frametime, Value, Reading, Snap, Game, OpenGame,
  add, add_kept, add_identified, add_game_details, add_identity,
}

abbrev pub number_of : Measure → ℕ
number_of game = 0
number_of running = 1
number_of rtss_up = 2
number_of rtss_status = 3
number_of rtss_version = 4
number_of details = 5
number_of fps = 6
number_of pid = 7
number_of frametime = 8

abbrev pub one_if : Bool → ℕ
one_if true = 1
one_if false = 0

module _ {F : Type 0} where
  -- How many readings there are of a measurement.
  abbrev pub count : Measure → List (Reading F) → ℕ
  count k [] = 0
  count k (r ∷ rs) = one_if (number_of r.measure == number_of k) + count k rs

  count-append :
      (k : Measure) (rs ss : List (Reading F)) → count k (rs ++ ss) ≡ count k rs + count k ss
  count-append k [] ss = omega arith
  count-append k (r ∷ rs) ss = omega (arith, count-append k rs ss)

module _ {F : Type 0} (float : Float F) (unicode : Unicode) (repair : Text → Text)
    (round : Measure → F → F) (selected : Measure → Bool) where
  pub count-add :
      (k m : Measure) (v : Value F) (s : Snap F)
      → count k (add float unicode repair round selected m v s).readings
        ≡ count k s.readings + one_if (selected m && number_of m == number_of k)
  unfolding add
  count-add k m v s = elim (Bool-cases (selected m)) [
    | inl e ↦ rw e (
        omega (
          arith,
          count-append k s.readings (record { measure = m; value = v; origin = s.origin } ∷ []),
        ))
    | inr e ↦ rw e (omega arith)
  ]

  -- Of another measurement nothing is added.
  count-add_other :
      (k m : Measure) (v : Value F) (s : Snap F)
      → number_of m < number_of k
      → count k (add float unicode repair round selected m v s).readings ≡ count k s.readings
  count-add_other k m v s h = ground (arith, count-add k m v s)

  abbrev put : Measure → Value F → Snap F → Snap F
  put = add float unicode repair round selected

  add_identity-count :
      (k : Measure) (held : OpenGame) (rendering : Bool) (s : Snap F)
      → 5 < number_of k
      → count k (add_identity float unicode repair round selected held rendering s).readings
        ≡ count k s.readings
  unfolding add_identity
  add_identity-count k held rendering s h =
      let shown = if length held.name == 0 then codes "none" else held.name in
      let s₁ = put game (text (repair shown)) s in
      let s₂ = put running (flag rendering) s₁ in
      let s₃ = put rtss_up (flag (is_up s.status)) s₂ in
      let s₄ = put rtss_status (text (repair (status_text s.status))) s₃ in
      let four : count k s₄.readings ≡ count k s.readings = omega (
        arith,
        count-add_other k game (text (repair shown)) s (omega arith),
        count-add_other k running (flag rendering) s₁ (omega arith),
        count-add_other k rtss_up (flag (is_up s.status)) s₂ (omega arith),
        count-add_other k rtss_status (text (repair (status_text s.status))) s₃ (omega arith),
      ) in
      elim (Bool-cases (length s.version == 0)) [
        | inl e ↦ rw e four
        | inr e ↦
            rw e (count-add_other k rtss_version (text (repair s.version)) s₄ (omega arith) ∙ four)
      ]

  add_kept-count :
      (k : Measure) (ds : List (Text × Text)) (s : Snap F)
      → 5 < number_of k
      → count k (add_kept float unicode repair round selected ds s).readings ≡ count k s.readings
  unfolding add_kept
  add_kept-count k [] s h = refl
  add_kept-count k (d ∷ ds) s h = count-add_other k details (pairs (d ∷ ds)) s h

  add_identified-count :
      (k : Measure) (g : Option Game) (s : Snap F)
      → 5 < number_of k
      → count k (add_identified float unicode repair round selected g s).readings
        ≡ count k s.readings
  unfolding add_identified
  add_identified-count k none s h = refl
  add_identified-count k (some g) s h =
      add_kept-count k _ (record s { origin = game_origin g.platform }) h

  add_game_details-count :
      (k : Measure) (identify : Option (Text → Option Game)) (path : Text) (s : Snap F)
      → 5 < number_of k
      → count k (add_game_details float unicode repair round selected identify path s).readings
        ≡ count k s.readings
  unfolding add_game_details
  add_game_details-count k none path s h = refl
  add_game_details-count k (some identify) path s h = add_identified-count k (identify path) s h

  pub detailed-count :
      (k : Measure) (identify : Option (Text → Option Game)) (shown : OpenGame) (rendering : Bool)
      (s : Snap F)
      → 5 < number_of k
      → let named = add_identity float unicode repair round selected shown rendering s in
        count k
          (if length shown.path == 0
            then named
            else add_game_details float unicode repair round selected identify shown.path
                named).readings
        ≡ count k s.readings
  detailed-count k identify shown rendering s h =
      let named = add_identity float unicode repair round selected shown rendering s in
      elim (Bool-cases (length shown.path == 0)) [
        | inl e ↦ rw e (add_identity-count k shown rendering s h)
        | inr e ↦ rw e (
            add_game_details-count k identify shown.path named h
            ∙ add_identity-count k shown rendering s h)
      ]
