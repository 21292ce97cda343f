-- ===== src/Collector/Origins.antt =====
-- internal/collector/collector.go: what the readings are credited to.
use rig_exporter.Base.{
  ℕ, ◌≡◌, inl, inr, refl, ap, ◌∙◌, Bool, Option, none, some, List, [], ◌∷◌, arith, ◌==◌,
  if◌then◌else◌, Bool-cases, length,
}
use rig_exporter.Base.Unicode.{Unicode}
use rig_exporter.Rtss.{Entry}
use rig_exporter.Base.Text.{codes}
use rig_exporter.Collector.{
  is_some, text, flag, number, pairs, is_up, status_text, game_origin, Text, Float, Measure, game,
  running, rtss_up, rtss_status, rtss_version, details, fps, pid, frametime, Value, Snap, Game,
  OpenGame, open_game, rate, frametime_ms, add, add_kept, add_identified, add_game_details,
  frame_rate_fallback, add_rendering, add_fallback, add_frames, add_identity, add_game_readings,
}

module _ {F : Type 0} where
  -- The set's origin and the frame rate's origin are those of before.
  abbrev pub IsCredited : Text → Snap F → Snap F → Type 0
  IsCredited fps_origin s s' = (s'.origin ≡ s.origin) × (s'.fps_origin ≡ fps_origin)

module _ {F : Type 0} (float : Float F) (unicode : Unicode) (repair : Text → Text)
    (round : Measure → F → F) (selected : Measure → Bool) where
  abbrev put : Measure → Value F → Snap F → Snap F
  put = add float unicode repair round selected

  put-IsCredited : (m : Measure) (v : Value F) (s : Snap F) → IsCredited s.fps_origin s (put m v s)
  unfolding add
  put-IsCredited m v s = ground arith

  add_identity-IsCredited :
      (held : OpenGame) (rendering : Bool) (s : Snap F)
      → IsCredited s.fps_origin s
          (add_identity float unicode repair round selected held rendering s)
  unfolding add_identity
  add_identity-IsCredited held rendering s =
      let shown = if length held.name == 0 then codes "none" else held.name in
      let s₁ = put game (text (repair shown)) s in
      let s₂ = put running (flag rendering) s₁ in
      let s₃ = put rtss_up (flag (is_up s.status)) s₂ in
      let s₄ = put rtss_status (text (repair (status_text s.status))) s₃ in
      let c₁ = put-IsCredited game (text (repair shown)) s in
      let c₂ = put-IsCredited running (flag rendering) s₁ in
      let c₃ = put-IsCredited rtss_up (flag (is_up s.status)) s₂ in
      let c₄ = put-IsCredited rtss_status (text (repair (status_text s.status))) s₃ in
      let four : IsCredited s.fps_origin s s₄ =
        (c₄.0 ∙ c₃.0 ∙ c₂.0 ∙ c₁.0, c₄.1 ∙ c₃.1 ∙ c₂.1 ∙ c₁.1) in
      elim (Bool-cases (length s.version == 0)) [
        | inl e ↦ rw e four
        | inr e ↦
            let c = put-IsCredited rtss_version (text (repair s.version)) s₄ in
            rw e (c.0 ∙ four.0, c.1 ∙ four.1)
      ]

  add_kept-IsCredited :
      (ds : List (Text × Text)) (s : Snap F)
      → IsCredited s.fps_origin s (add_kept float unicode repair round selected ds s)
  unfolding add_kept
  add_kept-IsCredited [] s = (refl, refl)
  add_kept-IsCredited (d ∷ ds) s = put-IsCredited details (pairs (d ∷ ds)) s

  add_identified-IsCredited :
      (g : Option Game) (s : Snap F)
      → IsCredited s.fps_origin s (add_identified float unicode repair round selected g s)
  unfolding add_identified
  add_identified-IsCredited none s = (refl, refl)
  add_identified-IsCredited (some g) s =
      (refl, (add_kept-IsCredited _ (record s { origin = game_origin g.platform })).1)

  add_game_details-IsCredited :
      (identify : Option (Text → Option Game)) (path : Text) (s : Snap F)
      → IsCredited s.fps_origin s
          (add_game_details float unicode repair round selected identify path s)
  unfolding add_game_details
  add_game_details-IsCredited none path s = (refl, refl)
  add_game_details-IsCredited (some identify) path s = add_identified-IsCredited (identify path) s

  -- The frame rate's origin after a poll.
  abbrev pub credit : Text → Option F → Option Entry → Text → Text
  credit frame_origin frames (some e) before = before
  credit frame_origin none none before = before
  credit frame_origin (some r) none before = if float.is_positive r then frame_origin else before

  add_frames-IsCredited :
      (frame_origin : Text) (frames : Option F) (entry : Option Entry) (s : Snap F)
      → IsCredited
          (credit frame_origin frames entry s.fps_origin)
          s
          (add_frames float unicode repair round selected frame_origin frames entry s)
  unfolding add_frames add_rendering add_fallback frame_rate_fallback
  add_frames-IsCredited frame_origin frames (some e) s =
      let ft = frametime_ms float unicode repair round selected e in
      let shown = number (round fps (rate float unicode repair round selected e)) in
      let process = number (round pid (float.of_nat e.process_id)) in
      let s₁ = put fps shown s in
      let s₂ = put pid process s₁ in
      let c₁ = put-IsCredited fps shown s in
      let c₂ = put-IsCredited pid process s₁ in
      elim (Bool-cases (float.is_positive ft)) [
        | inl h ↦
            let c = put-IsCredited frametime (number (round frametime ft)) s₂ in
            rw h (c.0 ∙ c₂.0 ∙ c₁.0, c.1 ∙ c₂.1 ∙ c₁.1)
        | inr h ↦ rw h (c₂.0 ∙ c₁.0, c₂.1 ∙ c₁.1)
      ]
  add_frames-IsCredited frame_origin none none s =
      put-IsCredited fps (number (round fps (float.of_nat 0))) s
  add_frames-IsCredited frame_origin (some x) none s = elim (Bool-cases (float.is_positive x)) [
    | inl h ↦ rw h (refl, refl)
    | inr h ↦ rw h (put-IsCredited fps (number (round fps (float.of_nat 0))) s)
  ]

  -- The readings of a game and its frame rate leave the set's origin as it was, whoever they credit in
  -- between; the frame rate's own origin is that of the driver's counter exactly where that was used, and
  -- otherwise what it was.
  pub add_game_readings-IsCredited :
      (identify : Option (Text → Option Game)) (frame_origin : Text) (frames : Option F) (now : ℕ)
      (entry : Option Entry) (held : OpenGame) (s : Snap F)
      → IsCredited
          (credit frame_origin frames entry s.fps_origin)
          s
          (add_game_readings float unicode repair round selected identify frame_origin frames now
            entry held s).1
  unfolding add_game_readings
  add_game_readings-IsCredited identify frame_origin frames now entry held s =
      let shown = open_game held entry now in
      let named = add_identity float unicode repair round selected shown (is_some entry) s in
      let c₁ = add_identity-IsCredited shown (is_some entry) s in
      elim (Bool-cases (length shown.path == 0)) [
        | inl e ↦
            let c = add_frames-IsCredited frame_origin frames entry named in
            rw e (c.0 ∙ c₁.0, c.1 ∙ ap (credit frame_origin frames entry) c₁.1)
        | inr e ↦
            let detailed =
              add_game_details float unicode repair round selected identify shown.path named in
            let c₂ = add_game_details-IsCredited identify shown.path named in
            let c = add_frames-IsCredited frame_origin frames entry detailed in
            rw e (c.0 ∙ c₂.0 ∙ c₁.0, c.1 ∙ ap (credit frame_origin frames entry) (c₂.1 ∙ c₁.1))
      ]
