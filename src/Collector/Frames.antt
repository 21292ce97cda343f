-- ===== src/Collector/Frames.antt =====
-- internal/collector/collector.go: which readings a poll adds for the frame rate.
use rig_exporter.Base.{
  ℕ, ◌+◌, ◌≡◌, inl, inr, Bool, true, false, Option, none, some, arith, ◌==◌, if◌then◌else◌,
  Bool-cases, length,
}
use rig_exporter.Base.Unicode.{Unicode}
use rig_exporter.Rtss.{Entry}
use rig_exporter.Collector.{
  is_some, number, Text, Float, Measure, fps, pid, frametime, Value, Snap, Game, OpenGame,
  open_game, rate, frametime_ms, add, add_game_details, frame_rate_fallback, add_rendering,
  add_fallback, add_frames, add_identity, add_game_readings,
}
use rig_exporter.Collector.Counting.{one_if, count, count-add, detailed-count}

module _ {F : Type 0} (float : Float F) (unicode : Unicode) (repair : Text → Text)
    (round : Measure → F → F) (selected : Measure → Bool) where
  abbrev put : Measure → Value F → Snap F → Snap F
  put = add float unicode repair round selected

  -- Whether a frame time is there to be reported.
  abbrev pub has_frametime : Option Entry → Option F → Bool
  has_frametime (some e) frames =
      float.is_positive (frametime_ms float unicode repair round selected e)
  has_frametime none none = false
  has_frametime none (some r) = float.is_positive r

  abbrev pub has_pid : Option Entry → ℕ
  has_pid none = 0
  has_pid (some e) = 1

  -- The three counts together, before and after.
  abbrev Adds : ℕ → ℕ → ℕ → Snap F → Snap F → Type 0
  Adds a b c s s' =
      (count fps s'.readings ≡ count fps s.readings + a)
      × (count pid s'.readings ≡ count pid s.readings + b)
      × (count frametime s'.readings ≡ count frametime s.readings + c)

  put-fps : (v : Value F) (s : Snap F) → selected fps ≡ true → Adds 1 0 0 s (put fps v s)
  put-fps v s e = (
    ground (arith, count-add float unicode repair round selected fps fps v s),
    ground (arith, count-add float unicode repair round selected pid fps v s),
    ground (arith, count-add float unicode repair round selected frametime fps v s),
  )

  put-pid : (v : Value F) (s : Snap F) → selected pid ≡ true → Adds 0 1 0 s (put pid v s)
  put-pid v s e = (
    ground (arith, count-add float unicode repair round selected fps pid v s),
    ground (arith, count-add float unicode repair round selected pid pid v s),
    ground (arith, count-add float unicode repair round selected frametime pid v s),
  )

  put-frametime :
      (v : Value F) (s : Snap F) → selected frametime ≡ true → Adds 0 0 1 s (put frametime v s)
  put-frametime v s e = (
    ground (arith, count-add float unicode repair round selected fps frametime v s),
    ground (arith, count-add float unicode repair round selected pid frametime v s),
    ground (arith, count-add float unicode repair round selected frametime frametime v s),
  )

  Adds-then :
      (a b c a' b' c' : ℕ) (s t r : Snap F)
      → Adds a b c s t
      → Adds a' b' c' t r
      → Adds (a + a') (b + b') (c + c') s r
  Adds-then a b c a' b' c' s t r h k =
      (omega (arith, h.0, k.0), omega (arith, h.1, k.1), omega (arith, h.2, k.2))

  add_frames-Adds :
      (frame_origin : Text) (frames : Option F) (entry : Option Entry) (s : Snap F)
      → selected fps ≡ true
      → selected pid ≡ true
      → selected frametime ≡ true
      → Adds 1
          (has_pid entry)
          (one_if (has_frametime entry frames))
          s
          (add_frames float unicode repair round selected frame_origin frames entry s)
  unfolding add_frames add_rendering add_fallback frame_rate_fallback
  add_frames-Adds frame_origin frames (some e) s p q r =
      let ft = frametime_ms float unicode repair round selected e in
      let s₁ = put fps (number (round fps (rate float unicode repair round selected e))) s in
      let s₂ = put pid (number (round pid (float.of_nat e.process_id))) s₁ in
      let two =
        Adds-then 1 0 0 0 1 0 s s₁ s₂
          (put-fps (number (round fps (rate float unicode repair round selected e))) s p)
          (put-pid (number (round pid (float.of_nat e.process_id))) s₁ q) in
      elim (Bool-cases (float.is_positive ft)) [
        | inl h ↦ rw h (
            Adds-then 1 1 0 0 0 1 s s₂ (put frametime (number (round frametime ft)) s₂) two
              (put-frametime (number (round frametime ft)) s₂ r))
        | inr h ↦ rw h two
      ]
  add_frames-Adds frame_origin none none s p q r = put-fps (number (round fps (float.of_nat 0))) s p
  add_frames-Adds frame_origin (some x) none s p q r =
      let inverse = number (round frametime (float.divide (float.of_nat 1000) x)) in
      let s₀ = record s { origin = frame_origin } in
      let s₁ = put fps (number (round fps x)) s₀ in
      elim (Bool-cases (float.is_positive x)) [
        | inl h ↦ rw h (
            Adds-then 1 0 0 0 0 1 s₀ s₁ (put frametime inverse s₁)
              (put-fps (number (round fps x)) s₀ p) (put-frametime inverse s₁ r))
        | inr h ↦ rw h (put-fps (number (round fps (float.of_nat 0))) s p)
      ]

  -- While the frame rate, the process id and the frame time are selected, a poll adds exactly one frame
  -- rate whatever renders, a process id exactly where RTSS has an entry, and a frame time exactly where
  -- one was measured: a positive one of the entry or, without an entry, a positive rate of the driver.
  pub add_game_readings-Adds :
      (identify : Option (Text → Option Game)) (frame_origin : Text) (frames : Option F) (now : ℕ)
      (entry : Option Entry) (held : OpenGame) (s : Snap F)
      → selected fps ≡ true
      → selected pid ≡ true
      → selected frametime ≡ true
      → Adds 1
          (has_pid entry)
          (one_if (has_frametime entry frames))
          s
          (add_game_readings float unicode repair round selected identify frame_origin frames now
            entry held s).1
  unfolding add_game_readings
  add_game_readings-Adds identify frame_origin frames now entry held s p q r =
      let shown = open_game held entry now in
      let named = add_identity float unicode repair round selected shown (is_some entry) s in
      let detailed =
        if length shown.path == 0
        then named
        else add_game_details float unicode repair round selected identify shown.path named in
      let (x, y, z) = add_frames-Adds frame_origin frames entry detailed p q r in
      (
        omega (
          arith,
          x,
          detailed-count float unicode repair round selected fps identify shown (is_some entry) s
              (omega arith),
        ),
        omega (
          arith,
          y,
          detailed-count float unicode repair round selected pid identify shown (is_some entry) s
              (omega arith),
        ),
        omega (
          arith,
          z,
          detailed-count float unicode repair round selected frametime identify shown
              (is_some entry) s (omega arith),
        ),
      )
