-- ===== src/Config/Saving.antt =====
-- What a save, a load and a migration of internal/config/config.go leave on the disk.
use rig_exporter.Base.{
  ◌≡◌, ◌⊎◌, inl, inr, refl, Bool, true, false, none, some, [], ◌∷◌, ◌++◌, arith, Bool-cases,
}
use rig_exporter.Base.Unicode.{Unicode}
use rig_exporter.Config.{Text, Machine, Config, defaults, normalize}
use mathlib.Core.Path.{subst}
use rig_exporter.Config.Normalized.{Agree, normalize-Agree}
use rig_exporter.Config.Storage.{
  Json, Files, fails, rest_of, step, give_up, replace, secure, written, write_temp, create_temp,
  write_encoded, save, load, strip_bom,
}

-- A save ends with the whole text in config.json and no temporary file, or with config.json as it was and
-- no temporary file that could be removed.
abbrev pub IsSaved : Text → Files → Bool × Files → Type 0
IsSaved raw w (true, v) = (v.file ≡ some raw) × (v.temp ≡ none)
IsSaved raw w (false, v) = (v.file ≡ w.file) × ((v.temp ≡ none) ⊎ (v.leftover ≡ true))

give_up-IsSaved : (raw : Text) (w : Files) → IsSaved raw w (give_up w)
unfolding give_up
give_up-IsSaved raw w = ground arith

replace-IsSaved : (raw : Text) (w : Files) → w.temp ≡ some raw → IsSaved raw w (replace w)
unfolding replace
replace-IsSaved raw w h = elim (Bool-cases (fails w.faults)) [
  | inl e ↦ rw e (give_up-IsSaved raw (step w))
  | inr e ↦ rw e (h, refl)
]

secure-IsSaved : (raw : Text) (w : Files) → w.temp ≡ some raw → IsSaved raw w (secure w)
unfolding secure
secure-IsSaved raw w h = elim (Bool-cases (fails w.faults)) [
  | inl e ↦ rw e (give_up-IsSaved raw (step w))
  | inr e ↦ rw e (replace-IsSaved raw (step w) h)
]

write_temp-IsSaved : (raw : Text) (w : Files) → IsSaved raw w (write_temp raw w)
unfolding write_temp
write_temp-IsSaved raw w = elim (Bool-cases (fails w.faults)) [
  | inl e ↦ rw e (give_up-IsSaved raw (written true raw w))
  | inr e ↦ elim (Bool-cases (fails (rest_of w.faults))) [
    | inl f ↦ rw (e, f) (give_up-IsSaved raw (written false raw w))
    | inr f ↦ rw (e, f) (secure-IsSaved raw (written false raw w) refl)
  ]
]

create_temp-IsSaved : (raw : Text) (w : Files) → w.temp ≡ none → IsSaved raw w (create_temp raw w)
unfolding create_temp
create_temp-IsSaved raw w h = elim (Bool-cases (fails w.faults)) [
  | inl e ↦ rw e (refl, inl h)
  | inr e ↦ rw e (write_temp-IsSaved raw (record (step w) { temp = some [] }))
]

abbrev pub newline : Text
newline = 10 ∷ []

module _ (u : Unicode) (m : Machine) (json : Json) where
  -- Whichever of its calls fail, a save either puts the whole text of the normalised settings in config.json,
  -- or leaves config.json as it was; in both cases it leaves no temporary file, unless the removal of that
  -- file failed itself.
  pub save-IsSaved :
      (c : Config) (w : Files) (raw : Text)
      → json.encode (normalize u m c) ≡ some raw
      → w.temp ≡ none
      → IsSaved (raw ++ newline) w (save u m json c w)
  unfolding save write_encoded
  save-IsSaved c w raw e h = elim (Bool-cases (fails w.faults)) [
    | inl f ↦ rw f (refl, inl h)
    | inr f ↦ rw (f, e) (create_temp-IsSaved (raw ++ newline) (step w) h)
  ]

  saved_file :
      (c : Config) (w v : Files) (raw : Text)
      → json.encode (normalize u m c) ≡ some raw
      → w.temp ≡ none
      → save u m json c w ≡ (true, v)
      → v.file ≡ some (raw ++ newline)
  saved_file c w v raw e h s =
      (subst (λ r. IsSaved (raw ++ newline) w r) s (save-IsSaved c w raw e h)).0

  read_back :
      (w : Files) (raw : Text) (c : Config)
      → w.file ≡ some raw
      → fails w.faults ≡ false
      → json.decode (strip_bom raw) (defaults u m) ≡ some c
      → load u m json w
        ≡ (record { config = normalize u m c; created = false; failed = false }, step w)
  unfolding load
  read_back w raw c h f d = rw (f, h, d) refl

  -- Where JSON gives back what it wrote, and to trim a text twice is to trim it once: what a save that
  -- succeeded wrote is read without an error by a load that can read the file, and gives the settings that
  -- were saved, as Normalize leaves them, in the numbers, the preset, the sensor set, the measurements added
  -- and removed, the token of the data server, the organisation, bucket and token of the database, and the
  -- switches, except that the push to the database goes off where the second trimming leaves nothing of its
  -- address.
  pub load-save :
      (c : Config) (w v : Files) (raw : Text)
      → ((t : Text) → u.trim_space (u.trim_space t) ≡ u.trim_space t)
      → json.encode (normalize u m c) ≡ some raw
      → json.decode (strip_bom (raw ++ newline)) (defaults u m) ≡ some (normalize u m c)
      → w.temp ≡ none
      → save u m json c w ≡ (true, v)
      → fails v.faults ≡ false
      → ((load u m json v).0.failed ≡ false) × Agree (load u m json v).0.config (normalize u m c)
  load-save c w v raw twice e d h s f =
      let back = read_back v (raw ++ newline) (normalize u m c) (saved_file c w v raw e h s) f d in
      rw back (refl, normalize-Agree u m c twice)

  saves :
      (c : Config) (w : Files) (raw : Text)
      → json.encode (normalize u m c) ≡ some raw
      → w.faults ≡ []
      → (save u m json c w).0 ≡ true
  unfolding save write_encoded create_temp write_temp secure replace
  saves c w raw e f = rw (f, e) refl
