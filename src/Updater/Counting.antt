-- ===== src/Updater/Counting.antt =====
-- internal/updater/source.go: what the counting reader reports, and what `Stage` accepts.
use rig_exporter.Base.{
  ℕ, suc, ◌+◌, ◌*◌, ◌≤◌, ◌<◌, min, ◌≡◌, ◌⊎◌, inl, inr, refl, true, Option, none, some, List, [],
  ◌∷◌, arith, ltb, leb, leb→le, ==_refl, Bool-cases, Option-cases, length, ok,
}
use mathlib.Core.Option.{some-injective}
use rig_exporter.Updater.Source.{
  Text, note, stage_native, CountingReader, read, read_all, Native, Release, Staging, stage,
  release_asset_name, text_eq, max_release_size, latest, detected,
}

-- The reports climb by at least one percent each, from above `reported` up to 100 percent.
abbrev pub Climbs : ℕ → ℕ → List ℕ → Type 0
Climbs total from [] = Unit
Climbs total from (p ∷ ps) = (from + total ≤ p) × (p ≤ 100 * total) × Climbs total p ps

read-total : (r : CountingReader) (n : ℕ) → (read r n).0.total ≡ r.total
unfolding read
read-total r n = ground arith

read_report :
    (r : CountingReader) (n : ℕ)
    → (((read r n).1 ≡ none) × ((read r n).0.reported ≡ r.reported))
      ⊎ ((p : ℕ) × ((read r n).1 ≡ some p)
          × ((read r n).0.reported ≡ p)
          × (r.reported + r.total ≤ p)
          × (p ≤ 100 * r.total))
unfolding read
read_report r n = elim (Bool-cases (ltb 0 n)) [
  | inl some' ↦
      elim (Bool-cases (leb (r.reported + r.total) (min (100 * (r.read + n)) (100 * r.total)))) [
        | inl climb ↦
            rw (some', climb)
              (inr (
                min (100 * (r.read + n)) (100 * r.total),
                refl,
                refl,
                leb→le _ _ climb,
                omega arith,
              ))
        | inr same ↦ rw (some', same) (inl (refl, refl))
      ]
  | inr empty ↦ rw empty (inl (refl, refl))
]

Climbs-note :
    (total from now : ℕ) (o : Option ℕ) (ps : List ℕ)
    → ((o ≡ none) × (now ≡ from))
      ⊎ ((p : ℕ) × (o ≡ some p) × (now ≡ p) × (from + total ≤ p) × (p ≤ 100 * total))
    → Climbs total now ps
    → Climbs total from (note o ps)
Climbs-note total from now none ps (inl (e, same)) c = rw same at c
Climbs-note total from now none ps (inr (p, e, _, _, _)) c = absurd (cc)
Climbs-note total from now (some q) ps (inl (e, same)) c = absurd (cc)
Climbs-note total from now (some q) ps (inr (p, e, eq, above, capped)) c =
    let same : q ≡ p = some-injective q p e in rw same (above, capped, rw eq at c)

read_all-Climbs : (r : CountingReader) (ns : List ℕ) → Climbs r.total r.reported (read_all r ns).1
unfolding read_all
read_all-Climbs r [] = tt
read_all-Climbs r (n ∷ ns) =
    let rest : Climbs r.total (read r n).0.reported (read_all (read r n).0 ns).1 =
      rw read-total at (read_all-Climbs (read r n).0 ns) in
    Climbs-note r.total r.reported (read r n).0.reported (read r n).1 (read_all (read r n).0 ns).1
      (read_report r n) rest

Climbs-length :
    (total from : ℕ) (ps : List ℕ)
    → from ≤ 100 * total
    → Climbs total from ps
    → from + length ps * total ≤ 100 * total
Climbs-length total from [] h c = omega arith
Climbs-length total from (p ∷ ps) h c =
    omega (arith, Climbs-length total p ps c.1 c.2, suc_mul (length ps) total)
  where
    suc_mul : (k t : ℕ) → suc k * t ≡ k * t + t
    suc_mul k t = grind arith

few_of_product : (k t : ℕ) → 0 < t → k * t ≤ 100 * t → k ≤ 100
few_of_product k t h p = grind arith

-- A fresh reader of a non-empty asset reports at most a hundred times, whatever the sizes of the
-- reads; each report lies at least one percent above the one before, and none is above 100 percent.
pub read_all_reports :
    (total : ℕ) (ns : List ℕ)
    → 0 < total
    → let reports = (read_all (record { total = total; read = 0; reported = 0 }) ns).1 in
      (length reports ≤ 100) × Climbs total 0 reports
read_all_reports total ns h =
    let r : CountingReader = record { total = total; read = 0; reported = 0 } in
    let c = read_all-Climbs r ns in
    (
      few_of_product (length (read_all r ns).1) total h
          (omega (arith, Climbs-length total 0 (read_all r ns).1 (omega arith) c)),
      c,
    )

text_eq-eq : (a b : Text) → text_eq a b ≡ true → a ≡ b
text_eq-eq [] [] h = refl
text_eq-eq [] (y ∷ b) h = absurd (cc)
text_eq-eq (x ∷ a) [] h = absurd (cc)
text_eq-eq (x ∷ a) (y ∷ b) h = ground (arith, text_eq-eq a b)

stage_native_sound :
    (s : Staging) (version : Text) (native : Native)
    → stage_native s version native ≡ ok tt
    → (s.copy ≡ none)
      × (s.update ≡ none)
      × (native.version ≡ version)
      × (native.asset_name ≡ release_asset_name version)
      × (0 < native.asset_byte_size)
      × (native.asset_byte_size ≤ max_release_size)
unfolding stage_native
stage_native_sound s version native h = ground (
  arith,
  text_eq-eq native.version version,
  text_eq-eq native.asset_name (release_asset_name version),
)

-- A release that `Stage` accepts still has the library's metadata, of the same version, for the asset
-- that carries exactly this version's name, with a size from 1 byte to 50 MiB; and both the copy of
-- the running program and the library's verified download succeeded.
pub stage_sound :
    (s : Staging) (release : Release)
    → stage s release ≡ ok tt
    → (s.copy ≡ none)
      × (s.update ≡ none)
      × ((native : Native) × (release.native ≡ some native)
          × (native.version ≡ release.version)
          × (native.asset_name ≡ release_asset_name release.version)
          × (0 < native.asset_byte_size)
          × (native.asset_byte_size ≤ max_release_size))
stage_sound s release h = elim (Option-cases release.native) [
  | inl missing ↦ absurd (unfold stage in cc (rw (missing, stage) at h))
  | inr (native, held) ↦
      let (copied, updated, version, name, positive, capped) =
        stage_native_sound s release.version native (unfold stage in rw (held, stage) at h) in
      (copied, updated, (native, held, version, name, positive, capped))
]

text_eq_refl : (a : Text) → text_eq a a ≡ true
text_eq_refl [] = refl
text_eq_refl (x ∷ a) = rw (==_refl x, text_eq_refl a)

-- A release that `Latest` found.
abbrev passed_on : Native → Release
passed_on native = record {
  version = native.version;
  notes = native.release_notes;
  url = native.url;
  size = native.asset_byte_size;
  native = some native;
}

latest_native :
    (native : Native) (release : Release)
    → latest (detected native) ≡ ok (some release)
    → (text_eq native.asset_name (release_asset_name native.version) ≡ true)
      × (passed_on native ≡ release)
unfolding latest
latest_native native release h = (ground arith, ground arith)

stage-passed_on :
    (s : Staging) (native : Native)
    → text_eq native.asset_name (release_asset_name native.version) ≡ true
    → s.copy ≡ none
    → s.update ≡ none
    → 0 < native.asset_byte_size
    → native.asset_byte_size ≤ max_release_size
    → stage s (passed_on native) ≡ ok tt
unfolding stage
stage-passed_on s native named c p positive capped = ground (arith, text_eq_refl native.version)

-- A release that `Latest` passes on, of a size from 1 byte to 50 MiB, is one that `Stage` accepts
-- where the copy and the library's download succeed.
pub latest_stages :
    (s : Staging) (native : Native) (release : Release)
    → latest (detected native) ≡ ok (some release)
    → s.copy ≡ none
    → s.update ≡ none
    → 0 < native.asset_byte_size
    → native.asset_byte_size ≤ max_release_size
    → stage s release ≡ ok tt
latest_stages s native release h c p positive capped =
    let (named, same) = latest_native native release h in
    rw (← same) (stage-passed_on s native named c p positive capped)
