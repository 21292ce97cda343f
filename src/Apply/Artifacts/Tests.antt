-- ===== src/Apply/Artifacts/Tests.antt =====
-- Runs of internal/updater/apply_windows.go on small listings.
use rig_exporter.Base.{
  IsSafe, ok, ℕ, ◌+◌, ◌≡◌, refl, true, false, ◌&&◌, none, some, List, [], ◌∷◌, ◌++◌, map, arith,
  leb, if◌then◌else◌, All, ok, IsSafe,
}
use rig_exporter.Base.Unicode.{list_eq}
use rig_exporter.Base.Text.{codes}
use rig_exporter.Apply.{Text, stage, helper, ready, journal}
use rig_exporter.Apply.Artifacts.{
  partial, of, start_of, artifact_name, update_artifact, apply_error_artifact,
}
use rig_exporter.Apply.Artifacts.Naming.{
  artifacts-IsSafe, Token, is_low, all_low, update_artifact-artifact_name,
}
use rig_exporter.Apply.Artifacts.Cleanup.{Item, cleanup_apply_artifacts}
use rig_exporter.Apply.Artifacts.Preserving.{has_plan}
use rig_exporter.Apply.Artifacts.Provenance.{listed, cleanup_apply_artifacts-Spares}

abbrev low_code : ℕ → ℕ
low_code c = if leb 65 c && leb c 90 then c + 32 else c

-- strings.ToLower on ASCII.
abbrev lower : Text → Text
lower t = map low_code t

low_kept : (c : ℕ) → is_low c ≡ true → low_code c ≡ c
low_kept c h = ground arith

lower_low : (t : Text) → all_low t ≡ true → lower t ≡ t
lower_low [] h = refl
lower_low (c ∷ t) h = rw (low_kept c (ground arith), lower_low t (ground arith))

lowers : (a t : Text) → all_low t ≡ true → lower (a ++ t) ≡ lower a ++ t
lowers [] t h = lower_low t h
lowers (c ∷ a) t h = rw (lowers a t h)

abbrev stem : Text
stem = codes "Rig"

abbrev token : Text
token = codes "0123456789abcdef01234567"

abbrev sample_token : Token token
sample_token = record {
  before = codes "0123456789abcdef0123456";
  last = 55;
  written = refl;
  digits = (
    refl,
    (
      refl,
      (
        refl,
        (
          refl,
          (
            refl,
            (
              refl,
              (
                refl,
                (
                  refl,
                  (
                    refl,
                    (
                      refl,
                      (
                        refl,
                        (
                          refl,
                          (
                            refl,
                            (
                              refl,
                              (
                                refl,
                                (
                                  refl,
                                  (
                                    refl,
                                    (refl, (refl, (refl, (refl, (refl, (refl, (refl, tt))))))),
                                  ),
                                ),
                              ),
                            ),
                          ),
                        ),
                      ),
                    ),
                  ),
                ),
              ),
            ),
          ),
        ),
      ),
    ),
  );
  counted = refl;
}

-- The hyphen that the prefix and the suffix share.
shares_hyphen : update_artifact lower (codes ".rig-update-plan.json") stem ≡ ok none
unfolding update_artifact
shares_hyphen = refl

reads_partial :
    update_artifact lower (codes ".rig-UPDATE-0123456789abcdef01234567-stage.exe.partial") stem
    ≡ ok (some (codes ".Rig-update-0123456789abcdef01234567", partial))
unfolding update_artifact
reads_partial = refl

artifacts-IsSafe_example :
    IsSafe (update_artifact lower (codes ".rig-update-plan.json") stem)
    × IsSafe (apply_error_artifact lower (codes ".rig-update-plan.json") stem)
artifacts-IsSafe_example = artifacts-IsSafe lower (codes ".rig-update-plan.json") stem

update_artifact-artifact_name_example :
    update_artifact lower (artifact_name stem token ready) stem
    ≡ ok (some (start_of stem ++ lower token, of ready))
update_artifact-artifact_name_example =
    update_artifact-artifact_name lower lowers stem token sample_token ready (λ e. ground arith)

abbrev listing : List Item
listing =
    record { prefix = 1 ∷ []; kind = of stage; path = 11 ∷ [] }
    ∷ record { prefix = 2 ∷ []; kind = of helper; path = 21 ∷ [] }
    ∷ record { prefix = 1 ∷ []; kind = of journal; path = 12 ∷ [] }
    ∷ record { prefix = 2 ∷ []; kind = of stage; path = 22 ∷ [] }
    ∷ []

cleans : cleanup_apply_artifacts (λ x. false) listing ≡ (2 ∷ [], 21 ∷ []) ∷ (2 ∷ [], 22 ∷ []) ∷ []
unfolding cleanup_apply_artifacts
cleans = refl

cleanup_apply_artifacts-Spares_example :
    All (λ r. listed listing r ≡ true) (cleanup_apply_artifacts (λ x. false) listing)
    × All
        (λ r. (has_plan listing (1 ∷ []) && list_eq (1 ∷ []) r.0) ≡ false)
        (cleanup_apply_artifacts (λ x. false) listing)
cleanup_apply_artifacts-Spares_example =
    cleanup_apply_artifacts-Spares (λ x. false) listing (1 ∷ [])
