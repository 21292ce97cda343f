-- ===== src/Panel/Tests.antt =====
-- Runs of internal/webui/linger.go with one row that comes and goes.
use rig_exporter.Base.{ℕ, ◌*◌, ◌≡◌, refl, true, false, List, [], ◌∷◌, arith}
use rig_exporter.Base.Text.{codes}
use rig_exporter.Panel.{Row, linger_polls, present, keep}
use rig_exporter.Panel.Lingering.{Poll, memory, recent, keep-recent}

abbrev copy_engine : Row
copy_engine = record { key = codes "gpu1_copy"; value = codes "3"; stale = false }

abbrev with_rows : ℕ → List Row → Poll
with_rows t rows = record {
  time = t;
  group = record { enabled = true; available = true; rows = rows };
}

abbrev before : List Poll
before = with_rows 1500 [] ∷ with_rows 1000 (copy_engine ∷ []) ∷ []

lingers :
    (keep 500 11000 (with_rows 11000 []).group (memory 500 before)).0
    ≡ record copy_engine { stale = true } ∷ []
unfolding keep
lingers = refl

expires : (keep 500 11500 (with_rows 11500 []).group (memory 500 before)).0 ≡ []
unfolding keep
expires = refl

switched_off :
    (keep 500 2500 (with_rows 2500 []).group (
      memory 500 (
        record { time = 2000; group = record { enabled = false; available = true; rows = [] } }
        ∷ before))).0
    ≡ []
unfolding keep
switched_off = refl

keep-recent_example :
    present (codes "gpu1_copy") (keep 500 11000 (with_rows 11000 []).group (memory 500 before)).0
    ≡ recent (linger_polls * 500) 11000 (codes "gpu1_copy") (with_rows 11000 [] ∷ before)
keep-recent_example =
    keep-recent 500 (omega arith) (with_rows 11000 []) before (codes "gpu1_copy") refl
      (omega arith, (omega arith, tt))
