-- ===== src/Rtss/Ticks.antt =====
-- internal/rtss/rtss.go: the wrap-around comparisons of GetTickCount values.
use rig_exporter.Base.{ℕ, ◌+◌, ◌%◌, ◌^◌, ◌≤◌, ◌<◌, ◌≡◌, false, not, arith, ◌==◌}
use rig_exporter.Rtss.{age_ms, after}

-- For ticks below 2^32: a timestamp taken `d` ms before `now`, with d at most 2^31, has age `d`, even
-- where the counter wrapped in between; a timestamp up to 2^31 - 1 ms in the future has age 0.
pub age_ms_exact :
    (then' d : ℕ)
    → then' < 2 ^ 32
    → ((d ≤ 2 ^ 31) → age_ms ((then' + d) % 2 ^ 32) then' ≡ d)
      × (0 < d → d < 2 ^ 31 → age_ms then' ((then' + d) % 2 ^ 32) ≡ 0)
unfolding age_ms
age_ms_exact then' d h = (λ k. ground arith, λ j k. ground arith)

-- For ticks below 2^32: a tick taken 1 to 2^31 - 1 ms after another is `after` it, and the other is
-- not `after` it, even where the counter wrapped in between; no tick is `after` itself.
pub after_exact :
    (b d : ℕ)
    → b < 2 ^ 32
    → d < 2 ^ 31
    → (after ((b + d) % 2 ^ 32) b ≡ not (d == 0)) × (after b ((b + d) % 2 ^ 32) ≡ false)
unfolding after
after_exact b d h k = (ground arith, ground arith)
