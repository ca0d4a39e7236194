-- ===== src/Surveyor/Config.antt =====
-- The verify configuration and its retry delay (pkg/surveyor/score.go). A duration is a number of
-- nanoseconds.
pub mod Laws
use landman.Base.{ℕ, ◌*◌, ◌^◌, ℤ, pos, negsuc, ltb_ℤ, ◌-ℤ◌, Bool, if◌then◌else◌, ◌-◌}
use landman.Base.Float.{Float64, FloatOps}

pub record VerifyConfig : Type 0 where
  pub convergence_threshold : Float64
  pub stale_ttl : ℤ
  pub base_delay : ℤ
  pub max_delay : ℤ
  pub max_retries : ℤ

-- `time.Second`
abbrev pub second : ℕ
second = 1_000_000_000

-- The production profile, at a threshold.
unfoldable pub config_at : Float64 → VerifyConfig
config_at threshold = record {
  convergence_threshold = threshold;
  stale_ttl = pos (60 * second);
  base_delay = pos (5 * second);
  max_delay = pos (120 * second);
  max_retries = pos 10;
}

unfoldable pub default_production_config : FloatOps → VerifyConfig
unfolding config_at
default_production_config ops = config_at (ops.of_int (pos 1))

-- `0.9` is the nearest float of the literal, and so a parameter.
unfoldable pub default_development_config : Float64 → VerifyConfig
unfolding config_at
default_development_config nine_tenths = config_at nine_tenths

unfoldable pub retry_delay : FloatOps → VerifyConfig → ℤ → ℤ
retry_delay ops cfg n =
    let d = ops.mul (ops.of_int cfg.base_delay) (ops.pow2 n) in
    ops.to_int (if ops.lt (ops.of_int cfg.max_delay) d then ops.of_int cfg.max_delay else d)

-- The bounds of `time.Duration`.
abbrev pub max_duration : ℤ
max_duration = pos (2 ^ 63 - 1)

abbrev pub min_duration : ℤ
min_duration = negsuc (2 ^ 63 - 1)

-- `t.Sub(u)` on wall-clock times in nanoseconds, which saturates.
unfoldable pub sub_time : ℤ → ℤ → ℤ
sub_time t u =
    let d = t -ℤ u in
    if ltb_ℤ max_duration d then max_duration else if ltb_ℤ d min_duration then min_duration else d

unfoldable pub is_stale : ℤ → ℤ → ℤ → Bool
is_stale last_seen ttl now = ltb_ℤ ttl (sub_time now last_seen)
