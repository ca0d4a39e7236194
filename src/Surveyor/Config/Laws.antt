-- ===== src/Surveyor/Config/Laws.antt =====
-- The retry delay, computed in floating point, against integer arithmetic; and staleness.
use Prim.Native.Nat.{min}
use native.Mathlib.Decide.{dec_le}
use landman.Base.{◌≡◌, ◌↔◌, true, ℕ, ◌*◌, ◌≤◌, ◌<◌, ◌^◌, arith}
use landman.Base.{ℤ, pos, ltb, ◌≤ℤ◌, ◌<ℤ◌, ◌-ℤ◌}
use landman.Base.Float.{FloatOps}
use landman.Surveyor.Config.{
  VerifyConfig, retry_delay, sub_time, is_stale, max_duration, min_duration,
}

-- Facts of IEEE 754 double precision: integers up to 2 ^ 53 are exact and keep their order, and a
-- product of a positive one with a power of two is exact, or beyond them (infinity included).
pub record IsConversion (ops : FloatOps) : Type 0 where
  pub to_int-of_int : (n : ℕ) → n ≤ 2 ^ 53 → ops.to_int (ops.of_int (pos n)) ≡ pos n
  pub lt-of_int :
      (a b : ℕ)
      → a ≤ 2 ^ 53
      → b ≤ 2 ^ 53
      → ops.lt (ops.of_int (pos a)) (ops.of_int (pos b)) ≡ ltb a b
  pub mul-pow2 :
      (b n : ℕ)
      → 0 < b
      → b * 2 ^ n ≤ 2 ^ 53
      → ops.mul (ops.of_int (pos b)) (ops.pow2 (pos n)) ≡ ops.of_int (pos (b * 2 ^ n))
  pub lt-mul-pow2 :
      (a b n : ℕ)
      → a ≤ 2 ^ 53
      → b ≤ 2 ^ 53
      → 2 ^ 53 < b * 2 ^ n
      → ops.lt (ops.of_int (pos a)) (ops.mul (ops.of_int (pos b)) (ops.pow2 (pos n))) ≡ true

module _ (ops : FloatOps) (laws : IsConversion ops) (cfg : VerifyConfig) (b m n : ℕ)
    (base : cfg.base_delay ≡ pos b) (cap : cfg.max_delay ≡ pos m) (positive : 0 < b)
    (b_exact : b ≤ 2 ^ 53) (m_exact : m ≤ 2 ^ 53) where
  delay_small : b * 2 ^ n ≤ 2 ^ 53 → retry_delay ops cfg (pos n) ≡ pos (min (b * 2 ^ n) m)
  unfolding retry_delay
  delay_small h = ground (
    arith,
    laws.mul-pow2 b n positive h,
    laws.lt-of_int m (b * 2 ^ n) m_exact h,
    laws.to_int-of_int m m_exact,
    laws.to_int-of_int (b * 2 ^ n) h,
  )

  delay_large : 2 ^ 53 < b * 2 ^ n → retry_delay ops cfg (pos n) ≡ pos (min (b * 2 ^ n) m)
  unfolding retry_delay
  delay_large h =
      ground (arith, laws.lt-mul-pow2 m b n m_exact b_exact h, laws.to_int-of_int m m_exact)

-- Under the facts of IEEE 754 that `IsConversion` lists, and for a positive base delay and a cap of
-- at most 2 ^ 53 nanoseconds each, the delay of attempt n is exactly the smaller of base * 2 ^ n and the cap.
pub retry_delay-min :
    (ops : FloatOps) (cfg : VerifyConfig) (b m n : ℕ)
    → IsConversion ops
    → cfg.base_delay ≡ pos b
    → cfg.max_delay ≡ pos m
    → 0 < b
    → b ≤ 2 ^ 53
    → m ≤ 2 ^ 53
    → retry_delay ops cfg (pos n) ≡ pos (min (b * 2 ^ n) m)
retry_delay-min ops cfg b m n laws base cap positive hb hm = elim (dec_le (b * 2 ^ n) (2 ^ 53)) [
  | yes h ↦ delay_small ops laws cfg b m n base cap positive hb hm h
  | no h ↦ delay_large ops laws cfg b m n base cap positive hb hm (omega arith)
]

-- For a TTL below the largest duration: a time is stale exactly when more than the TTL lies between
-- it and now, although the difference saturates.
pub is_stale_iff :
    (last_seen ttl now : ℤ)
    → ttl <ℤ max_duration
    → min_duration ≤ℤ ttl
    → (is_stale last_seen ttl now ≡ true) ↔ (ttl <ℤ now -ℤ last_seen)
unfolding is_stale sub_time
is_stale_iff last_seen ttl now h l = ground arith
