-- ===== src/Traffic/Bounds.antt =====
-- How many packets a bucket of session/traffic.go admits.
use native.Mathlib.Nat.{mul-le-mul_left}
use gobds.Base.{
  ℕ, suc, ◌+◌, ◌-◌, ◌*◌, ◌≤◌, ◌<◌, ◌≡◌, refl, subst, Bool, true, false, List, [], ◌∷◌, length, leb,
  ltb, min, if◌then◌else◌, arith, ltb→lt, leb→le, Bool-cases, inl, inr,
}
use gobds.Base.Int.{pos, ◌-ℤ◌}
use gobds.Clock.{Time, Duration, sub_time, max_int64}
use gobds.Float.{Float, fin, float_min}
use gobds.Traffic.Config.{one_token}
use gobds.Traffic.Bucket.{TokenBucket, refill, take_token, allow_token}

-- The calls of a bucket at some times, with the number of those that it admits.
unfoldable pub admitted :
    (Float → Duration → Float → Float) → List Time → TokenBucket → TokenBucket × ℕ
admitted refilled [] b = (b, 0)
admitted refilled (now ∷ times) b =
    let (b', passes) = allow_token refilled now b in
    let (last, n) = admitted refilled times b' in (last, if passes then suc n else n)

module _ (refilled : Float → Duration → Float → Float) (rate : Float) (burst gain error : ℕ)
    -- A refill adds at most the gain of each nanosecond, up to an error of rounding.
    (refills : (d t : ℕ)
      → t ≤ burst
      → (t' : ℕ) × (refilled rate (pos d) (fin (pos t)) ≡ fin (pos t'))
        × (t' ≤ t + gain * d + error)) where
  -- A bucket with a number of tokens that is no more than the burst.
  abbrev pub Holds : TokenBucket → ℕ → Type 0
  Holds b tokens =
      (b.rate ≡ rate)
      × (b.burst ≡ fin (pos burst))
      × (b.tokens ≡ fin (pos tokens))
      × (tokens ≤ burst)

  float_min-fin : (t : ℕ) → float_min (fin (pos burst)) (fin (pos t)) ≡ fin (pos (min burst t))
  unfolding float_min
  float_min-fin t = ground arith

  refill-later :
      (now : Time) (b : TokenBucket)
      → b.last < now
      → refill refilled now b ≡ record b {
        tokens = float_min b.burst (refilled b.rate (pos (min (now - b.last) max_int64)) b.tokens);
        last = now;
      }
  unfolding refill sub_time
  refill-later now b h = ground arith

  refill-earlier : (now : Time) (b : TokenBucket) → now ≤ b.last → refill refilled now b ≡ b
  unfolding refill sub_time
  refill-earlier now b h = ground arith

  -- What a refill leaves.
  abbrev Refilled : TokenBucket → ℕ → TokenBucket → Type 0
  Refilled b tokens b' =
      (tokens' : ℕ) × Holds b' tokens' × (tokens' + gain * b.last ≤ tokens + gain * b'.last + error)

  gain_of_elapsed :
      (last now : ℕ) → last < now → gain * min (now - last) max_int64 + gain * last ≤ gain * now
  gain_of_elapsed last now h =
      omega (
        arith,
        mul-le-mul_left {m = min (now - last) max_int64 + last} {n = now} gain (omega arith),
      )

  refill-Refilled :
      (now : Time) (b : TokenBucket) (tokens : ℕ)
      → Holds b tokens
      → Refilled b tokens (refill refilled now b)
  refill-Refilled now b tokens (of_rate, of_burst, of_tokens, within) =
      elim (Bool-cases (ltb b.last now)) [
        | inl later ↦
            let d = min (now - b.last) max_int64 in
            let (t, is, bounded) = refills d tokens within in
            rw (refill-later now b (ltb→lt b.last now later)) (
              min burst t,
              (of_rate, of_burst, filled b d t of_rate of_burst of_tokens is, omega arith),
              omega (arith, gain_of_elapsed b.last now (ltb→lt b.last now later)),
            )
        | inr earlier ↦
            rw (refill-earlier now b (ground arith))
              (tokens, (of_rate, of_burst, of_tokens, within), omega arith)
      ]
    where
      filled :
          (b : TokenBucket) (d t : ℕ)
          → b.rate ≡ rate
          → b.burst ≡ fin (pos burst)
          → b.tokens ≡ fin (pos tokens)
          → refilled rate (pos d) (fin (pos tokens)) ≡ fin (pos t)
          → float_min b.burst (refilled b.rate (pos d) b.tokens) ≡ fin (pos (min burst t))
      filled b d t r c k is = rw (r, c, k, is) (float_min-fin t)

  -- What taking a token leaves.
  take_short :
      (b : TokenBucket) (t : ℕ) → b.tokens ≡ fin (pos t) → t < one_token → take_token b ≡ (b, false)
  unfolding take_token
  take_short b t h short = ground arith

  take_paid :
      (b : TokenBucket) (t : ℕ)
      → b.tokens ≡ fin (pos t)
      → one_token ≤ t
      → take_token b ≡ (record b { tokens = fin (pos (t - one_token)) }, true)
  unfolding take_token ◌-ℤ◌
  take_paid b t h paid = ground arith

  abbrev Taken : ℕ → ℕ → TokenBucket × Bool → Type 0
  Taken last tokens r =
      (tokens' : ℕ) × Holds r.0 tokens'
      × ((if r.1 then one_token else 0) + tokens' ≡ tokens)
      × (r.0.last ≡ last)

  take_token-Taken :
      (b : TokenBucket) (tokens : ℕ) → Holds b tokens → Taken b.last tokens (take_token b)
  take_token-Taken b tokens (of_rate, of_burst, of_tokens, within) =
      elim (Bool-cases (leb one_token tokens)) [
        | inl paid ↦
            rw (take_paid b tokens of_tokens (leb→le one_token tokens paid))
              (tokens - one_token, (of_rate, of_burst, refl, omega arith), ground arith, refl)
        | inr short ↦
            rw (take_short b tokens of_tokens (ground arith))
              (tokens, (of_rate, of_burst, of_tokens, within), omega arith, refl)
      ]

  -- The sum over one call more.
  sum_of_call :
      (passes : Bool) (n t0 t1 t2 t3 l0 l1 l2 k : ℕ)
      → t1 + gain * l0 ≤ t0 + gain * l1 + error
      → (if passes then one_token else 0) + t2 ≡ t1
      → n * one_token + t3 + gain * l1 ≤ t2 + gain * l2 + k * error
      → (if passes then suc n else n) * one_token + t3 + gain * l0 ≤ t0 + gain * l2 + suc k * error
  sum_of_call true n t0 t1 t2 t3 l0 l1 l2 k h taken rest = omega arith
  sum_of_call false n t0 t1 t2 t3 l0 l1 l2 k h taken rest = omega arith

  abbrev Spent : TokenBucket → ℕ → ℕ → TokenBucket × ℕ → Type 0
  Spent b tokens calls r =
      (tokens' : ℕ) × Holds r.0 tokens'
      × (r.1 * one_token + tokens' + gain * b.last ≤ tokens + gain * r.0.last + calls * error)

  admitted-Spent :
      (times : List Time) (b : TokenBucket) (tokens : ℕ)
      → Holds b tokens
      → Spent b tokens (length times) (admitted refilled times b)
  unfolding admitted allow_token
  admitted-Spent [] b tokens h = (tokens, h, omega arith)
  admitted-Spent (now ∷ times) b tokens h =
      let b1 = refill refilled now b in
      let (t1, h1, e1) = refill-Refilled now b tokens h in
      let (t2, h2, e2, same) = take_token-Taken b1 t1 h1 in
      let (t3, h3, e3) = admitted-Spent times (take_token b1).0 t2 h2 in
      let r = admitted refilled times (take_token b1).0 in
      (
        t3,
        h3,
        sum_of_call (take_token b1).1 r.1 tokens t1 t2 t3 b.last b1.last r.0.last (length times) e1
            e2
            (subst
              (λ l. r.1 * one_token + t3 + gain * l ≤ t2 + gain * r.0.last + length times * error)
              same e3),
      )

  -- However the calls of a bucket come, it admits at most its burst and what the time from its last
  -- refill to the last one brings, up to the rounding of each call, where the bucket has the rate
  -- and the burst in question, and a number of tokens within the burst.
  pub admitted-le-burst :
      (times : List Time) (b : TokenBucket) (tokens : ℕ)
      → Holds b tokens
      → let (b', n) = admitted refilled times b in
        n * one_token + gain * b.last ≤ burst + gain * b'.last + length times * error
  admitted-le-burst times b tokens h =
      let (t, held, e) = admitted-Spent times b tokens h in omega (arith, h.3)
