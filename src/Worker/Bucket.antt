-- ===== src/Worker/Bucket.antt =====
-- `TokenBucket` of src/ticketflow/agent_worker.py. `interval` is `1.0 / rate_per_second`, in units of
-- the loop's clock; a call of `acquire` is given the time at which it holds the lock, and answers
-- with the time at which it returns.
use ticket_graph.Prelude.{
  ℕ, ◌+◌, ◌≤◌, ◌≡◌, Bool, true, Option, none, some, List, [], ◌∷◌, arith, leb, if◌then◌else◌,
  nat_eq, string_eq,
}
use ticket_graph.Result.{Result, ok, err, value_error}

pub record TokenBucket : Type 0 where
  pub interval : ℕ
  pub next_available : Option ℕ

-- `__post_init__`; `inverse` is the division of 1.0 by a rate
unfoldable pub make_bucket : (ℕ → ℕ) → ℕ → Result TokenBucket
make_bucket inverse rate_per_second =
    if leb rate_per_second 0
    then err (value_error "rate_per_second must be greater than zero")
    else ok (record { interval = inverse rate_per_second; next_available = none })

-- whether a token is there at once
abbrev is_free : Option ℕ → ℕ → Bool
is_free none now = true
is_free (some t) now = leb t now

abbrev or_now : Option ℕ → ℕ → ℕ
or_now none now = now
or_now (some t) now = t

unfoldable pub acquire : ℕ → TokenBucket → ℕ × TokenBucket
acquire now b =
    if is_free b.next_available now
    then (now, record b { next_available = some (now + b.interval) })
    else (
      or_now b.next_available now,
      record b { next_available = some (or_now b.next_available now + b.interval) },
    )

-- the times at which a series of calls return
unfoldable pub grants : TokenBucket → List ℕ → List ℕ
grants b [] = []
grants b (now ∷ rest) = let (at, b') = acquire now b in at ∷ grants b' rest

-- Each time is at least `k` after the one before it.
abbrev pub IsSpaced : ℕ → ℕ → List ℕ → Type 0
IsSpaced k earliest [] = Unit
IsSpaced k earliest (t ∷ ts) = (earliest ≤ t) × IsSpaced k (t + k) ts

-- None returns before it was made.
abbrev pub Waited : List ℕ → List ℕ → Type 0
Waited [] [] = Unit
Waited (now ∷ calls) (t ∷ ts) = (now ≤ t) × Waited calls ts
Waited _ _ = ⊥

abbrev earliest_of : TokenBucket → ℕ
earliest_of b = or_now b.next_available 0

acquire_lem :
    (now : ℕ) (b : TokenBucket)
    → let (t, b') = acquire now b in
      (earliest_of b ≤ t)
      × (now ≤ t)
      × (b'.interval ≡ b.interval)
      × (b'.next_available ≡ some (t + b.interval))
unfolding acquire
acquire_lem now b = ground arith

-- `acquire_lem` over a bucket after a call, whose next token is an interval after `t`
grants_next :
    (k t : ℕ) (b : TokenBucket) (ts : List ℕ)
    → b.interval ≡ k
    → b.next_available ≡ some (t + k)
    → IsSpaced b.interval (earliest_of b) ts
    → IsSpaced k (t + k) ts
grants_next k t b ts same next h = rw (same, next) at h

-- Whatever the times of the calls, the tokens of a bucket are an interval apart, none is given
-- before it is asked for, and the first not before the bucket allows it.
pub grants-IsSpaced :
    (b : TokenBucket) (calls : List ℕ)
    → IsSpaced b.interval (earliest_of b) (grants b calls) × Waited calls (grants b calls)
unfolding grants
grants-IsSpaced b [] = (tt, tt)
grants-IsSpaced b (now ∷ calls) =
    let (after, waited, same, next) = acquire_lem now b in
    let (spaced, rest) = grants-IsSpaced (acquire now b).1 calls in
    (
      (
        after,
        grants_next b.interval (acquire now b).0 (acquire now b).1 (grants (acquire now b).1 calls)
            same next spaced,
      ),
      (waited, rest),
    )
