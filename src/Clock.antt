-- ===== src/Clock.antt =====
-- Time. A timestamptz is the number of microseconds since an epoch before every run of the
-- program, so that `now() - age` is compared without going below it: `t < now() - age` is
-- `t + age < now()`. An interval is a number of microseconds.
use ticket_graph.Prelude.{ℕ, ◌*◌, ◌+◌, Bool, false, Option, none, some, leb, ltb}

-- interval '1 second'
abbrev pub second : ℕ
second = 1_000_000

-- interval '30 seconds', the length of a lease
abbrev pub lease_time : ℕ
lease_time = 30 * second

-- `t < now()`, which is not true of NULL
abbrev pub before : Option ℕ → ℕ → Bool
before none now = false
before (some t) now = ltb t now

-- `t <= now()`, which is not true of NULL
abbrev pub due : Option ℕ → ℕ → Bool
due none now = false
due (some t) now = leb t now

-- `t < now() - make_interval(secs => age)`
abbrev pub older : ℕ → ℕ → ℕ → Bool
older t age now = ltb (t + age) now
