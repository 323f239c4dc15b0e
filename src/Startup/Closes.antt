-- ===== src/Startup/Closes.antt =====
-- What a process leaves open when it ends, and that it serves only when it is ready.
use ticket_graph.Prelude.{
  ◌≡◌, refl, ◌⊎◌, inl, inr, Bool, true, false, not, ◌&&◌, Option, none, some, List, [], ◌∷◌,
  Option-cases, nat_eq, string_eq,
}
use ticket_graph.Result.{Error}
use ticket_graph.Startup.{
  Pool, Call, Process, agent_worker, fallback_worker, side_effect_worker, main, call, all_of, after,
  finally_do, closed, runner, api, own_pool, sync_pool, async_pool, sets_up_logging, migrates,
  makes_activities, opens, closes, connects_saver, sets_up_saver, ends_saver, compiles, serves,
  served, worker_main, lifespan, with_saver, bootstrap, close_pools, saver_block,
}

-- Which pools are open.
pub record Open : Type 0 where
  pub own : Bool
  pub sync : Bool
  pub async : Bool

abbrev is_open : Open → Pool → Bool
is_open o own_pool = o.own
is_open o sync_pool = o.sync
is_open o async_pool = o.async

abbrev turned : Open → Pool → Bool → Open
turned o own_pool b = record o { own = b }
turned o sync_pool b = record o { sync = b }
turned o async_pool b = record o { async = b }

abbrev pub none_open : Open
none_open = record { own = false; sync = false; async = false }

-- Which pools are open after a log of calls, whether the migrations have run, and whether all was
-- sound: no pool was opened that was open, none closed that was not, and each `serves` came after
-- the migrations, with exactly the pools open that the process needs.
pub record Seen : Type 0 where
  pub pools : Open
  pub migrated : Bool
  pub sound : Bool

abbrev serves_well : Open → Open → Bool
serves_well needs o =
    is_same o.own needs.own && is_same o.sync needs.sync && is_same o.async needs.async
  where
    is_same : Bool → Bool → Bool
    is_same true b = b
    is_same false b = not b

abbrev see : Open → Seen → Call → Seen
see needs s (opens p) = record s {
  pools = turned s.pools p true;
  sound = s.sound && not (is_open s.pools p);
}
see needs s (closes p) = record s {
  pools = turned s.pools p false;
  sound = s.sound && is_open s.pools p;
}
see needs s migrates = record s { migrated = true }
see needs s serves = record s { sound = s.sound && s.migrated && serves_well needs s.pools }
see needs s c = s

abbrev fresh : Seen
fresh = record { pools = none_open; migrated = false; sound = true }

abbrev pub seen : Open → List Call → Seen
seen needs [] = fresh
seen needs (c ∷ log) = see needs (seen needs log) c

abbrev pub one_pool : Open
one_pool = record { own = false; sync = true; async = false }

abbrev pub both_pools : Open
both_pools = record { own = false; sync = true; async = true }

abbrev pub needed : Process → Open
needed agent_worker = one_pool
needed fallback_worker = one_pool
needed side_effect_worker = one_pool
needed runner = both_pools
needed api = both_pools

-- No pool is left open, none was opened or closed twice, and the process has served only when it was
-- ready.
abbrev pub IsClean : Seen → Type 0
IsClean s = (s.pools ≡ none_open) × (s.sound ≡ true)

abbrev ready : Seen
ready = record { pools = both_pools; migrated = true; sound = true }

-- The end of a sequence adds nothing.
unafter :
    (p : Option Error × List Call)
    → seen both_pools p.1 ≡ ready
    → seen both_pools (after (all_of []) p).1 ≡ ready
unafter (none, log) h = h
unafter (some e, log) h = h

unafter-IsClean :
    (p : Option Error × List Call)
    → IsClean (seen both_pools p.1)
    → IsClean (seen both_pools (after (all_of []) p).1)
unafter-IsClean (none, log) h = h
unafter-IsClean (some e, log) h = h

module _ (raises : Call → Option Error) where
  -- `bootstrap` leaves no pool open, and if it does not raise it has migrated.
  bootstrap-cases :
      raises (closes own_pool) ≡ none
      → (log : List Call)
      → ((e : Error) × (bootstrap raises log ≡ (some e, log)))
        ⊎ ((e : Error) × (bootstrap raises log ≡ (some e, closes own_pool ∷ opens own_pool ∷ log)))
        ⊎ (bootstrap raises log ≡ (none, closes own_pool ∷ migrates ∷ opens own_pool ∷ log))
  bootstrap-cases own log = elim (Option-cases (raises (opens own_pool))) [
    | inr (e, h) ↦ inl (e, rw h refl)
    | inl h1 ↦ elim (Option-cases (raises migrates)) [
      | inr (e, h) ↦ inr (inl (e, rw (h1, h, own) refl))
      | inl h2 ↦ inr (inr (rw (h1, h2, own) refl))
    ]
  ]

  worker-IsClean :
      raises (closes own_pool) ≡ none
      → raises (closes sync_pool) ≡ none
      → raises makes_activities ≡ none
      → IsClean (seen one_pool (worker_main raises []).1)
  worker-IsClean own sync made = elim (Option-cases (raises sets_up_logging)) [
    | inr (e, h) ↦ rw h (refl, refl)
    | inl h0 ↦ elim (bootstrap-cases own (sets_up_logging ∷ [])) [
      | inl (e, h) ↦ rw (h0, h) (refl, refl)
      | inr (inl (e, h)) ↦ rw (h0, h) (refl, refl)
      | inr (inr h1) ↦ elim (Option-cases (raises (opens sync_pool))) [
        | inr (e, h) ↦ rw (h0, h1, h) (refl, refl)
        | inl h2 ↦ elim (Option-cases (raises served)) [
          | inr (e, h) ↦ rw (h0, h1, h2, made, h, sync) (refl, refl)
          | inl h ↦ rw (h0, h1, h2, made, h, sync) (refl, refl)
        ]
      ]
    ]
  ]

  -- The setup of the saver and the service, in a process whose two pools are open.
  inside-seen :
      (log : List Call)
      → seen both_pools log ≡ ready
      → seen both_pools (saver_block raises log).1 ≡ ready
  inside-seen log h = elim (Option-cases (raises sets_up_saver)) [
    | inr (e, h1) ↦ rw h1 h
    | inl h1 ↦ elim (Option-cases (raises compiles)) [
      | inr (e, h2) ↦ rw (h1, h2) (rw h refl)
      | inl h2 ↦ elim (Option-cases (raises served)) [
        | inr (e, h3) ↦ rw (h1, h2, h3) (rw h refl)
        | inl h3 ↦ rw (h1, h2, h3) (rw h refl)
      ]
    ]
  ]

  ends_saver-seen :
      (body : Option Error × List Call)
      → seen both_pools body.1 ≡ ready
      → seen both_pools (closed body.0 (call raises ends_saver body.1)).1 ≡ ready
  ends_saver-seen (e, log) h = elim (Option-cases (raises ends_saver)) [
    | inr (x, h1) ↦ rw h1 h
    | inl h1 ↦ rw h1 (rw h refl)
  ]

  with_saver-seen :
      (log : List Call)
      → seen both_pools log ≡ ready
      → seen both_pools (with_saver raises log).1 ≡ ready
  with_saver-seen log h = elim (Option-cases (raises connects_saver)) [
    | inr (e, h1) ↦ rw h1 h
    | inl h1 ↦ rw h1 (
        unafter (finally_do (call raises ends_saver) (saver_block raises) (connects_saver ∷ log)) (
          ends_saver-seen (saver_block raises (connects_saver ∷ log))
            (inside-seen (connects_saver ∷ log) (rw h refl))))
  ]

  closes-IsClean :
      raises (closes sync_pool) ≡ none
      → raises (closes async_pool) ≡ none
      → (body : Option Error × List Call) → seen both_pools body.1 ≡ ready
      → IsClean (seen both_pools (closed body.0 (close_pools raises body.1)).1)
  closes-IsClean sync async (e, log) h = rw (async, sync) (rw h (refl, refl))

  lifespan-IsClean :
      raises (closes own_pool) ≡ none
      → raises (closes sync_pool) ≡ none
      → raises (closes async_pool) ≡ none
      → raises (opens async_pool) ≡ none
      → (log : List Call) → seen both_pools log ≡ fresh
      → IsClean (seen both_pools (lifespan raises log).1)
  lifespan-IsClean own sync async opened log h = elim (bootstrap-cases own log) [
    | inl (e, h1) ↦ rw h1 (rw h (refl, refl))
    | inr (inl (e, h1)) ↦ rw h1 (rw h (refl, refl))
    | inr (inr h1) ↦ elim (Option-cases (raises (opens sync_pool))) [
      | inr (e, h2) ↦ rw (h1, h2) (rw h (refl, refl))
      | inl h2 ↦
          rw (h1, h2, opened)
            (let opened_log =
                opens async_pool
                ∷ opens sync_pool
                ∷ closes own_pool
                ∷ migrates
                ∷ opens own_pool
                ∷ log in
              unafter-IsClean (finally_do (close_pools raises) (with_saver raises) opened_log) (
                closes-IsClean sync async (with_saver raises opened_log)
                  (with_saver-seen opened_log (rw h refl))))
    ]
  ]

-- If no closing of a pool raises, and neither making the activities nor opening the async pool does,
-- a process that ends or fails at any other point has closed each pool that it opened, and has opened
-- and closed none twice; and it served only after the migrations, with exactly the pools open that it
-- needs.
pub main-IsClean :
    (raises : Call → Option Error) (p : Process)
    → raises (closes own_pool) ≡ none
    → raises (closes sync_pool) ≡ none
    → raises (closes async_pool) ≡ none
    → raises makes_activities ≡ none
    → raises (opens async_pool) ≡ none
    → IsClean (seen (needed p) (main raises p []).1)
unfolding main
main-IsClean raises agent_worker own sync async made opened = worker-IsClean raises own sync made
main-IsClean raises fallback_worker own sync async made opened = worker-IsClean raises own sync made
main-IsClean raises side_effect_worker own sync async made opened =
    worker-IsClean raises own sync made
main-IsClean raises runner own sync async made opened =
    elim (Option-cases (raises sets_up_logging)) [
      | inr (e, h) ↦ rw h (refl, refl)
      | inl h ↦ rw h (
          unafter-IsClean (lifespan raises (sets_up_logging ∷ []))
            (lifespan-IsClean raises own sync async opened (sets_up_logging ∷ []) refl))
    ]
main-IsClean raises api own sync async made opened =
    lifespan-IsClean raises own sync async opened [] refl
