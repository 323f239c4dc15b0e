-- ===== src/Examples/Startup.antt =====
-- A runner that fails while it serves, and one whose async pool does not open.
use ticket_graph.Prelude.{◌≡◌, refl, Option, none, some, [], nat_eq, string_eq}
use ticket_graph.Result.{Error, runtime_error}
use ticket_graph.Startup.{Call, runner, main, served, opens, async_pool}
use ticket_graph.Startup.Closes.{IsClean, seen, main-IsClean, both_pools, one_pool}

abbrev fails_serving : Call → Option Error
fails_serving served = some runtime_error
fails_serving c = none

main-IsClean_example : IsClean (seen both_pools (main fails_serving runner []).1)
main-IsClean_example = main-IsClean fails_serving runner refl refl refl refl refl

abbrev fails_opening : Call → Option Error
fails_opening (opens async_pool) = some runtime_error
fails_opening c = none

-- The other pool stays open.
left_open : (seen both_pools (main fails_opening runner []).1).pools ≡ one_pool
unfolding main
left_open = refl
