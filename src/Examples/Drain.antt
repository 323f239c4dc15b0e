-- ===== src/Examples/Drain.antt =====
-- A worker with room for two tasks, of which one ends before the worker is stopped.
use ticket_graph.Prelude.{true, false, none, some, [], ◌∷◌, nat_eq, string_eq}
use ticket_graph.Result.{ok}
use ticket_graph.Worker.Loop.{Turn, run_forever}
use ticket_graph.Worker.Loop.Bounds.{Kept, run_forever-Kept}

abbrev busy : Turn
busy = record {
  stopped = false;
  is_set = λ n. false;
  acquire_at = λ n. n;
  acquire_cancelled = λ n. false;
  wait = λ ids. some ((0, ok true) ∷ []);
  sleep_cancelled = false;
  gather_cancelled = false;
}

abbrev stops : Turn
stops = record busy { stopped = true }

run_forever-Kept_example :
    Kept 2 busy
      (run_forever 2 (some (record { interval = 5; next_available = none })) (busy ∷ stops ∷ []))
run_forever-Kept_example =
    run_forever-Kept 2 (some (record { interval = 5; next_available = none })) (busy ∷ stops ∷ [])
      busy
