-- ===== src/Prelude/Traces.antt =====
-- What a list of calls, each of which satisfies `P`, does to a state.
use mathlib.Core.Path.{◌≡◌, ◌∙◌}
use mathlib.Core.List.{List, ◌++◌}
use ticket_graph.Prelude.Lists.{All, All-append, All-impl}

-- `s'` is what some calls make of `s`, when `run` runs a list of calls.
pub record Trace {S C : Type 0} (run : S → List C → S) (P : C → Type 0) (s s' : S) : Type 0 where
  pub calls : List C
  pub within : All P calls
  pub ends : s' ≡ run s calls

module _ {S C : Type 0} {run : S → List C → S} {P : C → Type 0} where
  -- The calls of two parts, one after the other, for a `run` that runs them so.
  pub Trace-trans :
      ((s : S) (cs ds : List C) → run s (cs ++ ds) ≡ run (run s cs) ds)
      → {s t u : S} → Trace run P s t
      → Trace run P t u
      → Trace run P s u
  Trace-trans append {s} {t} {u} a b = record {
    calls = a.calls ++ b.calls;
    within = All-append P a.calls b.calls a.within b.within;
    ends = b.ends ∙ rw (a.ends) (rw (append s a.calls b.calls));
  }

  pub Trace-impl :
      (Q : C → Type 0) → ((c : C) → P c → Q c) → {s t : S} → Trace run P s t → Trace run Q s t
  Trace-impl Q f a = record {
    calls = a.calls;
    within = All-impl P Q a.calls f a.within;
    ends = a.ends;
  }
