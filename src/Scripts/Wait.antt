-- ===== src/Scripts/Wait.antt =====
-- scripts/wait_for_api.py. A turn of the loop is what its request comes to, and the clock when that
-- is tested.
use Prim.Native.String.{◌++◌ as ◌<>◌}
use ticket_graph.Prelude.{
  ℕ, String, Bool, false, Option, none, some, List, [], ◌∷◌, leb, if◌then◌else◌, ◌==◌, nat_eq,
  string_eq,
}
use ticket_graph.Scripts.{Answer, response}

pub record Turn : Type 0 where
  pub answer : Answer
  pub time : ℕ

abbrev pub is_up : Answer → Bool
is_up (response code body) = code == 200
is_up _ = false

-- `show` is `f"{type(exc).__name__}: {exc}"` of an httpx.HTTPError, and `str_of` `str` of a number.
abbrev last_status : (ℕ → String) → (Answer → String) → Answer → String
last_status str_of show (response code body) = "HTTP " <> str_of code
last_status str_of show a = show a

-- `none` as long as the given turns do not end it; `waited` is f"{timeout_seconds:.1f}"
unfoldable pub wait_until_healthy :
    (ℕ → String) → (Answer → String) → String → ℕ → List Turn → Option (Option String)
wait_until_healthy str_of show waited deadline [] = none
wait_until_healthy str_of show waited deadline (t ∷ turns) =
    let rest = wait_until_healthy str_of show waited deadline turns in
    if is_up t.answer
    then some none
    else if leb deadline t.time
    then some (
        some (
          "api: unavailable after "
          <> waited
          <> "s (last status: "
          <> last_status str_of show t.answer
          <> ")"))
    else rest

-- `run`: the exit code
unfoldable pub exit_code : Option String → ℕ
exit_code none = 0
exit_code (some diagnostic) = 1
