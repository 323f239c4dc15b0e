-- ===== src/Scripts/Batch.antt =====
-- scripts/batch.py but for its polling: the payloads of a batch, its histograms and its exit code.
-- `str_of` is `str` of a number.
use Prim.Native.Char.{code}
use Prim.Native.String.{◌++◌ as ◌<>◌}
use ticket_graph.Prelude.{
  ℕ, zero, suc, ◌+◌, ◌%◌, String, Bool, false, ◌&&◌, ◌||◌, Option, none, some, List, [], ◌∷◌,
  length, ltb, if◌then◌else◌, ◌==◌, nat_eq, string_eq, text_order, sort_by, map,
}
use ticket_graph.Json.{Json, get, str, obj}
use ticket_graph.Api.{CreateTicketRequest}
use ticket_graph.Migrations.{to_set}
use ticket_graph.Scripts.Dict.{Dict, put, values}

-- a subject and a body
abbrev pub keyword_templates : List (String × String)
keyword_templates =
    (
      "Refund request for duplicate charge",
      "I need a refund because my card shows the same charge twice.",
    )
    ∷ ("App crash when opening report", "The dashboard shows an error and then the app crashes.")
    ∷ ("Password reset login help", "I cannot login after changing my password.")
    ∷ (
      "Question about account options",
      "I would like to understand which plan is right for our team.",
    )
    ∷ []

-- `xs[i]`
abbrev at_index : ℕ → List (String × String) → String × String
at_index i [] = ("", "")
at_index zero (x ∷ xs) = x
at_index (suc i) (x ∷ xs) = at_index i xs

abbrev pub payload_at : (ℕ → String) → ℕ → CreateTicketRequest
payload_at str_of index =
    let (subject, text) = at_index (index % length keyword_templates) keyword_templates in
    record {
      customer_email = "batch-" <> str_of (index + 1) <> "@example.com";
      subject = subject <> " #" <> str_of (index + 1);
      body = text;
    }

-- the payloads from an index on
unfoldable pub payloads_from : (ℕ → String) → ℕ → ℕ → List CreateTicketRequest
payloads_from str_of index zero = []
payloads_from str_of index (suc count) =
    payload_at str_of index ∷ payloads_from str_of (suc index) count

abbrev pub make_ticket_payloads : (ℕ → String) → ℕ → List CreateTicketRequest
make_ticket_payloads str_of count = payloads_from str_of 0 count

pub record TicketSnapshot : Type 0 where
  pub status : String
  pub model_path : Option String

pub record BatchSummary : Type 0 where
  pub statuses : Dict ℕ
  pub model_paths : Dict ℕ

-- `body.get(key)` if that is a dict, and then its text under a second key
abbrev text_in : String → Option Json → Option String
text_in key (some (obj fields)) = text_of (get key (obj fields))
  where
    text_of : Option Json → Option String
    text_of (some (str s)) = some s
    text_of _ = none
text_in key _ = none

abbrev both_models : Option String → Option String → Option String
both_models (some c) (some d) = some (c <> "/" <> d)
both_models _ _ = none

unfoldable pub extract_model_path : Json → Option String
extract_model_path body = elim (text_in "model_path" (get "result" body)) [
  | some path ↦ some path
  | none ↦
      both_models (text_in "model" (get "classification" body)) (text_in "model" (get "draft" body))
]

-- `Counter(xs)[x]`
unfoldable pub count : String → List String → ℕ
count x [] = 0
count x (y ∷ ys) = let rest = count x ys in if y == x then suc rest else rest

-- `{x: counts[x] for x in sorted(counts)}`
abbrev pub counts : List String → Dict ℕ
counts xs = map (λ x. (x, count x xs)) (sort_by text_order (to_set xs))

abbrev pub histogram : List String → Dict ℕ
histogram xs = put "total" (length xs) (counts xs)

unfoldable pub status_histogram : Dict String → Dict ℕ
status_histogram statuses = histogram (values statuses)

-- `snapshot.model_path or "unknown"`
abbrev pub path_of : TicketSnapshot → String
path_of s = elim s.model_path [
  | none ↦ "unknown"
  | some path ↦ if path == "" then "unknown" else path
]

unfoldable pub model_path_histogram : Dict TicketSnapshot → Dict ℕ
model_path_histogram snapshots = histogram (map path_of (values snapshots))

abbrev pub add_first : String → List String → List String
add_first c [] = c ∷ []
add_first c (part ∷ parts) = (c <> part) ∷ parts

-- `s.split("/")`, by the code point of the slash
unfoldable pub split : String → List String
split String.[] = "" ∷ []
split (String.◌∷◌ c s) =
    let parts = split s in
    if code c == 47 then "" ∷ parts else add_first (String.◌∷◌ c String.[]) parts

unfoldable pub mentions : String → List String → Bool
mentions x [] = false
mentions x (y ∷ ys) = y == x || mentions x ys

-- `"fallback" in model_path.split("/")`
unfoldable pub has_fallback : String → Bool
unfolding split mentions
has_fallback path = mentions "fallback" (split path)

unfoldable pub fallback_count : Dict ℕ → ℕ
fallback_count [] = 0
fallback_count ((path, n) ∷ rest) =
    let others = fallback_count rest in
    if path == "total" then others else if has_fallback path then n + others else others

unfoldable pub fallback_model_path_count : BatchSummary → ℕ
fallback_model_path_count summary = fallback_count summary.model_paths

-- what `run_batch` makes of the snapshots that it polled
unfoldable pub summary_of : Dict TicketSnapshot → BatchSummary
unfolding status_histogram model_path_histogram
summary_of snapshots = record {
  statuses = status_histogram (map (λ e. (e.0, e.1.status)) snapshots);
  model_paths = model_path_histogram snapshots;
}

-- the end of `main`; `none` is a batch that failed
unfoldable pub exit_code : Option BatchSummary → Bool → ℕ → ℕ
exit_code none require_fallback min_fallback_count = 1
exit_code (some summary) require_fallback min_fallback_count =
    if require_fallback && ltb (fallback_model_path_count summary) min_fallback_count then 1 else 0
