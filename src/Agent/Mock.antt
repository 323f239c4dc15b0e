-- ===== src/Agent/Mock.antt =====
-- src/ticketflow/agent/mock.py: the mock agent, over a random generator that is a parameter. A
-- probability or a confidence is a double, in units of 2^-1074.
use text.Mathlib.Text.{find?}
use Prim.Native.String.{◌++◌ as ◌<>◌}
use ticket_graph.Prelude.{
  ℕ, ◌-◌, ◌*◌, ◌^◌, ◌≤◌, ◌<◌, String, Bool, none, some, List, [], ◌∷◌, ltb, leb, if◌then◌else◌,
  is_some, nat_eq, string_eq,
}
use ticket_graph.Result.{ok, err, agent_overloaded}
use ticket_graph.Models.{
  Ticket, Classification, DraftReply, ProposedAction, TicketCategory, billing, technical, account,
  general, reply_only, refund, one,
}
use ticket_graph.Agent.{Drawing, Agent}

-- `random.Random` as documented: `random()` lies in [0, 1), `uniform(a, b)` between a and b. `round2`
-- is `round(x, 2)`, of which only that it keeps an amount from 5.0 up positive is used. `lower` is
-- `str.lower`.
pub record Random (R : Type 0) : Type 0 where
  pub random : R → ℕ × R
  pub uniform : ℕ → ℕ → R → ℕ × R
  pub round2 : ℕ → ℕ
  pub lower : String → String
  pub random-lt : (r : R) → (random r).0 < one
  pub uniform-ge : (a b : ℕ) (r : R) → a ≤ b → a ≤ (uniform a b r).0
  pub uniform-le : (a b : ℕ) (r : R) → a ≤ b → (uniform a b r).0 ≤ b
  pub round2-pos : (x : ℕ) → 5 * one ≤ x → 0 < round2 x

pub record MockAgent : Type 0 where
  pub failure_rate : ℕ
  pub refund_rate : ℕ
  pub latency_range : ℕ × ℕ
  pub confidence_range : ℕ × ℕ
  pub model : String

-- The double that is `m` units of 2^-k.
abbrev pub double : ℕ → ℕ → ℕ
double m k = m * 2 ^ (1074 - k)

-- 0.6 and 0.8 and 0.1, rounded to doubles
abbrev pub point_six : ℕ
point_six = double 5_404_319_552_844_595 53

abbrev pub point_eight : ℕ
point_eight = double 3_602_879_701_896_397 52

abbrev pub point_one : ℕ
point_one = double 3_602_879_701_896_397 55

-- the default arguments of `__init__`, with the latency that the worker sets
abbrev pub primary : ℕ → MockAgent
primary latency_max = record {
  failure_rate = point_one;
  refund_rate = point_one;
  latency_range = (0, latency_max);
  confidence_range = (point_eight, one);
  model = "primary";
}

abbrev pub fallback : MockAgent
fallback = record {
  failure_rate = 0;
  refund_rate = 0;
  latency_range = (0, 0);
  confidence_range = (0, point_six);
  model = "fallback";
}

-- KEYWORD_CATEGORIES
abbrev pub keyword_categories : List (String × TicketCategory)
keyword_categories =
    ("refund", billing)
    ∷ ("money", billing)
    ∷ ("charge", billing)
    ∷ ("invoice", billing)
    ∷ ("crash", technical)
    ∷ ("error", technical)
    ∷ ("bug", technical)
    ∷ ("password", account)
    ∷ ("login", account)
    ∷ []

-- REPLY_TEMPLATES
unfoldable pub reply_template : TicketCategory → String
reply_template billing =
    "Thanks for reaching out about your billing concern. I've reviewed your account and here is what I can do."
reply_template technical =
    "Sorry you hit a technical issue. Please try the steps below - we've also flagged this to our engineers."
reply_template account =
    "Thanks for contacting us about your account. I've checked your account settings and here is how to proceed."
reply_template general = "Thanks for your message! Here is some information that should help."

-- the first category whose keyword is in the text
unfoldable pub category_of : String → List (String × TicketCategory) → TicketCategory
category_of text [] = general
category_of text ((keyword, category) ∷ rest) =
    if is_some (find? text keyword) then category else category_of text rest

module _ {R : Type 0} (rng : Random R) (mock : MockAgent) where
  -- whether the call fails
  unfoldable pub maybe_fail : R → Bool × R
  maybe_fail r = let (x, r') = rng.random r in (ltb x mock.failure_rate, r')

  -- The pause itself is not kept; it draws from the generator.
  unfoldable pub maybe_sleep : R → R
  maybe_sleep r =
      if leb mock.latency_range.1 0
      then r
      else (rng.uniform mock.latency_range.0 mock.latency_range.1 r).1

  abbrev pub confidence : R → ℕ × R
  confidence r = rng.uniform mock.confidence_range.0 mock.confidence_range.1 r

  -- `_maybe_fail` and `_maybe_sleep` before the work
  abbrev pub guarded : {A : Type 0} → (R → A × R) → Drawing R A
  guarded work r =
      let (fails, r') = maybe_fail r in
      let (a, r'') = work (maybe_sleep r') in
      if fails then (err (agent_overloaded "mock agent backend overloaded"), r') else (ok a, r'')

  abbrev pub classification : Ticket → R → Classification × R
  classification ticket r =
      let (confidence, r') = confidence r in
      (
        record {
          category =
              category_of (rng.lower (ticket.subject <> " " <> ticket.body)) keyword_categories;
          confidence = confidence;
          model = mock.model;
        },
        r',
      )

  -- a refund of 5 to 100, or no action
  unfoldable pub propose : R → ProposedAction × R
  propose r =
      let (x, r') = rng.random r in
      let (amount, r'') = rng.uniform (5 * one) (100 * one) r' in
      if ltb x mock.refund_rate
      then (record { type = refund; refund_amount = some (rng.round2 amount) }, r'')
      else (record { type = reply_only; refund_amount = none }, r')

  abbrev pub reply : Classification → R → DraftReply × R
  reply c r =
      let (action, r') = propose r in
      let (confidence, r'') = confidence r' in
      (
        record {
          reply_text = reply_template c.category;
          action = action;
          confidence = confidence;
          model = mock.model;
        },
        r'',
      )

  abbrev pub mock_agent : Agent R
  mock_agent = record {
    classify = λ ticket. guarded (classification ticket);
    draft_reply = λ ticket c. guarded (reply c);
  }
