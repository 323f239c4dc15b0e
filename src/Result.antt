-- ===== src/Result.antt =====
-- Exceptions as values: what the modelled code raises, with the message where the code gives one.
use ticket_graph.Json.{Json, get}
use ticket_graph.Prelude.{none, some, String, ◌≡◌, refl, Bool, true, false, ◌⊎◌, inl, inr}

pub data Error : Type 0 where
  -- pydantic.ValidationError, raised by `model_validate`
  validation_error : Error
  value_error : String → Error
  assertion_error : Error
  -- KeyError, for `payload["..."]`
  key_error : Error
  type_error : Error
  -- psycopg.errors.UniqueViolation
  unique_violation : Error
  runtime_error : Error
  -- asyncio.CancelledError
  cancelled_error : Error
  -- httpx.HTTPError, and BatchTimeoutError of scripts/batch.py
  http_error : Error
  batch_timeout : Error
  -- ticketflow.agent.base.AgentPermanentError and AgentOverloadedError
  agent_permanent : String → Error
  agent_overloaded : String → Error

pub data Result {ℓ} (A : Type ℓ) : Type ℓ where
  ok : A → Result A
  err : Error → Result A

abbrev pub is_ok {ℓ} : {A : Type ℓ} → Result A → Bool
is_ok (ok a) = true
is_ok (err e) = false

pub Result-cases {ℓ} :
    {A : Type ℓ} (r : Result A) → ((a : A) × (r ≡ ok a)) ⊎ ((e : Error) × (r ≡ err e))
Result-cases (ok a) = inl (a, refl)
Result-cases (err e) = inr (e, refl)

infixl 5 ◌>>=◌
abbrev pub ◌>>=◌ {ℓ κ} : {A : Type ℓ} {B : Type κ} → Result A → (A → Result B) → Result B
err raised >>= _ = err raised
ok value >>= next = next value

module _ {ℓ κ} {A : Type ℓ} {B : Type κ} where
  -- Inversion of a successful bind.
  pub >>=-eq-ok :
      (first : Result A) (next : A → Result B) {last : B}
      → (first >>= next) ≡ ok last
      → (a : A) × (first ≡ ok a) × (next a ≡ ok last)
  >>=-eq-ok (err raised) next e = cc
  >>=-eq-ok (ok a) next e = (a, refl, e)

-- `task.payload[key]`
abbrev pub item : String → Json → Result Json
item key payload = elim (get key payload) [ none ↦ err key_error | some j ↦ ok j ]
