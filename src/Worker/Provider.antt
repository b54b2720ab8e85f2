-- ===== src/Worker/Provider.antt =====
-- `complete_model` (app/worker.py): the calls of the model provider, with retries and a circuit
-- breaker that counts failures. The provider is a parameter: what it gives in an attempt. The
-- sleeps between attempts are left out, and so are the latency and the name in the metrics.
use general_agent_platform.Base.{
  ℕ, zero, suc, ◌+◌, ◌*◌, ◌≤◌, ◌≡◌, refl, String, Bool, true, false, Option, none, some, List, [],
  ◌∷◌, ◌++◌, ◌∙◌, length, arith, leb, if◌then◌else◌, Result, ok, err, Code, model_circuit_open,
  model_provider_transient, model_provider_unavailable,
}
use general_agent_platform.Json.{Fields}
use general_agent_platform.Db.{Usage}

-- The settings, and the provider's answer to a prompt and a context in an attempt: an output with
-- the usage that it states (0 where it states none, and no total where it states none).
pub record Provider : Type 0 where
  pub max_retries : ℕ
  pub threshold : ℕ
  pub input_price : ℕ
  pub output_price : ℕ
  pub complete : ℕ → String → Fields → Result (Fields × ℕ × ℕ × Option ℕ)

pub record Completion : Type 0 where
  pub output : Fields
  pub attempts : ℕ
  pub usage : Usage
  pub cost : ℕ

abbrev pub is_retryable : Code → Bool
is_retryable model_provider_transient = true
is_retryable model_provider_unavailable = true
is_retryable _ = false

-- `int(usage.get("total_tokens", input_tokens + output_tokens) or 0)`
abbrev pub total_of : ℕ → ℕ → Option ℕ → ℕ
total_of i o none = i + o
total_of i o (some t) = t

module _ (provider : Provider) (prompt : String) (context : Fields) where
  abbrev pub completion : ℕ → Fields → ℕ → ℕ → Option ℕ → Completion
  completion attempt output i o total = record {
    output = output;
    attempts = attempt + 1;
    usage = record { prompt_tokens = i; completion_tokens = o; total_tokens = total_of i o total };
    cost = i * provider.input_price + o * provider.output_price;
  }

  -- What an attempt makes of `_model_failures`, and the result if the attempt is the last one. An
  -- error that is not retryable does not end the loop either.
  unfoldable pub take_answer : ℕ → ℕ → Result (Fields × ℕ × ℕ × Option ℕ) → ℕ × Result Completion
  take_answer attempt failures (ok (output, i, o, total)) =
      (0, ok (completion attempt output i o total))
  take_answer attempt failures (err e) = (if is_retryable e then suc failures else failures, err e)

  -- Goes on after an error.
  abbrev pub resume :
      ℕ × Result Completion → (ℕ → Code → ℕ × Result Completion) → ℕ × Result Completion
  resume (failures, ok c) next = (failures, ok c)
  resume (failures, err e) next = next failures e

  -- `for attempt in range(...)`, with the last error so far; the first argument counts the attempts
  -- that are left.
  unfoldable pub try_attempts : ℕ → ℕ → ℕ → Code → ℕ × Result Completion
  unfolding take_answer
  try_attempts zero attempt failures last = (failures, err last)
  try_attempts (suc left) attempt failures last =
      resume (take_answer attempt failures (provider.complete attempt prompt context))
        (λ failures' e. try_attempts left (suc attempt) failures' e)

  -- `_model_failures` before and after, and the result.
  unfoldable pub complete_model : ℕ → ℕ × Result Completion
  unfolding try_attempts
  complete_model failures =
      if leb provider.threshold failures
      then (failures, err model_circuit_open)
      else try_attempts (suc provider.max_retries) 0 failures model_provider_unavailable

  take_answer-bound :
      (attempt failures : ℕ) (answer : Result (Fields × ℕ × ℕ × Option ℕ))
      (next : ℕ → Code → ℕ × Result Completion) (n : ℕ)
      → ((failures' : ℕ) (e : Code) → failures' ≤ suc failures → (next failures' e).0 ≤ n)
      → (resume (take_answer attempt failures answer) next).0 ≤ n
  unfolding take_answer
  take_answer-bound attempt failures (ok (output, i, o, total)) next n h = omega arith
  take_answer-bound attempt failures (err e) next n h =
      h (if is_retryable e then suc failures else failures) e (ground arith)

  pub try_attempts-bound :
      (left attempt failures : ℕ) (last : Code)
      → (try_attempts left attempt failures last).0 ≤ failures + left
  unfolding try_attempts
  try_attempts-bound zero attempt failures last = omega arith
  try_attempts-bound (suc left) attempt failures last =
      take_answer-bound attempt failures (provider.complete attempt prompt context)
        (λ failures' e. try_attempts left (suc attempt) failures' e) (failures + suc left)
        (λ failures' e h. omega (arith, h, try_attempts-bound left (suc attempt) failures' e))

  -- Every attempt fails, and the failure counts.
  abbrev pub IsDown : Type 0
  IsDown =
      (n : ℕ) → (e : Code) × (provider.complete n prompt context ≡ err e) × (is_retryable e ≡ true)

  try_attempts-down :
      (left attempt failures : ℕ) (last : Code)
      → IsDown
      → (try_attempts left attempt failures last).0 ≡ failures + left
  unfolding try_attempts take_answer
  try_attempts-down zero attempt failures last down = omega arith
  try_attempts-down (suc left) attempt failures last down =
      let (e, fails, counts) = down attempt in
      rw (fails, counts, try_attempts, take_answer)
        (ground (arith, try_attempts-down left (suc attempt) (suc failures) e down))

  -- A request that fails counts, until the circuit is open.
  pub complete_model-down :
      (failures n : ℕ)
      → IsDown
      → provider.threshold ≤ failures + suc n
      → provider.threshold ≤ (complete_model failures).0 + n
  unfolding complete_model
  complete_model-down failures n down h = ground (
    arith,
    try_attempts-down (suc provider.max_retries) 0 failures model_provider_unavailable down,
  )

  pub complete_model-bound :
      (failures : ℕ)
      → failures ≤ provider.threshold + provider.max_retries
      → (complete_model failures).0 ≤ provider.threshold + provider.max_retries
  unfolding complete_model
  complete_model-bound failures h =
      ground
        (arith, try_attempts-bound (suc provider.max_retries) 0 failures model_provider_unavailable)

-- A request: its prompt, its context, and how the provider answers in each attempt.
pub record Request : Type 0 where
  pub prompt : String
  pub context : Fields
  pub answer : ℕ → Result (Fields × ℕ × ℕ × Option ℕ)

module _ (provider : Provider) where
  -- The requests of a process, one after the other: the counter at the end, and the results.
  unfoldable pub serve_requests : ℕ → List Request → ℕ × List (Result Completion)
  unfolding complete_model
  serve_requests failures [] = (failures, [])
  serve_requests failures (r ∷ rest) =
      let (failures', result) =
        complete_model (record provider { complete = λ n prompt context. r.answer n }) r.prompt
          r.context failures in
      let (final, results) = serve_requests failures' rest in (final, result ∷ results)

  serve_requests-bound :
      (failures : ℕ) (requests : List Request)
      → failures ≤ provider.threshold + provider.max_retries
      → (serve_requests failures requests).0 ≤ provider.threshold + provider.max_retries
  unfolding serve_requests
  serve_requests-bound failures [] h = h
  serve_requests-bound failures (r ∷ rest) h =
      let answering = record provider { complete = λ n prompt context. r.answer n } in
      serve_requests-bound (complete_model answering r.prompt r.context failures).0 rest
        (complete_model-bound answering r.prompt r.context failures h)

  serve_requests-append :
      (failures : ℕ) (before after : List Request)
      → let (failures', results) = serve_requests failures before in
        let (failures'', results') = serve_requests failures' after in
        serve_requests failures (before ++ after) ≡ (failures'', results ++ results')
  unfolding serve_requests
  serve_requests-append failures [] after = refl
  serve_requests-append failures (r ∷ before) after =
      let answering = record provider { complete = λ n prompt context. r.answer n } in
      let failures' = (complete_model answering r.prompt r.context failures).0 in
      rw (serve_requests-append failures' before after) refl

  -- The provider answers no attempt of these requests: each fails with an error that is retried.
  abbrev pub IsOutage : List Request → Type 0
  IsOutage [] = Unit
  IsOutage (r ∷ rest) =
      ((n : ℕ) → (e : Code) × (r.answer n ≡ err e) × (is_retryable e ≡ true)) × IsOutage rest

  serve_requests-down :
      (failures : ℕ) (outage : List Request)
      → IsOutage outage
      → provider.threshold ≤ failures + length outage
      → provider.threshold ≤ (serve_requests failures outage).0
  unfolding serve_requests
  serve_requests-down failures [] down h = omega (arith, h)
  serve_requests-down failures (r ∷ rest) (fails, down) h =
      let answering = record provider { complete = λ n prompt context. r.answer n } in
      serve_requests-down (complete_model answering r.prompt r.context failures).0 rest down (
        complete_model-down answering r.prompt r.context failures (length rest) fails
          (omega (arith, h)))

  abbrev pub refusals : List Request → List (Result Completion)
  refusals [] = []
  refusals (r ∷ rest) = err model_circuit_open ∷ refusals rest

  -- The open circuit stays open.
  open_circuit_stays :
      (failures : ℕ) (requests : List Request)
      → provider.threshold ≤ failures
      → serve_requests failures requests ≡ (failures, refusals requests)
  unfolding serve_requests complete_model
  open_circuit_stays failures [] h = refl
  open_circuit_stays failures (r ∷ rest) h = ground (arith, open_circuit_stays failures rest h)

  -- An outage opens the circuit, and it never closes: in a fresh process, after as many requests
  -- as the threshold that the provider did not answer in any attempt, every later request is
  -- refused by the open circuit, whatever the provider would answer, and the counter of failures
  -- stays as it is.
  pub outage_opens_circuit :
      (outage later : List Request)
      → IsOutage outage
      → provider.threshold ≤ length outage
      → let (failures, results) = serve_requests 0 outage in
        serve_requests 0 (outage ++ later) ≡ (failures, results ++ refusals later)
  outage_opens_circuit outage later down h =
      let (failures, results) = serve_requests 0 outage in
      let opened =
        open_circuit_stays failures later (serve_requests-down 0 outage down (omega (arith, h))) in
      serve_requests-append 0 outage later ∙ rw opened refl

  -- From a fresh process, whatever the requests and the answers, the failures that are counted
  -- never pass the threshold by more than the retries of one request.
  pub model_failures_bounded :
      (requests : List Request)
      → (serve_requests 0 requests).0 ≤ provider.threshold + provider.max_retries
  model_failures_bounded requests = serve_requests-bound 0 requests (omega arith)
