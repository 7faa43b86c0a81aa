-- ===== src/Client/Retry/Settles.antt =====
-- A request whose server answers for good after failures that may pass.
use duckdb_splunk.Prelude.{
  ℕ, zero, suc, ◌+◌, ◌≤◌, ◌<◌, ◌≡◌, ◌≢◌, ◌⊎◌, refl, ap, ◌∙◌, Bool, false, ◌&&◌, ◌||◌, none, some,
  Bytes, ltb, leb, ◌==◌, arith, if_false, if◌then◌else◌, subst,
}
use duckdb_splunk.External.{StringUtil}
use duckdb_splunk.Errors.{Result, ok, throw, discovery_denied, http_status}
use duckdb_splunk.Client.Connection.{SplunkClient}
use duckdb_splunk.Client.Retry.{
  Reply, response, Response, Outcome, returned, raised, Decision, finish, wait, decide, Network,
  Attempts, after_decision, attempt_from, authenticated_request,
}
use duckdb_splunk.Client.Retry.Policy.{IsTransient, Waits, decide-Waits}
use duckdb_splunk.Client.Retry.Budget.{round, attempt_from-round}

-- Attempt `n` is answered by `r`, a failure that may pass on the last attempt only; all before it
-- fail in a way that may pass, and nobody interrupts the query.
pub record Settles (client : SplunkClient) (net : Network Reply) (n : ℕ) (r : Response)
    : Type 0 where
  pub allowed : n ≤ client.retries
  pub representable : n ≤ 64
  pub uninterrupted : (k : ℕ) → net.is_interrupted k ≡ false
  pub slept : (k : ℕ) → net.wait_interrupted k ≡ false
  pub fails : (k : ℕ) → k < n → IsTransient (net.reply k)
  pub answers : net.reply n ≡ response r
  pub settled : (n ≡ client.retries) ⊎ ((r.status ≢ 429) × (r.status < 500))

-- What a last answer comes to.
abbrev pub answer_of : Bool → Response → Result Bytes
answer_of index_discovery r =
    if leb 200 r.status && ltb r.status 300
    then ok r.body
    else if index_discovery && (r.status == 401 || r.status == 403)
    then throw (discovery_denied r.status)
    else throw (http_status r.status r.body)

abbrev pub outcome_of : Result Bytes → Outcome Bytes
outcome_of (ok body) = returned body
outcome_of (throw e) = raised e

module _ (su : StringUtil) (client : SplunkClient) (index_discovery : Bool)
    (net : Network Reply) where
  -- Behind a wait the next attempt decides.
  waited :
      (d : Decision Bytes) (next : Attempts Bytes)
      → Waits d
      → (after_decision false d next).outcome ≡ next.outcome
  waited (finish o) next w = absurd w
  waited (wait none) next w = absurd w
  waited (wait (some seconds)) next w = refl

  round_waits :
      (attempt : ℕ) (next : Attempts Bytes)
      → net.is_interrupted attempt ≡ false
      → net.wait_interrupted attempt ≡ false
      → IsTransient (net.reply attempt)
      → attempt < client.retries
      → attempt < 64
      → (round su client index_discovery net attempt next).outcome ≡ next.outcome
  round_waits attempt next i s t b b' =
      ap Attempts.outcome (if_false _ _ i)
      ∙ ap
          (λ stopped.
            (after_decision stopped (decide su client index_discovery attempt (net.reply attempt))
              next).outcome)
          s
      ∙ waited _ next
          ((decide-Waits su client index_discovery attempt (net.reply attempt) b').1 (b, t))

  answer_finishes :
      (attempt : ℕ) (r : Response)
      → (attempt ≡ client.retries) ⊎ ((r.status ≢ 429) × (r.status < 500))
      → decide su client index_discovery attempt (response r)
        ≡ finish (outcome_of (answer_of index_discovery r))
  unfolding decide
  answer_finishes attempt r h = ground arith

  Settles-from :
      (n : ℕ) (r : Response)
      → Settles client net n r
      → (fuel attempt left : ℕ) → attempt + left ≡ n
      → left < fuel
      → (attempt_from su client index_discovery net fuel attempt).outcome
        ≡ outcome_of (answer_of index_discovery r)
  Settles-from n r h zero attempt left e w = absurd (omega arith)
  Settles-from n r h (suc fuel) attempt zero e w =
      let same : n ≡ attempt = omega arith in
      let next = attempt_from su client index_discovery net fuel (attempt + 1) in
      ap Attempts.outcome (attempt_from-round su client index_discovery net fuel attempt)
      ∙ ap Attempts.outcome (if_false _ _ (h.uninterrupted attempt))
      ∙ ap (λ d. (after_decision (net.wait_interrupted attempt) d next).outcome)
          (ap (decide su client index_discovery attempt)
              (subst (λ k. net.reply k ≡ response r) same h.answers)
            ∙ answer_finishes attempt r (
                subst (λ k. (k ≡ client.retries) ⊎ ((r.status ≢ 429) × (r.status < 500))) same
                  h.settled))
  Settles-from n r h (suc fuel) attempt (suc left) e w =
      let b = h.allowed in
      let c = h.representable in
      ap Attempts.outcome (attempt_from-round su client index_discovery net fuel attempt)
      ∙ round_waits attempt _ (h.uninterrupted attempt) (h.slept attempt)
          (h.fails attempt (omega arith)) (omega arith) (omega arith)
      ∙ Settles-from n r h fuel (attempt + 1) left (omega arith) (omega arith)

  -- If attempt `n` is answered for good, and every attempt before it failed in a way that may
  -- pass, then the request comes to that answer.
  pub authenticated_request-Settles :
      (n : ℕ) (r : Response)
      → Settles client net n r
      → (authenticated_request su client index_discovery net).outcome
        ≡ outcome_of (answer_of index_discovery r)
  unfolding authenticated_request
  authenticated_request-Settles n r h =
      let b = h.allowed in Settles-from n r h (client.retries + 1) 0 n (omega arith) (omega arith)
