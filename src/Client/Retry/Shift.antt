-- ===== src/Client/Retry/Shift.antt =====
-- More than 64 retries run into a shift that C++ leaves undefined.
use duckdb_splunk.Prelude.{
  ℕ, zero, suc, ◌+◌, ◌≤◌, ◌<◌, ◌≡◌, refl, ap, ap₂, ◌∙◌, Bool, false, Bytes, arith, if_false, some,
  none, min, ◌^◌,
}
use duckdb_splunk.External.{StringUtil}
use duckdb_splunk.Client.Connection.{SplunkClient}
use duckdb_splunk.Client.Retry.{
  Reply, response, Response, undefined_shift, wait, decide, Network, Attempts, after_decision,
  backoff_seconds, attempt_from, authenticated_request,
}

-- Every attempt is answered by an error of the server, and nobody interrupts the query.
pub record IsDown (net : Network Reply) : Type 0 where
  pub answers : ℕ → Response
  pub answered : (n : ℕ) → net.reply n ≡ response (answers n)
  pub server_error : (n : ℕ) → 500 ≤ (answers n).status
  pub undisturbed : (n : ℕ) → net.is_interrupted n ≡ false
  pub slept : (n : ℕ) → net.wait_interrupted n ≡ false

module _ (su : StringUtil) (client : SplunkClient) (index_discovery : Bool) where
  decide_down :
      (attempt : ℕ) (r : Response)
      → 500 ≤ r.status
      → attempt < client.retries
      → decide su client index_discovery attempt (response r) ≡ wait (backoff_seconds attempt)
  unfolding decide
  decide_down attempt r h k = ground arith

  module _ (net : Network Reply) (down : IsDown net) (many : 64 < client.retries) where
    round_down :
        (attempt : ℕ) (next : Attempts Bytes)
        → attempt < client.retries
        → after_decision
            (net.wait_interrupted attempt)
            (decide su client index_discovery attempt (net.reply attempt))
            next
          ≡ after_decision false (wait (backoff_seconds attempt)) next
    round_down attempt next h =
        ap₂ (λ stopped d. after_decision stopped d next) (down.slept attempt)
          (ap (decide su client index_discovery attempt) (down.answered attempt)
            ∙ decide_down attempt (down.answers attempt) (down.server_error attempt) h)

    attempt_from_down :
        (fuel attempt : ℕ)
        → attempt < client.retries
        → attempt_from su client index_discovery net (suc fuel) attempt
          ≡ after_decision false
              (wait (backoff_seconds attempt))
              (attempt_from su client index_discovery net fuel (attempt + 1))
    unfolding attempt_from
    attempt_from_down fuel attempt h =
        if_false _ _ (down.undisturbed attempt) ∙ round_down attempt _ h

    backoff_low :
        (attempt : ℕ) → attempt < 64 → backoff_seconds attempt ≡ some (min (2 ^ attempt) 60)
    unfolding backoff_seconds
    backoff_low attempt h = ground arith

    backoff_64 : backoff_seconds 64 ≡ none
    unfolding backoff_seconds
    backoff_64 = refl

    -- `left` attempts before the 65th.
    shift_from :
        (left fuel attempt : ℕ)
        → left + attempt ≡ 64
        → left < fuel
        → (attempt_from su client index_discovery net fuel attempt).outcome ≡ undefined_shift
    shift_from left zero attempt e f = absurd (omega arith)
    shift_from zero (suc fuel) attempt e f =
        let last : attempt ≡ 64 = omega arith in
        ap (λ t. t.outcome)
          (attempt_from_down fuel attempt (omega arith)
            ∙ ap
                (λ d.
                  after_decision false (wait d)
                    (attempt_from su client index_discovery net fuel (attempt + 1)))
                (ap backoff_seconds last ∙ backoff_64))
    shift_from (suc left) (suc fuel) attempt e f =
        ap (λ t. t.outcome)
          (attempt_from_down fuel attempt (omega arith)
            ∙ ap
                (λ d.
                  after_decision false (wait d)
                    (attempt_from su client index_discovery net fuel (attempt + 1)))
                (backoff_low attempt (omega arith)))
        ∙ shift_from left fuel (attempt + 1) (omega arith) (omega arith)

    -- With more than 64 retries, against a server that answers every attempt with a status of
    -- 500 and above, and with no interrupt, a request ends in a shift of a 64-bit integer by
    -- 64, which C++ leaves undefined.
    pub authenticated_request_undefined :
        (authenticated_request su client index_discovery net).outcome ≡ undefined_shift
    unfolding authenticated_request
    authenticated_request_undefined =
        shift_from 64 (client.retries + 1) 0 (omega arith) (omega arith)
