-- ===== src/Client/Retry/Budget.antt =====
-- A request keeps to its retry budget and comes to an end.
use duckdb_splunk.Prelude.{
  ℕ, zero, suc, ◌+◌, ◌≤◌, ◌<◌, ◌≡◌, ◌≢◌, refl, sym, Bool, true, false, Option, none, some, Bytes,
  length, All, arith, Bool-cases, inl, inr, if_true, if_false, subst, if◌then◌else◌,
}
use duckdb_splunk.External.{StringUtil}
use duckdb_splunk.Errors.{interrupted}
use duckdb_splunk.Client.Connection.{SplunkClient}
use duckdb_splunk.Client.Retry.{
  Reply, raised, undefined_shift, out_of_fuel, Decision, finish, wait, decide, Network, Attempts,
  unsent, sleep_then, after_decision, attempt_from, authenticated_request,
}
use duckdb_splunk.Client.Retry.Policy.{WaitsFor, IsDelay, decide-WaitsFor}

-- What holds of the rest of a request, from an attempt on.
pub record WithinBudget (retries attempt : ℕ) (t : Attempts Bytes) : Type 0 where
  -- At most one request for each attempt that is left.
  pub requests_bound : t.requests + attempt ≤ retries + 1
  pub delays_bound : length t.delays + attempt ≤ retries
  -- Each wait takes one to sixty seconds.
  pub delays_range : All (λ d. (1 ≤ d) × (d ≤ 60)) t.delays
  pub ends : t.outcome ≢ out_of_fuel
  -- The shift of the backoff is defined for up to 64 retries.
  pub defined : retries ≤ 64 → t.outcome ≢ undefined_shift

module _ (su : StringUtil) (client : SplunkClient) (index_discovery : Bool) where
  sleep_then-WithinBudget :
      (attempt : ℕ) (stopped : Bool) (delay : Option ℕ) (next : Attempts Bytes)
      → IsDelay delay
      → attempt < client.retries
      → (attempt < 64 → delay ≢ none)
      → WithinBudget client.retries (attempt + 1) next
      → WithinBudget client.retries attempt (sleep_then stopped delay next)
  sleep_then-WithinBudget attempt stopped none next r h k w = record {
    requests_bound = omega arith;
    delays_bound = omega arith;
    delays_range = tt;
    ends = λ e. cc;
    defined = λ small e. k (omega arith) refl;
  }
  sleep_then-WithinBudget attempt true (some s) next r h k w = record {
    requests_bound = omega arith;
    delays_bound = omega arith;
    delays_range = tt;
    ends = λ e. cc;
    defined = λ small e. cc;
  }
  sleep_then-WithinBudget attempt false (some s) next r h k w = record {
    requests_bound = omega (arith, w.requests_bound);
    delays_bound = omega (arith, w.delays_bound);
    delays_range = (r, w.delays_range);
    ends = w.ends;
    defined = w.defined;
  }

  after_decision-WithinBudget :
      (attempt : ℕ) (stopped : Bool) (d : Decision Bytes) (next : Attempts Bytes)
      → attempt ≤ client.retries
      → WaitsFor su client index_discovery attempt d
      → (attempt < client.retries → WithinBudget client.retries (attempt + 1) next)
      → WithinBudget client.retries attempt (after_decision stopped d next)
  after_decision-WithinBudget attempt stopped (finish o) next b h w = record {
    requests_bound = omega arith;
    delays_bound = omega arith;
    delays_range = tt;
    ends = h.1;
    defined = λ small. h.0;
  }
  after_decision-WithinBudget attempt stopped (wait d) next b h w =
      sleep_then-WithinBudget attempt stopped d next h.0 h.1 h.2 (w h.1)

  interrupted-WithinBudget :
      (attempt : ℕ)
      → attempt ≤ client.retries
      → WithinBudget client.retries attempt (unsent (raised interrupted))
  interrupted-WithinBudget attempt h = record {
    requests_bound = omega arith;
    delays_bound = omega arith;
    delays_range = tt;
    ends = λ e. cc;
    defined = λ small e. cc;
  }

  module _ (net : Network Reply) where
    -- One round, with the rest of the loop named.
    abbrev pub round : ℕ → Attempts Bytes → Attempts Bytes
    round attempt next =
        if net.is_interrupted attempt
        then unsent (raised interrupted)
        else after_decision (net.wait_interrupted attempt)
            (decide su client index_discovery attempt (net.reply attempt)) next

    pub attempt_from-round :
        (fuel attempt : ℕ)
        → attempt_from su client index_discovery net (suc fuel) attempt
          ≡ round attempt (attempt_from su client index_discovery net fuel (attempt + 1))
    unfolding attempt_from
    attempt_from-round fuel attempt = refl

    round-WithinBudget :
        (attempt : ℕ) (next : Attempts Bytes)
        → attempt ≤ client.retries
        → (attempt < client.retries → WithinBudget client.retries (attempt + 1) next)
        → WithinBudget client.retries attempt (round attempt next)
    round-WithinBudget attempt next b w = elim (Bool-cases (net.is_interrupted attempt)) [
      | inl stop ↦
          subst (WithinBudget client.retries attempt) (sym (if_true _ _ stop))
            (interrupted-WithinBudget attempt b)
      | inr go ↦ subst (WithinBudget client.retries attempt) (sym (if_false _ _ go)) (
          after_decision-WithinBudget attempt _ _ next b
            (decide-WaitsFor su client index_discovery attempt (net.reply attempt)) w)
    ]

    attempt_from-WithinBudget :
        (fuel attempt : ℕ)
        → attempt ≤ client.retries
        → client.retries < fuel + attempt
        → WithinBudget client.retries attempt
            (attempt_from su client index_discovery net fuel attempt)
    attempt_from-WithinBudget zero attempt b f = absurd (omega arith)
    attempt_from-WithinBudget (suc fuel) attempt b f =
        subst (WithinBudget client.retries attempt) (sym (attempt_from-round fuel attempt)) (
          round-WithinBudget attempt _ b
            (λ more. attempt_from-WithinBudget fuel (attempt + 1) (omega arith) (omega arith)))

    -- Against every network, an authenticated request is sent at most `retries` + 1 times,
    -- waits at most `retries` times, for 1 to 60 seconds each, does not run out of the fuel
    -- of the model, and for up to 64 retries has no undefined shift.
    pub authenticated_request-WithinBudget :
        WithinBudget client.retries 0 (authenticated_request su client index_discovery net)
    unfolding authenticated_request
    authenticated_request-WithinBudget =
        attempt_from-WithinBudget (client.retries + 1) 0 (omega arith) (omega arith)
