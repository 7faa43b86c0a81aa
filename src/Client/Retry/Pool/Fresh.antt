-- ===== src/Client/Retry/Pool/Fresh.antt =====
-- Every attempt goes over a connection with the client's configuration, and a new one is made only
-- at first and behind a transport error.
use duckdb_splunk.Prelude.{
  ℕ, zero, suc, ◌+◌, ◌≤◌, ◌≡◌, refl, ap, ap₂, ◌∙◌, sym, Bool, Option, none, some, List, [], ◌∷◌,
  ◌++◌, Bytes, All, length, length-append, arith, subst,
}
use duckdb_splunk.External.{StringUtil}
use duckdb_splunk.Client.Connection.{SplunkClient, Connection, get_connection, browser_auth_header}
use duckdb_splunk.Client.Connection.Headers.{
  HttpAuth, HttpAuthLaws, sent_header, authorization_agrees,
}
use duckdb_splunk.Client.Retry.{Reply, no_response, response, Network, authenticated_request}
use duckdb_splunk.Client.Retry.Pool.{Pool, unconnected, after_reply, acquire, connections}

-- The attempts that had no response.
abbrev pub failures : List Reply → ℕ
failures [] = 0
failures (no_response e ∷ replies) = suc (failures replies)
failures (response r ∷ replies) = failures replies

-- The answers to the first attempts.
abbrev pub replies_of : (ℕ → Reply) → ℕ → List Reply
replies_of reply zero = []
replies_of reply (suc n) = replies_of reply n ++ reply n ∷ []

length-replies_of : (reply : ℕ → Reply) (n : ℕ) → length (replies_of reply n) ≡ n
length-replies_of reply zero = refl
length-replies_of reply (suc n) =
    omega (arith, length-append (replies_of reply n) (reply n ∷ []), length-replies_of reply n)

module _ (su : StringUtil) (client : SplunkClient) where
  abbrev configured : Connection
  configured = get_connection su client none

  -- The cache holds nothing, or a connection that the client has configured; `spare` counts it.
  abbrev HoldsConfigured : Option Connection → Type 0
  HoldsConfigured none = Unit {0}
  HoldsConfigured (some c) = c ≡ configured

  abbrev missing : Option Connection → ℕ
  missing none = 1
  missing (some c) = 0

  -- What `acquire` gives.
  acquire-Configured :
      (cached : Option Connection) (n : ℕ)
      → HoldsConfigured cached
      → ((acquire su client (record { connection = cached; made = n })).0 ≡ configured)
        × ((acquire su client (record { connection = cached; made = n })).1
            ≡ record { connection = some configured; made = n + missing cached })
  unfolding acquire get_connection
  acquire-Configured none n h = (refl, refl)
  acquire-Configured (some c) n h = (
    h,
    ap₂ (λ c' m. record { connection = some c'; made = m }) h
        (let same : n ≡ n + 0 = omega arith in same),
  )

  -- What holds of the attempts with some replies.
  abbrev Bounded : List Reply → Pool → ℕ → Type 0
  Bounded replies p most =
      All (λ c. c ≡ configured) (connections su client replies p).0
      × (length (connections su client replies p).0 ≡ length replies)
      × ((connections su client replies p).1.made ≤ most)

  -- Behind a reply, if the rest is bounded.
  after_reply-Bounded :
      (reply : Reply) (replies : List Reply) (p q : Pool)
      → ((r : Pool)
          → HoldsConfigured r.connection
          → Bounded replies r (r.made + missing r.connection + failures replies))
      → q ≡ record { connection = some configured; made = p.made + missing p.connection }
      → Bounded replies
          (after_reply reply q)
          (p.made + missing p.connection + failures (reply ∷ replies))
  unfolding after_reply
  after_reply-Bounded (no_response e) replies p q later same =
      let (all, lengths, most) = later (record q { connection = none }) tt in
      (all, lengths, omega (arith, most, ap Pool.made same))
  after_reply-Bounded (response r) replies p q later same =
      let (all, lengths, most) =
        later q (subst HoldsConfigured (sym (ap Pool.connection same)) refl) in
      (all, lengths, omega (arith, most, ap Pool.made same, ap missing (ap Pool.connection same)))

  connections-Bounded :
      (replies : List Reply) (p : Pool)
      → HoldsConfigured p.connection
      → Bounded replies p (p.made + missing p.connection + failures replies)
  unfolding connections
  connections-Bounded [] p h = (tt, refl, omega arith)
  connections-Bounded (reply ∷ replies) p h =
      let (first, cached) = acquire-Configured p.connection p.made h in
      let (all, lengths, most) =
        after_reply-Bounded reply replies p (acquire su client p).1 (connections-Bounded replies)
          cached in
      ((first, all), ap suc lengths, most)

  All-sent :
      (to_base64 : Bytes → Bytes) (h : HttpAuth)
      → HttpAuthLaws to_base64 h
      → (cs : List Connection) → All (λ c. c ≡ configured) cs
      → All (λ c. sent_header h c.authentication ≡ browser_auth_header su to_base64 client) cs
  All-sent to_base64 h laws [] all = tt
  All-sent to_base64 h laws (c ∷ cs) all = (
    ap (λ (k : Connection). sent_header h k.authentication) all.0
        ∙ authorization_agrees su to_base64 h client laws,
    All-sent to_base64 h laws cs all.1,
  )

  module _ (index_discovery : Bool) (net : Network Reply) where
    -- The replies to the attempts of a request.
    abbrev pub attempted : List Reply
    attempted = replies_of net.reply (authenticated_request su client index_discovery net).requests

    -- If the HTTP library sends bearer tokens and basic credentials in their usual form, then
    -- each attempt of a request goes over a connection that sends the `Authorization` header
    -- of the browser build, or neither sends one; and connections are made at most once and
    -- once more for each attempt that had no response.
    pub authenticated_request-connections :
        (to_base64 : Bytes → Bytes) (h : HttpAuth)
        → HttpAuthLaws to_base64 h
        → All
            (λ c. sent_header h c.authentication ≡ browser_auth_header su to_base64 client)
            (connections su client attempted unconnected).0
          × (length (connections su client attempted unconnected).0
              ≡ (authenticated_request su client index_discovery net).requests)
          × ((connections su client attempted unconnected).1.made ≤ 1 + failures attempted)
    authenticated_request-connections to_base64 h laws =
        let (all, lengths, most) = connections-Bounded attempted unconnected tt in
        (All-sent to_base64 h laws _ all, lengths ∙ length-replies_of net.reply _, most)
