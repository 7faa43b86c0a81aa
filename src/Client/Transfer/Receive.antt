-- ===== src/Client/Transfer/Receive.antt =====
-- What one exchange does to the consumer.
use duckdb_splunk.Prelude.{
  ℕ, ◌+◌, ◌≤◌, ◌≡◌, refl, ap, ◌∙◌, sym, Bool, true, false, List, [], ◌∷◌, Bytes, length, arith,
  Bool-cases, inl, inr, if_true, if_false, subst, if◌then◌else◌, ltb,
}
use duckdb_splunk.Errors.{Run, running, thrown, and_then}
use duckdb_splunk.Client.Transfer.{
  Consumer, Receiving, receiving, consumed, content_receiver, receive,
}

abbrev pub total : List Bytes → ℕ
total [] = 0
total (chunk ∷ chunks) = length chunk + total chunks

module _ {S : Type 0} (consumer : Consumer S) where
  open consumer use {consume, has_stopped}

  -- Behind one call: goes on unless the consumer stopped or threw.
  abbrev pub fed : (S → S) → Run S → S
  fed next (thrown e s) = s
  fed next (running s) = if has_stopped s then s else next s

  -- The consumer alone, on the chunks of one response, until it stops or throws.
  unfoldable pub feed : List Bytes → S → S
  feed [] s = s
  feed (chunk ∷ chunks) s = fed (λ s'. feed chunks s') (consume chunk s)

  -- A received body: the consumer has been fed, and every byte is counted unless it stopped.
  abbrev pub Fed : List Bytes → Receiving S → Run (Receiving S) → Type 0
  Fed chunks r (thrown e r') = r'.state ≡ feed chunks r.state
  Fed chunks r (running r') =
      (r'.state ≡ feed chunks r.state)
      × (r'.stopped_by_consumer ≡ false → r.success_bytes + total chunks ≤ r'.success_bytes)

  pub receive_rest : List Bytes → Receiving S → Run (Receiving S)
  receive_rest chunks r =
      if r.stopped_by_consumer then running r else receive consumer true chunks r

  pub feed-nil : (s : S) → feed [] s ≡ s
  unfolding feed
  feed-nil s = refl

  feed-cons :
      (chunk : Bytes) (chunks : List Bytes) (s : S) (c : Run S)
      → consume chunk s ≡ c
      → feed (chunk ∷ chunks) s ≡ fed (feed chunks) c
  unfolding feed
  feed-cons chunk chunks s c h = ap (fed (λ s'. feed chunks s')) h

  pub receive_rest_open :
      (chunks : List Bytes) (r : Receiving S)
      → r.stopped_by_consumer ≡ false
      → receive_rest chunks r ≡ receive consumer true chunks r
  unfolding receive_rest
  receive_rest_open chunks r h = if_false _ _ h

  pub receive_rest_stop :
      (chunks : List Bytes) (r : Receiving S)
      → r.stopped_by_consumer ≡ true
      → receive_rest chunks r ≡ running r
  unfolding receive_rest
  receive_rest_stop chunks r h = if_true _ _ h

  -- What holds behind one chunk holds from in front of it.
  Fed-cons :
      (chunk : Bytes) (chunks : List Bytes) (r r' : Receiving S) (t : Run (Receiving S))
      → feed (chunk ∷ chunks) r.state ≡ feed chunks r'.state
      → r'.success_bytes ≡ r.success_bytes + length chunk
      → Fed chunks r' t
      → Fed (chunk ∷ chunks) r t
  Fed-cons chunk chunks r r' (thrown e q) h b f = f ∙ sym h
  Fed-cons chunk chunks r r' (running q) h b f =
      (f.0 ∙ sym h, λ o. let bound = f.1 o in omega arith)

  consumed-Fed :
      (chunk : Bytes) (chunks : List Bytes) (r : Receiving S) (c : Run S)
      → r.stopped_by_consumer ≡ false
      → consume chunk r.state ≡ c
      → ((r' : Receiving S)
          → r'.stopped_by_consumer ≡ false
          → Fed chunks r' (receive consumer true chunks r'))
      → Fed (chunk ∷ chunks) r (and_then (consumed consumer chunk r c) (receive_rest chunks))
  consumed-Fed chunk chunks r (thrown e s) o h ih =
      sym (feed-cons chunk chunks r.state (thrown e s) h)
  consumed-Fed chunk chunks r (running s) o h ih = elim (Bool-cases (has_stopped s)) [
    | inl stop ↦
        let r' : Receiving S = record r { state = s; stopped_by_consumer = true } in
        subst (Fed (chunk ∷ chunks) r)
          (sym (ap (receive_rest chunks) (if_true _ _ stop) ∙ receive_rest_stop chunks r' refl))
          (sym (feed-cons chunk chunks r.state (running s) h ∙ if_true _ _ stop), λ e. cc)
    | inr go ↦
        let r' : Receiving S = record r {
          state = s;
          success_bytes = r.success_bytes + length chunk;
        } in
        subst (Fed (chunk ∷ chunks) r)
          (sym (ap (receive_rest chunks) (if_false _ _ go) ∙ receive_rest_open chunks r' o))
          (Fed-cons chunk chunks r r' (receive consumer true chunks r')
            (feed-cons chunk chunks r.state (running s) h ∙ if_false _ _ go) refl (ih r' o))
  ]

  pub receive-cons :
      (chunk : Bytes) (chunks : List Bytes) (r : Receiving S)
      → receive consumer true (chunk ∷ chunks) r
        ≡ and_then (consumed consumer chunk r (consume chunk r.state)) (receive_rest chunks)
  unfolding receive content_receiver receive_rest
  receive-cons chunk chunks r = refl

  pub receive-nil : (b : Bool) (r : Receiving S) → receive consumer b [] r ≡ running r
  unfolding receive
  receive-nil b r = refl

  receive-Fed :
      (chunks : List Bytes) (r : Receiving S)
      → r.stopped_by_consumer ≡ false
      → Fed chunks r (receive consumer true chunks r)
  receive-Fed [] r o =
      subst (Fed [] r) (sym (receive-nil true r)) (sym (feed-nil r.state), λ _. omega arith)
  receive-Fed (chunk ∷ chunks) r o =
      subst (Fed (chunk ∷ chunks) r) (sym (receive-cons chunk chunks r))
        (consumed-Fed chunk chunks r (consume chunk r.state) o refl (receive-Fed chunks))

  -- The body of an error goes to `error_body`; the consumer sees nothing of it.
  abbrev pub Unfed : Receiving S → Run (Receiving S) → Type 0
  Unfed r (thrown e r') = ⊥
  Unfed r (running r') = (r'.state ≡ r.state) × (r'.stopped_by_consumer ≡ false)

  Unfed-trans :
      (r r' : Receiving S) (t : Run (Receiving S)) → r'.state ≡ r.state → Unfed r' t → Unfed r t
  Unfed-trans r r' (thrown e q) h u = u
  Unfed-trans r r' (running q) h u = (u.0 ∙ h, u.1)

  content_receiver_error :
      (chunk : Bytes) (r : Receiving S)
      → r.stopped_by_consumer ≡ false
      → (r' : Receiving S) × (content_receiver consumer false chunk r ≡ running r')
        × (r'.state ≡ r.state)
        × (r'.stopped_by_consumer ≡ false)
  unfolding content_receiver
  content_receiver_error chunk r o = elim (Bool-cases (ltb (length r.error_body) 4096)) [
    | inl fits ↦ (_, if_true _ _ fits, refl, o)
    | inr full ↦ (r, if_false _ _ full, refl, o)
  ]

  receive_open :
      (chunk : Bytes) (chunks : List Bytes) (r r' : Receiving S)
      → content_receiver consumer false chunk r ≡ running r'
      → r'.stopped_by_consumer ≡ false
      → receive consumer false (chunk ∷ chunks) r ≡ receive consumer false chunks r'
  unfolding receive
  receive_open chunk chunks r r' h o =
      ap
        (λ t.
          and_then t
            (λ q. if q.stopped_by_consumer then running q else receive consumer false chunks q))
        h
      ∙ if_false _ _ o

  receive-Unfed :
      (chunks : List Bytes) (r : Receiving S)
      → r.stopped_by_consumer ≡ false
      → Unfed r (receive consumer false chunks r)
  receive-Unfed [] r o = subst (Unfed r) (sym (receive-nil false r)) (refl, o)
  receive-Unfed (chunk ∷ chunks) r o =
      let (r', h, same, o') = content_receiver_error chunk r o in
      subst (Unfed r) (sym (receive_open chunk chunks r r' h o'))
        (Unfed-trans r r' _ same (receive-Unfed chunks r' o'))

  -- An exchange as a whole: the consumer is fed its chunks, or nothing of it.
  abbrev pub IsReceived : List Bytes → Bool → S → Run (Receiving S) → Type 0
  IsReceived chunks true s t = Fed chunks (receiving s) t
  IsReceived chunks false s t = Unfed (receiving s) t

  pub receive-IsReceived :
      (success : Bool) (chunks : List Bytes) (s : S)
      → IsReceived chunks success s (receive consumer success chunks (receiving s))
  receive-IsReceived true chunks s = receive-Fed chunks (receiving s) refl
  receive-IsReceived false chunks s = receive-Unfed chunks (receiving s) refl
