-- ===== src/Client/Transfer/Counts.antt =====
-- What the client knows of a received body: its bytes, and whether the consumer stopped.
use duckdb_splunk.Prelude.{
  ◌+◌, ◌≡◌, refl, ap, ◌∙◌, sym, true, false, List, [], ◌∷◌, Bytes, length, arith, Bool-cases, inl,
  inr, if_true, if_false, subst,
}
use duckdb_splunk.Errors.{Run, running, thrown, and_then}
use duckdb_splunk.Client.Transfer.{Consumer, Receiving, consumed, receive}
use duckdb_splunk.Client.Transfer.Receive.{
  total, receive_rest, receive_rest_open, receive_rest_stop, receive-cons, receive-nil,
}

module _ {S : Type 0} (consumer : Consumer S) where
  open consumer use {consume, has_stopped}

  -- A received body is counted, unless the consumer stopped, and the client knows whether it did.
  abbrev pub Counts : List Bytes → Receiving S → Run (Receiving S) → Type 0
  Counts chunks r (thrown e q) = Unit {0}
  Counts chunks r (running q) =
      (q.stopped_by_consumer ≡ has_stopped q.state)
      × (q.stopped_by_consumer ≡ false → q.success_bytes ≡ r.success_bytes + total chunks)

  Counts-cons :
      (chunk : Bytes) (chunks : List Bytes) (r r' : Receiving S) (t : Run (Receiving S))
      → r'.success_bytes ≡ r.success_bytes + length chunk
      → Counts chunks r' t
      → Counts (chunk ∷ chunks) r t
  Counts-cons chunk chunks r r' (thrown e q) h c = tt
  Counts-cons chunk chunks r r' (running q) h c = (c.0, λ o. omega (arith, c.1 o))

  consumed-Counts :
      (chunk : Bytes) (chunks : List Bytes) (r : Receiving S) (c : Run S)
      → r.stopped_by_consumer ≡ false
      → ((r' : Receiving S)
          → r'.stopped_by_consumer ≡ false
          → has_stopped r'.state ≡ false
          → Counts chunks r' (receive consumer true chunks r'))
      → Counts
          (chunk ∷ chunks)
          r
          (and_then (consumed consumer chunk r c) (receive_rest consumer chunks))
  consumed-Counts chunk chunks r (thrown e s) o ih = tt
  consumed-Counts chunk chunks r (running s) o ih = elim (Bool-cases (has_stopped s)) [
    | inl stop ↦
        let r' : Receiving S = record r { state = s; stopped_by_consumer = true } in
        subst (Counts (chunk ∷ chunks) r)
          (sym (
            ap (receive_rest consumer chunks) (if_true _ _ stop)
            ∙ receive_rest_stop consumer chunks r' refl))
          (sym stop, λ e. cc)
    | inr go ↦
        let r' : Receiving S = record r {
          state = s;
          success_bytes = r.success_bytes + length chunk;
        } in
        subst (Counts (chunk ∷ chunks) r)
          (sym (
            ap (receive_rest consumer chunks) (if_false _ _ go)
            ∙ receive_rest_open consumer chunks r' o))
          (Counts-cons chunk chunks r r' (receive consumer true chunks r') refl (ih r' o go))
  ]

  pub receive-Counts :
      (chunks : List Bytes) (r : Receiving S)
      → r.stopped_by_consumer ≡ false
      → has_stopped r.state ≡ false
      → Counts chunks r (receive consumer true chunks r)
  receive-Counts [] r o h =
      subst (Counts [] r) (sym (receive-nil consumer true r)) (o ∙ sym h, λ _. omega arith)
  receive-Counts (chunk ∷ chunks) r o h =
      subst (Counts (chunk ∷ chunks) r) (sym (receive-cons consumer chunk chunks r))
        (consumed-Counts chunk chunks r (consume chunk r.state) o (receive-Counts chunks))
