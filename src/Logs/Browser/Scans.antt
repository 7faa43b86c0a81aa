-- ===== src/Logs/Browser/Scans.antt =====
-- One call of the browser scan takes rows from the front of what is promised.
use duckdb_splunk.Prelude.{
  ℕ, ◌+◌, ◌≤◌, ◌<◌, ◌≡◌, refl, ap, ◌∙◌, sym, inl, inr, true, false, List, [], ◌∷◌, ◌++◌, map,
  length, ltb, arith, Bool-cases, append_assoc, if_true, if_false, subst,
}
use duckdb_splunk.External.{Json}
use duckdb_splunk.Errors.{ok}
use duckdb_splunk.Logs.Stream.{Export}
use duckdb_splunk.Logs.Stream.Room.{events_of, row_of, room, room_stop, room_push}
use duckdb_splunk.Logs.Stream.Lines.{lines_from}
use duckdb_splunk.Logs.Scan.{Row}
use duckdb_splunk.Logs.Browser.{BrowserScan, Filling, at_cap, add_row, add_rows}

module _ (x : Export) where
  -- The rows that a state still owes, if `es` are the events of the rest of its response.
  abbrev pub owed : BrowserScan → List Json → List Row
  owed s es = s.buffer ++ map (row_of x) (room x false s.produced es)

  -- Those of a call: the rows of its output vector, and then the rest.
  abbrev pub promised : Filling → List Json → List Row
  promised f es = f.vector ++ owed f.scan es

  abbrev pub EventsAre : BrowserScan → List Json → Type 0
  EventsAre s es = events_of x (lines_from [] s.rest) ≡ ok es

module _ (x : Export) (vector_size : ℕ) where
  -- Rows stay in the buffer only behind a full vector.
  abbrev pub IsOrdered : Filling → Type 0
  IsOrdered f = length f.vector < vector_size → f.scan.buffer ≡ []

  add_row_capped : (e : Json) (f : Filling) → at_cap x f.scan ≡ true → add_row x vector_size e f ≡ f
  unfolding add_row
  add_row_capped e f h = if_true _ _ h

  -- The row of an event in the vector, and in the buffer.
  abbrev pub in_vector : Json → Filling → Filling
  in_vector e f = record {
    scan = record f.scan { produced = f.scan.produced + 1 };
    vector = f.vector ++ row_of x e ∷ [];
  }

  abbrev pub in_buffer : Json → Filling → Filling
  in_buffer e f = record f {
    scan = record f.scan {
      produced = f.scan.produced + 1;
      buffer = f.scan.buffer ++ row_of x e ∷ [];
    };
  }

  pub add_row_room :
      (e : Json) (f : Filling)
      → at_cap x f.scan ≡ false
      → length f.vector < vector_size
      → add_row x vector_size e f ≡ in_vector e f
  unfolding add_row
  add_row_room e f h k =
      if_false _ _ h ∙ if_true {b = ltb (length f.vector) vector_size} _ _ (ground arith)

  pub add_row_full :
      (e : Json) (f : Filling)
      → at_cap x f.scan ≡ false
      → vector_size ≤ length f.vector
      → add_row x vector_size e f ≡ in_buffer e f
  unfolding add_row
  add_row_full e f h k =
      if_false _ _ h ∙ if_false {b = ltb (length f.vector) vector_size} _ _ (ground arith)

  -- What an added event does to the promise.
  record Adds (e : Json) (es : List Json) (f g : Filling) : Type 0 where
    pub keeps : promised x g es ≡ promised x f (e ∷ es)
    pub ordered : IsOrdered g
    pub same_fetched : g.scan.fetched ≡ f.scan.fetched

  Adds-capped :
      (e : Json) (es : List Json) (f : Filling)
      → IsOrdered f
      → at_cap x f.scan ≡ true
      → Adds e es f f
  unfolding at_cap
  Adds-capped e es f o h = record {
    keeps =
        ap (λ taken. f.vector ++ (f.scan.buffer ++ map (row_of x) taken))
          (room_stop x false f.scan.produced es refl h
            ∙ sym (room_stop x false f.scan.produced (e ∷ es) refl h));
    ordered = o;
    same_fetched = refl;
  }

  pushed_room :
      (e : Json) (es : List Json) (s : BrowserScan)
      → at_cap x s ≡ false
      → room x false s.produced (e ∷ es) ≡ e ∷ room x false (s.produced + 1) es
  unfolding at_cap
  pushed_room e es s h = room_push x false s.produced e es refl h

  Adds-in_vector :
      (e : Json) (es : List Json) (f : Filling)
      → IsOrdered f
      → at_cap x f.scan ≡ false
      → length f.vector < vector_size
      → Adds e es f (in_vector e f)
  Adds-in_vector e es f o h k =
      let empty = o k in
      record {
        keeps =
            append_assoc f.vector (row_of x e ∷ []) _
            ∙ ap
                (λ b.
                  f.vector
                  ++ (row_of x e ∷ (b ++ map (row_of x) (room x false (f.scan.produced + 1) es))))
                empty
            ∙ ap (λ taken. f.vector ++ map (row_of x) taken) (sym (pushed_room e es f.scan h))
            ∙ ap (λ b. f.vector ++ (b ++ map (row_of x) (room x false f.scan.produced (e ∷ es))))
                (sym empty);
        ordered = λ _. empty;
        same_fetched = refl;
      }

  Adds-in_buffer :
      (e : Json) (es : List Json) (f : Filling)
      → at_cap x f.scan ≡ false
      → vector_size ≤ length f.vector
      → Adds e es f (in_buffer e f)
  Adds-in_buffer e es f h k = record {
    keeps = ap (◌++◌ f.vector) (
        append_assoc f.scan.buffer (row_of x e ∷ []) _
        ∙ ap (λ taken. f.scan.buffer ++ map (row_of x) taken) (sym (pushed_room e es f.scan h)));
    ordered = λ less. absurd (omega arith);
    same_fetched = refl;
  }

  add_row-Adds :
      (e : Json) (es : List Json) (f : Filling)
      → IsOrdered f
      → Adds e es f (add_row x vector_size e f)
  add_row-Adds e es f o = elim (Bool-cases (at_cap x f.scan)) [
    | inl capped ↦
        subst (Adds e es f) (sym (add_row_capped e f capped)) (Adds-capped e es f o capped)
    | inr open_end ↦ elim (Bool-cases (ltb (length f.vector) vector_size)) [
      | inl fits ↦
          let k : length f.vector < vector_size = ground arith in
          subst (Adds e es f) (sym (add_row_room e f open_end k))
            (Adds-in_vector e es f o open_end k)
      | inr full ↦
          let k : vector_size ≤ length f.vector = ground arith in
          subst (Adds e es f) (sym (add_row_full e f open_end k)) (Adds-in_buffer e es f open_end k)
    ]
  ]

  pub add_rows-promised :
      (events later : List Json) (f : Filling)
      → IsOrdered f
      → (promised x (add_rows x vector_size events f) later ≡ promised x f (events ++ later))
        × IsOrdered (add_rows x vector_size events f)
        × ((add_rows x vector_size events f).scan.fetched ≡ f.scan.fetched)
  unfolding add_rows
  add_rows-promised [] later f o = (refl, o, refl)
  add_rows-promised (e ∷ events) later f o =
      let added = add_row-Adds e (events ++ later) f o in
      let (keeps, ordered, fetched) =
        add_rows-promised events later (add_row x vector_size e f) added.ordered in
      (keeps ∙ added.keeps, ordered, fetched ∙ added.same_fetched)

  -- What a call leaves: the same promise, and a rest of the response only behind a full vector.
  pub record Leaves (f : Filling) (es : List Json) (g : Filling) : Type 0 where
    pub later : List Json
    pub rest_events : EventsAre x g.scan later
    pub keeps : promised x g later ≡ promised x f es
    pub ordered : IsOrdered g
    pub used_up : length g.vector < vector_size → g.scan.rest ≡ []
    pub stays_fetched : g.scan.fetched ≡ f.scan.fetched
