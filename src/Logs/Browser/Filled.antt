-- ===== src/Logs/Browser/Filled.antt =====
-- The loop over lines: it ends, and keeps the promise.
use duckdb_splunk.Prelude.{
  ℕ, zero, suc, ◌<◌, ◌≡◌, refl, ap, ◌∙◌, sym, inl, inr, true, false, not, List, [], ◌∷◌, ◌++◌,
  Bytes, map, length, is_empty, arith, Bool-cases, if_true, if_false,
}
use duckdb_splunk.External.{Json}
use duckdb_splunk.Errors.{ok, ◌>>=◌}
use duckdb_splunk.Logs.Export.{parse_export_line}
use duckdb_splunk.Logs.Stream.{Export}
use duckdb_splunk.Logs.Stream.Room.{events_of, row_of, room_stop, room_nil, events_of-cons}
use duckdb_splunk.Logs.Stream.Lines.{lines_from}
use duckdb_splunk.Logs.Stream.Whole.{lines_from_end}
use duckdb_splunk.Logs.Browser.{
  Filling, next_line, at_cap, add_rows, wants_line, skip_rest, fill_lines,
}
use duckdb_splunk.Logs.Browser.Lines.{next_line-IsFront}
use duckdb_splunk.Logs.Browser.Scans.{promised, EventsAre, IsOrdered, Leaves, add_rows-promised}

events_of_none : (x : Export) → events_of x (lines_from [] []) ≡ ok []
unfolding events_of
events_of_none x = ap (events_of x) (lines_from_end [])

module _ (x : Export) (vector_size : ℕ) where
  pub fill_lines_stop :
      (fuel : ℕ) (f : Filling)
      → wants_line x vector_size f ≡ false
      → fill_lines x vector_size (suc fuel) f ≡ ok f
  unfolding fill_lines
  fill_lines_stop fuel f h = if_true _ _ (ap not h)

  fill_lines_cap :
      (fuel : ℕ) (f : Filling)
      → wants_line x vector_size f ≡ true
      → at_cap x f.scan ≡ true
      → fill_lines x vector_size (suc fuel) f ≡ ok (skip_rest f)
  unfolding fill_lines
  fill_lines_cap fuel f h k = ground arith

  -- One round, which parses a line.
  abbrev pub next_round : List Json → Filling → Filling
  next_round events f =
      let g = add_rows x vector_size events f in
      record g { scan = record g.scan { rest = (next_line f.scan.rest).1 } }

  pub fill_lines_round :
      (fuel : ℕ) (f : Filling) (events : List Json)
      → wants_line x vector_size f ≡ true
      → at_cap x f.scan ≡ false
      → parse_export_line x.platform (next_line f.scan.rest).0 ≡ ok events
      → fill_lines x vector_size (suc fuel) f ≡ fill_lines x vector_size fuel (next_round events f)
  unfolding fill_lines
  fill_lines_round fuel f events h k e =
      if_false _ _ (ap not h)
      ∙ if_false _ _ k
      ∙ ap (λ r. r >>= λ evs. fill_lines x vector_size fuel (next_round evs f)) e

  empty_rest : (rest : Bytes) → is_empty rest ≡ true → rest ≡ []
  empty_rest [] h = refl
  empty_rest (c ∷ rest) h = cc

  pub full_rest : (rest : Bytes) → is_empty rest ≡ false → 0 < length rest
  full_rest [] h = cc
  full_rest (c ∷ rest) h = omega arith

  stop-Leaves :
      (f : Filling) (es : List Json)
      → EventsAre x f.scan es
      → IsOrdered x vector_size f
      → wants_line x vector_size f ≡ false
      → Leaves x vector_size f es f
  unfolding wants_line
  stop-Leaves f es e o h = record {
    later = es;
    rest_events = e;
    keeps = refl;
    ordered = o;
    used_up = λ less. empty_rest f.scan.rest (ground arith);
    stays_fetched = refl;
  }

  cap-Leaves :
      (f : Filling) (es : List Json)
      → IsOrdered x vector_size f
      → at_cap x f.scan ≡ true
      → Leaves x vector_size f es (skip_rest f)
  unfolding at_cap
  cap-Leaves f es o h = record {
    later = [];
    rest_events = events_of_none x;
    keeps =
        ap (λ taken. f.vector ++ (f.scan.buffer ++ map (row_of x) taken))
          (room_nil x false f.scan.produced ∙ sym (room_stop x false f.scan.produced es refl h));
    ordered = o;
    used_up = λ less. refl;
    stays_fetched = refl;
  }

  round-Leaves :
      (f : Filling) (es events later : List Json) (g : Filling)
      → es ≡ events ++ later
      → IsOrdered x vector_size f
      → Leaves x vector_size (next_round events f) later g
      → Leaves x vector_size f es g
  round-Leaves f es events later g e o l =
      let (keeps, ordered, fetched) = add_rows-promised x vector_size events later f o in
      record {
        later = l.later;
        rest_events = l.rest_events;
        keeps = l.keeps ∙ keeps ∙ ap (promised x f) (sym e);
        ordered = l.ordered;
        used_up = l.used_up;
        stays_fetched = l.stays_fetched ∙ fetched;
      }

  pub fill_lines-Leaves :
      (fuel : ℕ) (f : Filling) (es : List Json)
      → length f.scan.rest < fuel
      → EventsAre x f.scan es
      → IsOrdered x vector_size f
      → (g : Filling) × (fill_lines x vector_size fuel f ≡ ok g) × Leaves x vector_size f es g
  fill_lines-Leaves zero f es w e o = absurd (omega arith)
  fill_lines-Leaves (suc fuel) f es w e o = elim (Bool-cases (wants_line x vector_size f)) [
    | inr done ↦ (f, fill_lines_stop fuel f done, stop-Leaves f es e o done)
    | inl more ↦ elim (Bool-cases (at_cap x f.scan)) [
      | inl capped ↦ (skip_rest f, fill_lines_cap fuel f more capped, cap-Leaves f es o capped)
      | inr open_end ↦
          let nonempty = full_rest f.scan.rest (unfold wants_line in ground arith) in
          let (front, shorter) = next_line-IsFront f.scan.rest nonempty in
          let (events, later, p, q, split) =
            events_of-cons x (next_line f.scan.rest).0 _ es (ap (events_of x) (sym front) ∙ e) in
          let (keeps, ordered, fetched) = add_rows-promised x vector_size events later f o in
          let (g, run, leaves) =
            fill_lines-Leaves fuel (next_round events f) later (omega arith) q ordered in
          (
            g,
            fill_lines_round fuel f events more open_end p ∙ run,
            round-Leaves f es events later g split o leaves,
          )
    ]
  ]
