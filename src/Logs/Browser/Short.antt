-- ===== src/Logs/Browser/Short.antt =====
-- The loop over lines, up to a line that reports a failed search.
use duckdb_splunk.Prelude.{
  ℕ, zero, suc, ◌+◌, ◌≤◌, ◌<◌, ◌≡◌, refl, ap, ◌∙◌, sym, ◌⊎◌, inl, inr, true, false, not, List, [],
  ◌∷◌, ◌++◌, Bytes, length, length-append, is_empty, arith, Bool-cases, if_false, subst,
}
use duckdb_splunk.External.{Json}
use duckdb_splunk.Errors.{Exception, Result, ok, throw, ◌>>=◌}
use duckdb_splunk.Logs.Export.{parse_export_line}
use duckdb_splunk.Logs.Stream.{Export}
use duckdb_splunk.Logs.Stream.Room.{events_of, events_of-cons}
use duckdb_splunk.Logs.Stream.Lines.{lines_from}
use duckdb_splunk.Logs.Stream.Whole.{lines_from_end}
use duckdb_splunk.Logs.Stream.Fails.{BreaksAt, HasRoomFor}
use duckdb_splunk.Logs.Browser.{BrowserScan, Filling, next_line, at_cap, wants_line, fill_lines}
use duckdb_splunk.Logs.Browser.Lines.{next_line-IsFront}
use duckdb_splunk.Logs.Browser.Filled.{fill_lines_stop, fill_lines_round, next_round, full_rest}
use duckdb_splunk.Logs.Browser.Takes.{held, open_below, add_rows-Takes}

module _ (x : Export) (vector_size : ℕ) where
  -- A state whose response still has the failing line, behind lines with the events `es`, and
  -- whose cap is not reached in front of it.
  pub record IsBreaking (e : Exception) (s : BrowserScan) (es : List Json) : Type 0 where
    pub broken : BreaksAt x (lines_from [] s.rest) es e
    pub space : HasRoomFor x s.produced (suc (length es))

  -- How a call ends: with the exception, or with a full vector in front of the failing line.
  pub record IsShort (e : Exception) (f : Filling) (es : List Json) (g : Filling) : Type 0 where
    pub later : List Json
    pub breaking : IsBreaking e g.scan later
    pub full : vector_size ≤ length g.vector
    pub kept : held x vector_size g + length later ≡ held x vector_size f + length es
    pub same_fetched : g.scan.fetched ≡ f.scan.fetched

  abbrev pub EndsShort : Exception → Filling → List Json → Result Filling → Type 0
  EndsShort e f es (throw e') = e' ≡ e
  EndsShort e f es (ok g) = IsShort e f es g

  not_empty :
      (rest : Bytes) (es : List Json) (e : Exception)
      → BreaksAt x (lines_from [] rest) es e
      → is_empty rest ≡ false
  not_empty [] es e b = absurd (no_line b.before (sym b.split ∙ lines_from_end []))
    where
      no_line : (before : List Bytes) → before ++ b.line ∷ b.after ≡ [] → ⊥
      no_line [] h = cc
      no_line (l ∷ ls) h = cc
  not_empty (c ∷ rest) es e b = refl

  stop-IsShort :
      (e : Exception) (f : Filling) (es : List Json)
      → IsBreaking e f.scan es
      → wants_line x vector_size f ≡ false
      → IsShort e f es f
  unfolding wants_line
  stop-IsShort e f es b h =
      let more = not_empty f.scan.rest es e b.broken in
      record { later = es; breaking = b; full = ground arith; kept = refl; same_fetched = refl }

  fill_lines_throws :
      (fuel : ℕ) (f : Filling) (e : Exception)
      → wants_line x vector_size f ≡ true
      → at_cap x f.scan ≡ false
      → parse_export_line x.platform (next_line f.scan.rest).0 ≡ throw e
      → fill_lines x vector_size (suc fuel) f ≡ throw e
  unfolding fill_lines
  fill_lines_throws fuel f e h k t =
      if_false _ _ (ap not h)
      ∙ if_false _ _ k
      ∙ ap (λ r. r >>= λ evs. fill_lines x vector_size fuel (next_round x vector_size evs f)) t

  -- The front line: it is the failing one, or parses and is followed by it.
  record IsNext (e : Exception) (line : Bytes) (lines : List Bytes) (es : List Json) : Type 0 where
    pub events : List Json
    pub later : List Json
    pub parsed : parse_export_line x.platform line ≡ ok events
    pub split : es ≡ events ++ later
    pub broken : BreaksAt x lines later e

  front_line :
      (e : Exception) (line : Bytes) (lines : List Bytes) (es : List Json)
      → BreaksAt x (line ∷ lines) es e
      → (parse_export_line x.platform line ≡ throw e) ⊎ IsNext e line lines es
  front_line e line lines es b = cases b.before b.split b.parsed
    where
      cases :
          (before : List Bytes)
          → line ∷ lines ≡ before ++ b.line ∷ b.after
          → events_of x before ≡ ok es
          → (parse_export_line x.platform line ≡ throw e) ⊎ IsNext e line lines es
      cases [] h p =
          let same : line ≡ b.line = cc in inl (ap (parse_export_line x.platform) same ∙ b.throws)
      cases (l ∷ before) h p =
          let (events, later, q, r, split) = events_of-cons x l before es p in
          let same : line ≡ l = cc in
          inr (record {
            events = events;
            later = later;
            parsed = ap (parse_export_line x.platform) same ∙ q;
            split = split;
            broken = record {
              before = before;
              line = b.line;
              after = b.after;
              split = (let rest : lines ≡ before ++ b.line ∷ b.after = cc in rest);
              parsed = r;
              throws = b.throws;
            };
          })

  -- One round, and what it leaves to the next.
  record IsRound (e : Exception) (f : Filling) (es : List Json) (g : Filling) : Type 0 where
    pub later : List Json
    pub breaking : IsBreaking e g.scan later
    pub shorter : length g.scan.rest < length f.scan.rest
    pub kept : held x vector_size g + length later ≡ held x vector_size f + length es
    pub same_fetched : g.scan.fetched ≡ f.scan.fetched

  next_round-IsRound :
      (e : Exception) (f : Filling) (es : List Json)
      → HasRoomFor x f.scan.produced (suc (length es))
      → length (next_line f.scan.rest).1 < length f.scan.rest
      → (n : IsNext e (next_line f.scan.rest).0 (lines_from [] (next_line f.scan.rest).1) es)
      → IsRound e f es (next_round x vector_size n.events f)
  next_round-IsRound e f es h s n =
      let counts : length es ≡ length n.events + length n.later =
        ap length n.split ∙ length-append n.events n.later in
      let takes =
        add_rows-Takes x vector_size n.events (length n.later) f
          (subst (λ k. HasRoomFor x f.scan.produced (suc k)) counts h) in
      record {
        later = n.later;
        breaking = record {
          broken = n.broken;
          space = fewer _ (length n.events) (length n.later) _ h counts takes.counted;
        };
        shorter = s;
        kept = omega (arith, takes.kept);
        same_fetched = takes.same_fetched;
      }
    where
      fewer :
          (all first later produced : ℕ)
          → HasRoomFor x f.scan.produced (suc all)
          → all ≡ first + later
          → produced ≡ f.scan.produced + first
          → HasRoomFor x produced (suc later)
      fewer all first later produced (inl no_cap) c d = inl no_cap
      fewer all first later produced (inr below) c d = inr (omega arith)

  EndsShort-round :
      (e : Exception) (f : Filling) (es : List Json) (g : Filling) (r : Result Filling)
      (round : IsRound e f es g)
      → EndsShort e g round.later r
      → EndsShort e f es r
  EndsShort-round e f es g (throw e') round h = h
  EndsShort-round e f es g (ok last) round h = record {
    later = h.later;
    breaking = h.breaking;
    full = h.full;
    kept = h.kept ∙ round.kept;
    same_fetched = h.same_fetched ∙ round.same_fetched;
  }

  pub fill_lines-EndsShort :
      (fuel : ℕ) (e : Exception) (f : Filling) (es : List Json)
      → length f.scan.rest < fuel
      → IsBreaking e f.scan es
      → EndsShort e f es (fill_lines x vector_size fuel f)
  fill_lines-EndsShort zero e f es w b = absurd (omega arith)
  fill_lines-EndsShort (suc fuel) e f es w b = elim (Bool-cases (wants_line x vector_size f)) [
    | inr done ↦
        subst (EndsShort e f es) (sym (fill_lines_stop x vector_size fuel f done))
          (stop-IsShort e f es b done)
    | inl more ↦
        let open_end = open_below x vector_size (length es) f.scan b.space in
        let (front, shorter) =
          next_line-IsFront f.scan.rest
            (full_rest x vector_size f.scan.rest (not_empty f.scan.rest es e b.broken)) in
        elim (front_line e _ _ es (subst (λ lines. BreaksAt x lines es e) front b.broken)) [
          | inl throws ↦
              subst (EndsShort e f es) (sym (fill_lines_throws fuel f e more open_end throws)) refl
          | inr n ↦
              let round = next_round-IsRound e f es b.space shorter n in
              subst (EndsShort e f es)
                (sym (fill_lines_round x vector_size fuel f n.events more open_end n.parsed))
                (EndsShort-round e f es (next_round x vector_size n.events f) _ round (
                  fill_lines-EndsShort fuel e (next_round x vector_size n.events f) round.later
                    (let less = round.shorter in omega arith) round.breaking))
        ]
  ]
