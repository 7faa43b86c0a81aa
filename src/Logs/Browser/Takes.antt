-- ===== src/Logs/Browser/Takes.antt =====
-- The events that one call of the browser scan takes, each in a row.
use duckdb_splunk.Prelude.{
  ℕ, suc, ◌+◌, ◌≡◌, refl, ◌∙◌, sym, inl, inr, false, List, [], ◌∷◌, length, length-append, ltb,
  arith, Bool-cases, subst,
}
use duckdb_splunk.External.{Json}
use duckdb_splunk.Logs.Stream.{Export}
use duckdb_splunk.Logs.Stream.Fails.{HasRoomFor, HasRoomFor-open}
use duckdb_splunk.Logs.Browser.{BrowserScan, Filling, at_cap, add_row, add_rows}
use duckdb_splunk.Logs.Browser.Scans.{add_row_room, add_row_full}

module _ (x : Export) (vector_size : ℕ) where
  -- The rows of a call and of the scan behind it.
  abbrev pub held : Filling → ℕ
  held f = length f.vector + length f.scan.buffer

  -- So many events are taken, each in a row.
  pub record Takes (n : ℕ) (f g : Filling) : Type 0 where
    pub counted : g.scan.produced ≡ f.scan.produced + n
    pub kept : held g ≡ held f + n
    pub same_fetched : g.scan.fetched ≡ f.scan.fetched

  pub open_below :
      (more : ℕ) (s : BrowserScan) → HasRoomFor x s.produced (suc more) → at_cap x s ≡ false
  unfolding at_cap
  open_below more s h = HasRoomFor-open x s.produced more h

  add_row-Takes :
      (e : Json) (f : Filling) → at_cap x f.scan ≡ false → Takes 1 f (add_row x vector_size e f)
  add_row-Takes e f h = elim (Bool-cases (ltb (length f.vector) vector_size)) [
    | inl fits ↦ subst (Takes 1 f) (sym (add_row_room x vector_size e f h (ground arith))) (record {
      counted = refl;
      kept = omega (arith, length-append f.vector);
      same_fetched = refl;
    })
    | inr full ↦ subst (Takes 1 f) (sym (add_row_full x vector_size e f h (ground arith))) (record {
      counted = refl;
      kept = omega (arith, length-append f.scan.buffer);
      same_fetched = refl;
    })
  ]

  Takes-trans : (m n : ℕ) (f g h : Filling) → Takes m f g → Takes n g h → Takes (m + n) f h
  Takes-trans m n f g h a b = record {
    counted = omega (arith, a.counted, b.counted);
    kept = omega (arith, a.kept, b.kept);
    same_fetched = b.same_fetched ∙ a.same_fetched;
  }

  -- Events that leave room for `more` further ones, and for one behind them.
  pub add_rows-Takes :
      (events : List Json) (more : ℕ) (f : Filling)
      → HasRoomFor x f.scan.produced (suc (length events + more))
      → Takes (length events) f (add_rows x vector_size events f)
  unfolding add_rows
  add_rows-Takes [] more f h = record {
    counted = omega arith;
    kept = omega arith;
    same_fetched = refl;
  }
  add_rows-Takes (event ∷ events) more f h =
      let first = add_row-Takes event f (open_below (length (event ∷ events) + more) f.scan h) in
      subst (λ n. Takes n f (add_rows x vector_size events (add_row x vector_size event f)))
        (let one : 1 + length events ≡ length (event ∷ events) = omega arith in one)
        (Takes-trans 1 (length events) f (add_row x vector_size event f) _ first
          (add_rows-Takes events more (add_row x vector_size event f) (fewer h first.counted)))
    where
      fewer :
          {n : ℕ}
          → HasRoomFor x f.scan.produced (suc (length (event ∷ events) + more))
          → n ≡ f.scan.produced + 1
          → HasRoomFor x n (suc (length events + more))
      fewer (inl no_cap) e = inl no_cap
      fewer (inr below) e = inr (omega arith)
