-- ===== src/Logs/Stream/Room.antt =====
-- The events of a response, and those that the cap leaves to take.
use duckdb_splunk.Prelude.{
  ℕ, suc, ◌+◌, ◌-◌, ◌<◌, ◌≡◌, refl, ap, ◌∙◌, sym, inl, inr, Bool, true, false, List, [], ◌∷◌, ◌++◌,
  Bytes, take, ltb, leb, if◌then◌else◌, arith, Bool-cases, if_true, if_false, ◌&&◌, &&_split,
  take-nil,
}
use duckdb_splunk.External.{Json}
use duckdb_splunk.Errors.{Result, ok, ◌>>=◌, >>=-eq-ok}
use duckdb_splunk.Logs.Row.{Value, map_event}
use duckdb_splunk.Logs.Export.{parse_export_line}
use duckdb_splunk.Logs.Stream.{Export}

module _ (x : Export) where
  -- All events of the lines; it throws if one of the lines does.
  unfoldable pub events_of : List Bytes → Result (List Json)
  events_of [] = ok []
  events_of (line ∷ lines) = parse_export_line x.platform line >>= λ events.
      events_of lines >>= λ later. ok (events ++ later)

  -- The first `cap` events; 0 is no cap.
  abbrev pub capped {ℓ} : {A : Type ℓ} → List A → List A
  capped events = if ltb 0 x.cap then take x.cap events else events

  abbrev pub row_of : Json → List Value
  row_of e = map_event x.platform e x.column_ids

  -- What is still taken of the events to come.
  abbrev pub room : Bool → ℕ → List Json → List Json
  room full produced es =
      if full then [] else if ltb 0 x.cap then take (x.cap - produced) es else es

  pub room_stop :
      (full : Bool) (produced : ℕ) (es : List Json)
      → full ≡ false
      → ltb 0 x.cap && leb x.cap produced ≡ true
      → room full produced es ≡ []
  room_stop full produced es h k =
      if_false _ _ h
      ∙ if_true _ _ (&&_split (ltb 0 x.cap) (leb x.cap produced) k).0
      ∙ ap (λ n. take n es) (let gone : x.cap - produced ≡ 0 = ground arith in gone)

  take_below :
      (cap produced : ℕ) (e : Json) (es : List Json)
      → produced < cap
      → take (cap - produced) (e ∷ es) ≡ e ∷ take (cap - (produced + 1)) es
  take_below cap produced e es h =
      ap (λ n. take n (e ∷ es))
        (let step : cap - produced ≡ suc (cap - (produced + 1)) = omega arith in step)

  pub room_push :
      (full : Bool) (produced : ℕ) (e : Json) (es : List Json)
      → full ≡ false
      → ltb 0 x.cap && leb x.cap produced ≡ false
      → room full produced (e ∷ es) ≡ e ∷ room full (produced + 1) es
  room_push full produced e es h k = elim (Bool-cases (ltb 0 x.cap)) [
    | inl some_cap ↦
        if_false _ _ h
        ∙ if_true _ _ some_cap
        ∙ take_below x.cap produced e es (ground arith)
        ∙ ap (◌∷◌ e) (sym (if_false _ _ h ∙ if_true _ _ some_cap))
    | inr no_cap ↦
        if_false _ _ h
        ∙ if_false _ _ no_cap
        ∙ ap (◌∷◌ e) (sym (if_false _ _ h ∙ if_false _ _ no_cap))
  ]

  pub room_nil : (full : Bool) (produced : ℕ) → room full produced [] ≡ []
  room_nil true produced = refl
  room_nil false produced = elim (Bool-cases (ltb 0 x.cap)) [
    | inl some_cap ↦ if_true _ _ some_cap ∙ take-nil (x.cap - produced)
    | inr no_cap ↦ if_false _ _ no_cap
  ]

  pub room_idle : (es : List Json) → room false 0 es ≡ capped es
  room_idle es = elim (Bool-cases (ltb 0 x.cap)) [
    | inl some_cap ↦
        if_true _ _ some_cap
        ∙ ap (λ n. take n es) (let same : x.cap - 0 ≡ x.cap = omega arith in same)
        ∙ sym (if_true _ _ some_cap)
    | inr no_cap ↦ if_false _ _ no_cap ∙ sym (if_false _ _ no_cap)
  ]

  pub events_of-cons :
      (line : Bytes) (lines : List Bytes) (es : List Json)
      → events_of (line ∷ lines) ≡ ok es
      → (events : List Json) × (later : List Json) × (parse_export_line x.platform line ≡ ok events)
        × (events_of lines ≡ ok later)
        × (es ≡ events ++ later)
  unfolding events_of
  events_of-cons line lines es h =
      let (events, p, h') = >>=-eq-ok (parse_export_line x.platform line) _ h in
      let (later, q, e) = >>=-eq-ok (events_of lines) _ h' in (events, later, p, q, cc)

  pub events_of-nil : (es : List Json) → events_of [] ≡ ok es → es ≡ []
  unfolding events_of
  events_of-nil es h = cc
