-- ===== src/Logs/Export/Events.antt =====
-- Which events a record of the export stream holds.
use duckdb_splunk.Prelude.{
  Bool, true, false, Option, none, some, List, [], ◌∷◌, codes, All, if◌then◌else◌,
}
use duckdb_splunk.External.{Json, arr, obj, Fields, elements, Yyjson}
use duckdb_splunk.Logs.Export.{
  is_true, objects_of, flat_events, listed_events, result_events, extract_events,
}

pub data IsObject : Json → Type 0 where
  object : (fs : Fields) → IsObject (obj fs)

objects_of-IsObject : (items : List Json) → All IsObject (objects_of items)
unfolding objects_of
objects_of-IsObject [] = tt
objects_of-IsObject (obj fs ∷ items) = (object fs, objects_of-IsObject items)
objects_of-IsObject (_ ∷ items) = objects_of-IsObject items

All-if :
    (b : Bool) (xs ys : List Json)
    → All IsObject xs
    → All IsObject ys
    → All IsObject (if b then xs else ys)
All-if true xs ys h k = h
All-if false xs ys h k = k

module _ (y : Yyjson) where
  flat_events-IsObject : (fs : Fields) → All IsObject (flat_events y (obj fs))
  unfolding flat_events
  flat_events-IsObject fs = All-if _ (obj fs ∷ []) [] (object fs, tt) tt

  listed_events-IsObject :
      (results : Option Json) (fs : Fields) → All IsObject (listed_events y results (obj fs))
  unfolding listed_events
  listed_events-IsObject (some (arr js)) fs = objects_of-IsObject (elements (arr js))
  listed_events-IsObject none fs = flat_events-IsObject fs
  listed_events-IsObject (some _) fs = flat_events-IsObject fs

  result_events-IsObject :
      (result : Option Json) (fs : Fields) → All IsObject (result_events y result (obj fs))
  unfolding result_events
  result_events-IsObject (some (obj gs)) fs = (object gs, tt)
  result_events-IsObject none fs = listed_events-IsObject (y.obj_get (obj fs) (codes "results")) fs
  result_events-IsObject (some _) fs =
      listed_events-IsObject (y.obj_get (obj fs) (codes "results")) fs

  -- Every event that is taken from a record is a JSON object.
  extract_events-IsObject : (root : Json) → All IsObject (extract_events y root)
  unfolding extract_events
  extract_events-IsObject (obj fs) =
      All-if (is_true (y.obj_get (obj fs) (codes "preview"))) [] _ tt
        (result_events-IsObject (y.obj_get (obj fs) (codes "result")) fs)
  extract_events-IsObject _ = tt
