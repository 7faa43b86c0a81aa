-- ===== src/External/Documents.antt =====
-- JSON documents, and yyjson's reader, lookups and writer.
use duckdb_splunk.Prelude.{
  ℕ, Bool, ◌≡◌, Option, none, some, List, [], ◌∷◌, ◌++◌, Bytes, equal, ℤ, if◌then◌else◌,
}

-- A number as yyjson stores it: `uint64_t`, `int64_t`, or the bits of a double.
pub data Number : Type 0 where
  uint : ℕ → Number
  sint : ℤ → Number
  real : ℕ → Number

mutual
  pub data Json : Type 0 where
    null : Json
    bool : Bool → Json
    num : Number → Json
    str : Bytes → Json
    arr : Items → Json
    obj : Fields → Json

  pub data Items : Type 0 where
    nil : Items
    cons : Json → Items → Items

  pub data Fields : Type 0 where
    end : Fields
    field : Bytes → Json → Fields → Fields

abbrev pub Members : Type 0
Members = List (Bytes × Json)

unfoldable pub item_list : Items → List Json
item_list nil = []
item_list (cons j js) = j ∷ item_list js

unfoldable pub field_list : Fields → Members
field_list end = []
field_list (field k j fs) = (k, j) ∷ field_list fs

-- What `yyjson_arr_foreach` visits.
unfoldable pub elements : Json → List Json
unfolding item_list
elements (arr js) = item_list js
elements _ = []

-- What `yyjson_obj_foreach` visits, in document order.
unfoldable pub members : Json → Members
unfolding field_list
members (obj fs) = field_list fs
members _ = []

-- The first value under a key.
unfoldable pub assoc : Bytes → Members → Option Json
assoc k [] = none
assoc k ((j, v) ∷ ms) = if equal j k then some v else assoc k ms

pub record Yyjson : Type 0 where
  -- `yyjson_read(text, length, 0)` and the root of its document.
  pub read : Bytes → Option Json
  -- `yyjson_obj_get`.
  pub obj_get : Json → Bytes → Option Json
  -- `yyjson_mut_obj_get` and `yyjson_mut_obj_add` on an object under construction.
  pub mut_obj_get : Members → Bytes → Option Json
  pub mut_obj_add : Members → Bytes → Json → Members
  -- `yyjson_mut_write(doc, 0, nullptr)`; `none` is the null pointer.
  pub mut_write : Members → Option Bytes

pub record YyjsonLaws (y : Yyjson) : Type 0 where
  -- A lookup finds the first member with the key, and nothing in what is no object.
  pub obj_get_assoc : (j : Json) (k : Bytes) → y.obj_get j k ≡ assoc k (members j)
  pub mut_obj_get_assoc : (ms : Members) (k : Bytes) → y.mut_obj_get ms k ≡ assoc k ms
  pub mut_obj_add_append :
      (ms : Members) (k : Bytes) (v : Json) → y.mut_obj_add ms k v ≡ ms ++ (k, v) ∷ []
