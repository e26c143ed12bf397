-- ===== src/Projections/Lifecycle/Pick.antt =====
-- `_pick` of lifecycle_projection.py
use event_saver.Prelude.{
  ◌≡◌, refl, ◌∙◌, coalesce, Bool-cases, inl, inr, String, Bool, true, false, Option, none, some,
  List, [], ◌∷◌, any, arith, eq_iff, ◌==◌, if◌then◌else◌,
}
use event_saver.Py.Value.{Value, Fields, end, field, null, find_field}

-- a key's entry unless it is missing or None
abbrev pub present : Option Value → Option Value
present none = none
present (some null) = none
present (some v) = some v

abbrev pub add_present : String → Option Value → Fields → Fields
add_present k none rest = rest
add_present k (some v) rest = field k v rest

-- `{k: source[k] for k in keys if k in source and source[k] is not None}`
unfoldable pub pick_fields : Fields → List String → Fields
pick_fields source [] = end
pick_fields source (k ∷ keys) =
    add_present k (present (find_field k source)) (pick_fields source keys)

-- `result or None`
abbrev pub or_none : Fields → Option Fields
or_none end = none
or_none fs = some fs

unfoldable pub pick : Fields → List String → Option Fields
unfolding pick_fields
pick source keys = or_none (pick_fields source keys)

abbrev pub fields_or_end : Option Fields → Fields
fields_or_end none = end
fields_or_end (some fs) = fs

find_field-add_present :
    (j k : String) (v : Option Value) (rest : Fields)
    → find_field j (add_present k (present v) rest)
      ≡ (if k == j then coalesce (present v) (find_field j rest) else find_field j rest)
find_field-add_present j k none rest = ground arith
find_field-add_present j k (some null) rest = ground arith
find_field-add_present j k (some _) rest = ground arith

find_field-pick_fields :
    (source : Fields) (keys : List String) (j : String)
    → find_field j (pick_fields source keys)
      ≡ (if any (λ k. k == j) keys then present (find_field j source) else none)
unfolding pick_fields
find_field-pick_fields source [] j = refl
find_field-pick_fields source (k ∷ keys) j =
    find_field-add_present j k (find_field k source) (pick_fields source keys)
    ∙ elim (Bool-cases (k == j)) [
      | inl same ↦
          let e = (eq_iff k j).0 same in
          rw same (rw (find_field-pick_fields source keys j, e) (twice (any (λ i. i == j) keys) _))
      | inr other ↦ rw other (find_field-pick_fields source keys j)
    ]
  where
    twice : (b : Bool) (v : Option Value) → coalesce v (if b then v else none) ≡ v
    twice true none = refl
    twice true (some v) = refl
    twice false none = refl
    twice false (some v) = refl

fields_or_end-or_none : (fs : Fields) → fields_or_end (or_none fs) ≡ fs
fields_or_end-or_none end = refl
fields_or_end-or_none (field k v fs) = refl

-- The picked dict has, under each wanted key, the source's entry unless that is missing or None,
-- and nothing under any other key.
pub find_field-pick :
    (source : Fields) (keys : List String) (j : String)
    → find_field j (fields_or_end (pick source keys))
      ≡ (if any (λ k. k == j) keys then present (find_field j source) else none)
unfolding pick
find_field-pick source keys j =
    rw (fields_or_end-or_none (pick_fields source keys)) (find_field-pick_fields source keys j)
