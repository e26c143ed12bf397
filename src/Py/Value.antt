-- ===== src/Py/Value.antt =====
-- Values of payloads: what `json` decodes, and the two library types that the code asks for by
-- `isinstance`. A number is a fixed-point decimal's digits with its sign; only zero matters.
use event_saver.Prelude.{
  ℕ, zero, suc, String, Bool, true, false, not, Option, none, some, ◌==◌, if◌then◌else◌,
}
use event_saver.Py.Exception.{Result, ok, raise, attribute_error}
use event_saver.Py.Datetime.{Datetime}

mutual
  pub data Value : Type 0 where
    null : Value
    bool : Bool → Value
    num : Bool → ℕ → Value
    str : String → Value
    list : Items → Value
    dict : Fields → Value
    datetime : Datetime → Value
    uuid : ℕ → Value

  pub data Items : Type 0 where
    nil : Items
    cons : Value → Items → Items

  pub data Fields : Type 0 where
    end : Fields
    field : String → Value → Fields → Fields

-- `bool(v)`
abbrev pub truthy : Value → Bool
truthy null = false
truthy (bool b) = b
truthy (num _ zero) = false
truthy (num _ (suc _)) = true
truthy (str s) = not (s == "")
truthy (list nil) = false
truthy (list (cons _ _)) = true
truthy (dict end) = false
truthy (dict (field _ _ _)) = true
truthy (datetime _) = true
truthy (uuid _) = true

-- `v or {}`
abbrev pub or_empty : Value → Value
or_empty v = if truthy v then v else dict end

-- `d.get(key)` on the entries of a dict; `none` where the key is missing
abbrev pub find_field : String → Fields → Option Value
find_field k end = none
find_field k (field j v fs) = if j == k then some v else find_field k fs

abbrev pub or_else : Option Value → Value → Value
or_else (some v) _ = v
or_else none d = d

-- `d.get(key)` where `d` is known to be a dict
abbrev pub field_or_null : String → Fields → Value
field_or_null k fs = or_else (find_field k fs) null

-- `d.get(key, default)`; anything but a dict has no attribute `get`
abbrev pub get_or : Value → String → Value → Result Value
get_or (dict fs) k d = ok (or_else (find_field k fs) d)
get_or _ _ _ = raise attribute_error

-- `d.get(key)`
abbrev pub get : Value → String → Result Value
get v k = get_or v k null

-- `isinstance(v, str)` with the text
abbrev pub as_str : Value → Option String
as_str (str s) = some s
as_str _ = none

-- `isinstance(v, dict)` with the entries
abbrev pub as_dict : Value → Option Fields
as_dict (dict fs) = some fs
as_dict _ = none

-- `isinstance(v, list)` with the entries
abbrev pub as_list : Value → Option Items
as_list (list xs) = some xs
as_list _ = none

-- `v == text`
abbrev pub is_text : Value → String → Bool
is_text (str s) t = s == t
is_text _ _ = false

-- `payload.get("original", payload)`
abbrev pub original_or_self : Value → Result Value
original_or_self payload = get_or payload "original" payload
