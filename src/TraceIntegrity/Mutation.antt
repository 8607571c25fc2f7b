-- ===== src/TraceIntegrity/Mutation.antt =====
-- `apply_mutation` of src/agent_reliability_lab/trace_integrity.py. The source changes a deep copy of
-- the trace in place, which here is a new document with one child replaced or removed.
use coding_agent_reliability.Base.{
  ℕ, suc, ◌-◌, Option, none, some, List, [], ◌∷◌, String, string_eq, ◌==◌, ltb, if◌then◌else◌, ℤ,
  pos, negsuc, Result, ok, err, Error, codes, zero,
}
use coding_agent_reliability.Base.Document.{
  Json, text, array, object, Items, nil, cons, Fields, end, field, get, find, has_key, json_eq,
  count_items,
}
use coding_agent_reliability.Base.Errors.{◌>>=◌ as bind, map_ok}
use coding_agent_reliability.Base.Numeral.{int_of_text}
use coding_agent_reliability.TraceIntegrity.Pointer.{pointer_tokens}

-- The place of a Python index in a list of a length: a negative one counts from the end.
abbrev pub place_of : ℤ → ℕ → Result ℕ
place_of (pos n) size = if ltb n size then ok n else err Error.index_error
place_of (negsuc n) size = if ltb n size then ok (size - suc n) else err Error.index_error

abbrev pub place_of_number : Option ℤ → ℕ → Result ℕ
place_of_number none size = err Error.value_error
place_of_number (some n) size = place_of n size

-- `values[int(token)]`, as the place of the value.
unfoldable pub list_place : String → Items → Result ℕ
unfolding int_of_text codes count_items
list_place token vs = place_of_number (int_of_text 10 (codes token)) (count_items vs)

-- A change of the value at a place.
unfoldable pub inside_item : ℕ → (Json → Result Json) → Items → Result Items
inside_item n change nil = err Error.index_error
inside_item zero change (cons v vs) = map_ok (λ w. cons w vs) (change v)
inside_item (suc n) change (cons v vs) = map_ok (cons v) (inside_item n change vs)

-- A change of the value under a key.
unfoldable pub inside_field : String → (Json → Result Json) → Fields → Result Fields
inside_field key change end = err Error.key_error
inside_field key change (field k v fs) =
    let here = map_ok (λ w. field k w fs) (change v) in
    let there = map_ok (field k v) (inside_field key change fs) in if k == key then here else there

-- `del values[n]`
unfoldable pub remove_item : ℕ → Items → Items
remove_item n nil = nil
remove_item zero (cons v vs) = vs
remove_item (suc n) (cons v vs) = cons v (remove_item n vs)

-- `del fields[key]`
unfoldable pub remove_field : String → Fields → Fields
remove_field key end = end
remove_field key (field k v fs) =
    let rest = remove_field key fs in if k == key then rest else field k v rest

pub data Edit : Type 0 where
  replace_with : Json → Edit
  remove : Edit

abbrev pub value_edit : Option Json → Result Edit
value_edit none = err Error.value_error
value_edit (some v) = ok (replace_with v)

-- What a mutation does at its target.
unfoldable pub edit_of : Fields → Result Edit
edit_of mutation =
    if json_eq (get "operator" mutation) (text "replace")
    then value_edit (find "value" mutation)
    else if json_eq (get "operator" mutation) (text "remove")
    then ok remove
    else err Error.value_error

unfoldable pub edit_items : Edit → String → Items → Result Items
unfolding list_place inside_item remove_item
edit_items (replace_with w) token vs = bind (list_place token vs) λ n. inside_item n (λ _. ok w) vs
edit_items remove token vs = bind (list_place token vs) λ n. ok (remove_item n vs)

unfoldable pub edit_fields : Edit → String → Fields → Result Fields
unfolding inside_field remove_field has_key
edit_fields (replace_with w) key fs = inside_field key (λ _. ok w) fs
edit_fields remove key fs = if has_key key fs then ok (remove_field key fs) else err Error.key_error

-- The change of the parent of the target.
unfoldable pub edit_parent : Edit → String → Json → Result Json
unfolding edit_items edit_fields
edit_parent edit token (array vs) = map_ok array (edit_items edit token vs)
edit_parent edit token (object fs) = map_ok object (edit_fields edit token fs)
edit_parent edit token _ = err Error.value_error

-- One step of the loop of `_pointer_parent`.
unfoldable pub inside : String → (Json → Result Json) → Json → Result Json
unfolding list_place inside_item inside_field
inside token change (array vs) =
    map_ok array (bind (list_place token vs) λ n. inside_item n change vs)
inside token change (object fs) = map_ok object (inside_field token change fs)
inside token change _ = err Error.type_error

-- The walk to the parent, and the edit there; the operator is read after the walk.
unfoldable pub edit_at : Result Edit → String → List String → Json → Result Json
unfolding edit_parent inside
edit_at edit token [] v = bind edit λ e. edit_parent e token v
edit_at edit token (next ∷ tokens) v = inside token (edit_at edit next tokens) v

abbrev pub edit_document : Result Edit → List String → Json → Result Json
edit_document edit [] v = err Error.value_error
edit_document edit (token ∷ tokens) v = edit_at edit token tokens v

-- The path of a mutation.
abbrev pub path_of : Json → Result String
path_of (text path) = ok path
path_of _ = err Error.type_error

-- The document stays an object.
abbrev pub fields_of : Json → Result Fields
fields_of (object fs) = ok fs
fields_of _ = err Error.type_error

-- The mutated trace.
unfoldable pub apply_mutation : Fields → Fields → Result Fields
unfolding pointer_tokens edit_at edit_of
apply_mutation trace mutation = bind (path_of (get "path" mutation)) λ path.
    bind (pointer_tokens path)
      λ tokens. bind (edit_document (edit_of mutation) tokens (object trace)) fields_of
