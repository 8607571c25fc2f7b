-- ===== src/TraceIntegrity/Readback.antt =====
-- What is read from a mutated trace.
use coding_agent_reliability.Base.{
  ℕ, suc, zero, ◌≡◌, refl, ◌∙◌, ap, Option, none, some, List, [], ◌∷◌, String, string_eq,
  String-discrete, ◌==◌, Result, ok, err, Bool-cases, inl, inr,
}
use coding_agent_reliability.Base.Document.{
  Json, null, bool, int, text, array, object, Items, nil, cons, Fields, end, field, get, find,
  json_eq, count_items,
}
use coding_agent_reliability.Base.Errors.{map_ok, >>=-eq-ok}
use coding_agent_reliability.TraceIntegrity.Pointer.{pointer_tokens}
use coding_agent_reliability.TraceIntegrity.Mutation.{
  list_place, inside_item, inside_field, Edit, replace_with, edit_of, edit_parent, inside, edit_at,
  edit_document, fields_of, apply_mutation,
}

item_at : ℕ → Items → Option Json
item_at n nil = none
item_at zero (cons v vs) = some v
item_at (suc n) (cons v vs) = item_at n vs

item_of : Result ℕ → Items → Option Json
item_of (err e) vs = none
item_of (ok n) vs = item_at n vs

-- The child that a token names.
unfoldable pub child : String → Json → Option Json
unfolding item_at item_of find
child token (array vs) = item_of (list_place token vs) vs
child token (object fs) = find token fs
child token _ = none

-- The value that a list of tokens names.
unfoldable pub read_at : List String → Json → Option Json
read_at [] v = some v
read_at (token ∷ tokens) v =
    let deeper : Json → Option Json = read_at tokens in
    elim (child token v) [ none ↦ none | some w ↦ deeper w ]

pub map_ok-eq-ok {ℓ κ} :
    {V : Type ℓ} {W : Type κ} (f : V → W) (r : Result V) {w : W}
    → map_ok f r ≡ ok w
    → (v : V) × (r ≡ ok v) × (w ≡ f v)
map_ok-eq-ok f (err e) h = cc
map_ok-eq-ok f (ok v) h = (v, refl, cc)

-- A change inside a list: the values at its place before and after, and the length.
inside_item_lem :
    (n : ℕ) (change : Json → Result Json) (vs ws : Items)
    → inside_item n change vs ≡ ok ws
    → (v : Json) × (w : Json) × (item_at n vs ≡ some v)
      × (change v ≡ ok w)
      × (item_at n ws ≡ some w)
      × (count_items ws ≡ count_items vs)
unfolding inside_item item_at count_items
inside_item_lem n change nil ws h = cc
inside_item_lem zero change (cons v vs) ws h =
    let (w, changed, e) = map_ok-eq-ok (λ w. cons w vs) (change v) h in
    (v, w, refl, changed, rw e refl, rw e refl)
inside_item_lem (suc n) change (cons x vs) ws h =
    let (us, inner, e) = map_ok-eq-ok (cons x) (inside_item n change vs) h in
    let (v, w, old, changed, new, size) = inside_item_lem n change vs us inner in
    (v, w, old, changed, rw e new, rw e (ap suc size))

inside_field_lem :
    (key : String) (change : Json → Result Json) (fs gs : Fields)
    → inside_field key change fs ≡ ok gs
    → (v : Json) × (w : Json) × (find key fs ≡ some v) × (change v ≡ ok w) × (find key gs ≡ some w)
unfolding inside_field find
inside_field_lem key change end gs h = cc
inside_field_lem key change (field k x fs) gs h = elim (Bool-cases (k == key)) [
  | inl found ↦
      let (w, changed, e) = map_ok-eq-ok (λ w. field k w fs) (change x) (rw found at h) in
      (x, w, rw found refl, changed, rw e (rw found refl))
  | inr other ↦
      let (hs, inner, e) = map_ok-eq-ok (field k x) (inside_field key change fs) (rw other at h) in
      let (v, w, old, changed, new) = inside_field_lem key change fs hs inner in
      (v, w, rw other old, changed, rw e (rw other new))
]

list_place_same :
    (token : String) (vs ws : Items)
    → count_items ws ≡ count_items vs
    → list_place token ws ≡ list_place token vs
unfolding list_place
list_place_same token vs ws h = rw h refl

-- A change inside a list at the place that a token names.
inside_items_lem :
    (token : String) (change : Json → Result Json) (vs ws : Items) (n : ℕ)
    → list_place token vs ≡ ok n
    → inside_item n change vs ≡ ok ws
    → (v : Json) × (w : Json) × (child token (array vs) ≡ some v)
      × (change v ≡ ok w)
      × (child token (array ws) ≡ some w)
unfolding child
inside_items_lem token change vs ws n placed h =
    let (v, w, old, changed, new, size) = inside_item_lem n change vs ws h in
    (v, w, rw placed old, changed, rw (list_place_same token vs ws size, placed) new)

-- A change at a token changes the child there.
pub inside_lem :
    (token : String) (change : Json → Result Json) (d e : Json)
    → inside token change d ≡ ok e
    → (v : Json) × (w : Json) × (child token d ≡ some v)
      × (change v ≡ ok w)
      × (child token e ≡ some w)
unfolding inside child
inside_lem token change null e h = cc
inside_lem token change (bool b) e h = cc
inside_lem token change (int n) e h = cc
inside_lem token change (text t) e h = cc
inside_lem token change (array vs) e h =
    let (ws, inner, same) = map_ok-eq-ok array _ h in
    let (n, placed, changed) = >>=-eq-ok (list_place token vs) _ inner in
    rw same (inside_items_lem token change vs ws n placed changed)
inside_lem token change (object fs) e h =
    let (gs, inner, same) = map_ok-eq-ok object _ h in
    rw same (inside_field_lem token change fs gs inner)

edit_parent_lem :
    (token : String) (x d e : Json)
    → edit_parent (replace_with x) token d ≡ ok e
    → child token e ≡ some x
unfolding edit_parent child
edit_parent_lem token x null e h = cc
edit_parent_lem token x (bool b) e h = cc
edit_parent_lem token x (int n) e h = cc
edit_parent_lem token x (text t) e h = cc
edit_parent_lem token x (array vs) e h =
    let (ws, inner, same) = map_ok-eq-ok array _ h in
    let (n, placed, changed) = >>=-eq-ok (list_place token vs) _ inner in
    let (v, w, old, is_x, new) = inside_items_lem token (λ _. ok x) vs ws n placed changed in
    rw same (new ∙ ap some (cc))
edit_parent_lem token x (object fs) e h =
    let (gs, inner, same) = map_ok-eq-ok object _ h in
    let (v, w, old, is_x, new) = inside_field_lem token (λ _. ok x) fs gs inner in
    rw same (new ∙ ap some (cc))

pub read_at-child :
    (token : String) (tokens : List String) (v w : Json)
    → child token v ≡ some w
    → read_at (token ∷ tokens) v ≡ read_at tokens w
unfolding read_at
read_at-child token tokens v w h = rw (read_at, h) refl

edit_at-read :
    (edit : Result Edit) (x : Json) (token : String) (tokens : List String) (d e : Json)
    → edit ≡ ok (replace_with x)
    → edit_at edit token tokens d ≡ ok e
    → read_at (token ∷ tokens) e ≡ some x
unfolding edit_at read_at
edit_at-read edit x token [] d e is_edit h =
    rw (read_at, edit_parent_lem token x d e (rw is_edit at h)) refl
edit_at-read edit x token (next ∷ tokens) d e is_edit h =
    let (v, w, old, changed, new) = inside_lem token (edit_at edit next tokens) d e h in
    read_at-child token (next ∷ tokens) e w new
    ∙ edit_at-read edit x next tokens v w is_edit changed

edit_of-replace :
    (m : Fields) (x : Json)
    → get "operator" m ≡ text "replace"
    → find "value" m ≡ some x
    → edit_of m ≡ ok (replace_with x)
unfolding edit_of json_eq String-discrete
edit_of-replace m x operator value = rw (operator, value) refl

fields_of-object : (d : Json) (fs : Fields) → fields_of d ≡ ok fs → d ≡ object fs
fields_of-object null fs h = cc
fields_of-object (bool b) fs h = cc
fields_of-object (int n) fs h = cc
fields_of-object (text t) fs h = cc
fields_of-object (array vs) fs h = cc
fields_of-object (object gs) fs h = cc

-- The parts of a mutation that returns.
pub apply_mutation_parts :
    (trace m mutated : Fields) (path : String) (tokens : List String)
    → apply_mutation trace m ≡ ok mutated
    → get "path" m ≡ text path
    → pointer_tokens path ≡ ok tokens
    → edit_document (edit_of m) tokens (object trace) ≡ ok (object mutated)
unfolding apply_mutation
apply_mutation_parts trace m mutated path tokens h at_path has_tokens =
    let (d, edited, fields) =
      >>=-eq-ok (edit_document (edit_of m) tokens (object trace)) fields_of
        (rw (at_path, has_tokens) at h) in
    edited ∙ ap ok (fields_of-object d mutated fields)

-- When a replacement returns, its value is what the mutated trace has at the path.
pub read_at-apply_mutation :
    (trace m mutated : Fields) (path : String) (tokens : List String) (x : Json)
    → apply_mutation trace m ≡ ok mutated
    → get "operator" m ≡ text "replace"
    → get "path" m ≡ text path
    → find "value" m ≡ some x
    → pointer_tokens path ≡ ok tokens
    → read_at tokens (object mutated) ≡ some x
read_at-apply_mutation trace m mutated path tokens x h operator at_path value has_tokens =
    by_tokens tokens (apply_mutation_parts trace m mutated path tokens h at_path has_tokens)
  where
    by_tokens :
        (tokens : List String)
        → edit_document (edit_of m) tokens (object trace) ≡ ok (object mutated)
        → read_at tokens (object mutated) ≡ some x
    by_tokens [] e = cc
    by_tokens (token ∷ rest) e =
        edit_at-read (edit_of m) x token rest (object trace) (object mutated)
          (edit_of-replace m x operator value) e
