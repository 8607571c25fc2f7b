-- ===== src/TraceIntegrity/Frame.antt =====
-- What a mutation leaves alone.
use coding_agent_reliability.Base.{
  ◌≡◌, ◌≢◌, refl, sym, subst, ◌∙◌, ℕ, Bool, true, false, Option, none, some, List, [], ◌∷◌, ◌++◌,
  String, string_eq, ◌==◌, Result, ok, err, Error, String-discrete, arith, Bool-cases, inl, inr,
  if◌then◌else◌,
}
use coding_agent_reliability.Base.Document.{
  Json, null, bool, int, text, array, object, Items, Fields, end, field, get, find, has_key,
  json_eq, json_eq-text,
}
use coding_agent_reliability.Base.Errors.{>>=-eq-ok, ok-injective}
use coding_agent_reliability.TraceIntegrity.Pointer.{pointer_tokens}
use coding_agent_reliability.TraceIntegrity.Mutation.{
  value_edit, list_place, inside_field, remove_field, Edit, replace_with, remove, edit_of,
  edit_items, edit_fields, edit_parent, inside, edit_at, edit_document, apply_mutation,
}
use coding_agent_reliability.TraceIntegrity.Splice.{
  IsSpliced, inside_item-IsSpliced, remove_item-IsSpliced, list_place_below,
}
use coding_agent_reliability.TraceIntegrity.Readback.{
  read_at, map_ok-eq-ok, inside_lem, read_at-child, apply_mutation_parts,
}

module _ (j : String) where
  find-inside_field :
      (key : String) (change : Json → Result Json) (fs gs : Fields)
      → j ≢ key
      → inside_field key change fs ≡ ok gs
      → find j gs ≡ find j fs
  unfolding inside_field find
  find-inside_field key change end gs apart h = cc
  find-inside_field key change (field k x fs) gs apart h = elim (Bool-cases (k == key)) [
    | inl found ↦
        let (w, changed, e) = map_ok-eq-ok (λ w. field k w fs) (change x) (rw found at h) in
        rw e (ground arith)
    | inr other ↦
        let (hs, inner, e) =
          map_ok-eq-ok (field k x) (inside_field key change fs) (rw other at h) in
        rw e (ground (arith, find-inside_field key change fs hs apart inner))
  ]

  find-remove_field :
      (key : String) (fs : Fields) → j ≢ key → find j (remove_field key fs) ≡ find j fs
  unfolding remove_field find
  find-remove_field key end apart = refl
  find-remove_field key (field k x fs) apart = ground (arith, find-remove_field key fs apart)

  find-edit_fields :
      (edit : Edit) (key : String) (fs gs : Fields)
      → j ≢ key
      → edit_fields edit key fs ≡ ok gs
      → find j gs ≡ find j fs
  unfolding edit_fields
  find-edit_fields (replace_with x) key fs gs apart h =
      find-inside_field key (λ _. ok x) fs gs apart h
  find-edit_fields remove key fs gs apart h = elim (Bool-cases (has_key key fs)) [
    | inl found ↦ same gs (rw found at h)
    | inr missing ↦ ground (arith, missing, h)
  ]
    where
      same : (gs : Fields) → ok (remove_field key fs) ≡ ok gs → find j gs ≡ find j fs
      same gs e = subst (λ (x : Fields). find j x ≡ find j fs) (cc) (find-remove_field key fs apart)

-- What an edit at or below one key of a value leaves alone: under an object the other keys, and of a
-- list the values before and after the place that the key names.
unfoldable pub IsBeside : Bool → String → Json → Json → Type 0
IsBeside removes key (object fs) e =
    (gs : Fields) × (e ≡ object gs) × ((j : String) → j ≢ key → find j gs ≡ find j fs)
IsBeside removes key (array vs) e =
    (ws : Items) × (e ≡ array ws) × (n : ℕ) × (list_place key vs ≡ ok n) × IsSpliced removes n vs ws
IsBeside removes key _ e = ⊥

is_remove : Edit → Bool
is_remove (replace_with v) = false
is_remove remove = true

edit_parent-IsBeside :
    (edit : Edit) (key : String) (v w : Json)
    → edit_parent edit key v ≡ ok w
    → IsBeside (is_remove edit) key v w
unfolding edit_parent edit_items IsBeside is_remove
edit_parent-IsBeside edit key (object fs) w h =
    let (gs, changed, same) = map_ok-eq-ok object (edit_fields edit key fs) h in
    (gs, same, λ j apart. find-edit_fields j edit key fs gs apart changed)
edit_parent-IsBeside (replace_with x) key (array vs) w h =
    let (ws, inner, same) = map_ok-eq-ok array _ h in
    let (n, placed, changed) = >>=-eq-ok (list_place key vs) _ inner in
    (ws, same, n, placed, inside_item-IsSpliced n (λ _. ok x) vs ws changed)
edit_parent-IsBeside remove key (array vs) w h =
    let (ws, inner, same) = map_ok-eq-ok array _ h in
    let (n, placed, changed) = >>=-eq-ok (list_place key vs) _ inner in
    (
      ws,
      same,
      n,
      placed,
      subst (IsSpliced true n vs) (ok-injective changed)
          (remove_item-IsSpliced n vs (list_place_below key vs n placed)),
    )
edit_parent-IsBeside edit key null w h = cc
edit_parent-IsBeside edit key (bool b) w h = cc
edit_parent-IsBeside edit key (int n) w h = cc
edit_parent-IsBeside edit key (text t) w h = cc

inside-IsBeside :
    (key : String) (change : Json → Result Json) (v w : Json)
    → inside key change v ≡ ok w
    → IsBeside false key v w
unfolding inside IsBeside
inside-IsBeside key change (object fs) w h =
    let (gs, changed, same) = map_ok-eq-ok object (inside_field key change fs) h in
    (gs, same, λ j apart. find-inside_field j key change fs gs apart changed)
inside-IsBeside key change (array vs) w h =
    let (ws, inner, same) = map_ok-eq-ok array _ h in
    let (n, placed, changed) = >>=-eq-ok (list_place key vs) _ inner in
    (ws, same, n, placed, inside_item-IsSpliced n change vs ws changed)
inside-IsBeside key change null w h = cc
inside-IsBeside key change (bool b) w h = cc
inside-IsBeside key change (int n) w h = cc
inside-IsBeside key change (text t) w h = cc

-- The edit removes the child that the last token names.
unfoldable pub removes_child : Bool → List String → Bool
removes_child removal [] = removal
removes_child removal (next ∷ tokens) = false

removes : Result Edit → Bool
removes (ok edit) = is_remove edit
removes (err e) = false

edit_at-IsBeside :
    (edit : Result Edit) (key : String) (tokens : List String) (v w : Json)
    → edit_at edit key tokens v ≡ ok w
    → IsBeside (removes_child (removes edit) tokens) key v w
unfolding edit_at removes_child removes
edit_at-IsBeside edit key [] v w h =
    let (e, is_edit, edited) = >>=-eq-ok edit _ h in
    rw is_edit (edit_parent-IsBeside e key v w edited)
edit_at-IsBeside edit key (next ∷ tokens) v w h =
    inside-IsBeside key (edit_at edit next tokens) v w h

replace_is_other : json_eq (text "replace") (text "remove") ≡ false
unfolding json_eq String-discrete
replace_is_other = refl

removes-edit_of : (m : Fields) → removes (edit_of m) ≡ json_eq (get "operator" m) (text "remove")
unfolding removes edit_of is_remove
removes-edit_of m = elim (Bool-cases (json_eq (get "operator" m) (text "replace"))) [
  | inl replaces ↦
      rw (replaces, json_eq-text (get "operator" m) "replace" replaces, replace_is_other)
        (by_value (find "value" m))
  | inr other ↦ rw other (by_test (json_eq (get "operator" m) (text "remove")))
]
  where
    by_value : (o : Option Json) → removes (value_edit o) ≡ false
    by_value none = refl
    by_value (some v) = refl

    by_test : (b : Bool) → removes (if b then ok remove else err Error.value_error) ≡ b
    by_test true = refl
    by_test false = refl

edit_document-inside :
    (edit : Result Edit) (p key : String) (prefix tokens : List String) (d : Json)
    → edit_document edit (p ∷ (prefix ++ key ∷ tokens)) d
      ≡ inside p (edit_document edit (prefix ++ key ∷ tokens)) d
unfolding edit_at
edit_document-inside edit p key [] tokens d = refl
edit_document-inside edit p key (q ∷ prefix) tokens d = refl

read_at-edit_document :
    (edit : Result Edit) (prefix : List String) (key : String) (tokens : List String) (d e : Json)
    → edit_document edit (prefix ++ key ∷ tokens) d ≡ ok e
    → (v : Json) × (w : Json) × (read_at prefix d ≡ some v)
      × (read_at prefix e ≡ some w)
      × IsBeside (removes_child (removes edit) tokens) key v w
unfolding read_at
read_at-edit_document edit [] key tokens d e h =
    (d, e, refl, refl, edit_at-IsBeside edit key tokens d e h)
read_at-edit_document edit (p ∷ prefix) key tokens d e h =
    let (v, w, old, changed, new) =
      inside_lem p (edit_document edit (prefix ++ key ∷ tokens)) d e
        (sym (edit_document-inside edit p key prefix tokens d) ∙ h) in
    let (x, y, at_old, at_new, beside) = read_at-edit_document edit prefix key tokens v w changed in
    (x, y, read_at-child p prefix d v old ∙ at_old, read_at-child p prefix e w new ∙ at_new, beside)

-- Everything beside the path of a mutation that returns stays as it was, in a replacement and in a
-- removal. At each step of the path there is a value in the trace and one in the mutated trace: of an
-- object, the other keys have what they had; of a list, the same values stand before and after the
-- place that the step names, and between them one value, or none where the step is the last of a
-- removal.
pub apply_mutation-IsBeside :
    (trace m mutated : Fields) (path key : String) (prefix tokens : List String)
    → apply_mutation trace m ≡ ok mutated
    → get "path" m ≡ text path
    → pointer_tokens path ≡ ok (prefix ++ key ∷ tokens)
    → (v : Json) × (w : Json) × (read_at prefix (object trace) ≡ some v)
      × (read_at prefix (object mutated) ≡ some w)
      × IsBeside (removes_child (json_eq (get "operator" m) (text "remove")) tokens) key v w
apply_mutation-IsBeside trace m mutated path key prefix tokens h at_path has_tokens =
    subst
      (λ (b : Bool).
        (v : Json) × (w : Json) × (read_at prefix (object trace) ≡ some v)
        × (read_at prefix (object mutated) ≡ some w)
        × IsBeside (removes_child b tokens) key v w)
      (removes-edit_of m)
      (read_at-edit_document (edit_of m) prefix key tokens (object trace) (object mutated)
        (apply_mutation_parts trace m mutated path (prefix ++ key ∷ tokens) h at_path has_tokens))
