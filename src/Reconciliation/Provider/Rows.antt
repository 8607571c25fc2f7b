-- ===== src/Reconciliation/Provider/Rows.antt =====
-- When the rows of a provider make a snapshot, and that one more valid row keeps it so.
use coding_agent_reliability.Base.{
  ◌≡◌, refl, ◌∙◌, Bool, true, not, ◌&&◌, ◌||◌, none, List, [], ◌∷◌, arith, String, string_eq,
  text_pair_eq, ℤ, pos, ◌≤ℤ◌, ok, is_ok, is_blank, lookup, insert, inl, inr, Result-cases,
}
use coding_agent_reliability.Base.Sorting.{insert_by_id, sort_by_id}
use coding_agent_reliability.Reconciliation.{
  ExternalOperation, new_operation, VersionedProviderState, new_provider_state,
}
use coding_agent_reliability.Reconciliation.Provider.{select_effects, build_effects, snapshot_of}

abbrev is_named : String → String → String → Bool
is_named provider id tool = not (is_blank provider || is_blank id || is_blank tool)

-- Every row makes an operation of the provider.
unfoldable all_named : String → List (String × (String × String)) → Bool
all_named provider [] = true
all_named provider ((id, (tool, payload)) ∷ rows) =
    is_named provider id tool && all_named provider rows

build_effects-named :
    (provider : String) (rows : List (String × (String × String)))
    → is_ok (build_effects provider rows) ≡ all_named provider rows
unfolding build_effects all_named
build_effects-named provider [] = refl
build_effects-named provider ((id, (tool, payload)) ∷ rows) =
    ground (arith, build_effects-named provider rows)

all_named-insert_by_id :
    (provider : String) (row : String × (String × String))
    (rows : List (String × (String × String)))
    → all_named provider (insert_by_id row rows) ≡ all_named provider (row ∷ rows)
unfolding insert_by_id all_named
all_named-insert_by_id provider row [] = refl
all_named-insert_by_id provider row (r ∷ rows) =
    ground (arith, all_named-insert_by_id provider row rows)

all_named-sort_by_id :
    (provider : String) (rows : List (String × (String × String)))
    → all_named provider (sort_by_id rows) ≡ all_named provider rows
unfolding sort_by_id all_named
all_named-sort_by_id provider [] = refl
all_named-sort_by_id provider (r ∷ rows) =
    all_named-insert_by_id provider r (sort_by_id rows)
    ∙ ground (arith, all_named-sort_by_id provider rows)

all_named-select_insert :
    (provider id tool payload : String) (rows : List ((String × String) × (String × String)))
    → lookup (provider, id) rows ≡ none
    → all_named provider (select_effects provider (insert (provider, id) (tool, payload) rows))
      ≡ (all_named provider (select_effects provider rows) && is_named provider id tool)
unfolding lookup insert select_effects all_named
all_named-select_insert provider id tool payload [] free = ground arith
all_named-select_insert provider id tool payload ((key, effect) ∷ rows) free =
    ground (arith, all_named-select_insert provider id tool payload rows)

snapshot_of-named :
    (provider : String) (revision : ℤ) (rows : List ((String × String) × (String × String)))
    → pos 0 ≤ℤ revision
    → is_ok (snapshot_of provider revision rows) ≡ all_named provider (select_effects provider rows)
unfolding snapshot_of new_provider_state
snapshot_of-named provider revision rows le =
    let named = build_effects-named provider (sort_by_id (select_effects provider rows)) in
    elim (Result-cases (build_effects provider (sort_by_id (select_effects provider rows)))) [
      | inl (e, failed) ↦
          ground
            (arith, failed, named, all_named-sort_by_id provider (select_effects provider rows))
      | inr (effects, built) ↦
          ground (arith, built, named, all_named-sort_by_id provider (select_effects provider rows))
    ]

pub snapshot_of-bound :
    (provider : String) (revision : ℤ) (rows : List ((String × String) × (String × String)))
    (s : VersionedProviderState)
    → snapshot_of provider revision rows ≡ ok s
    → pos 0 ≤ℤ revision
unfolding snapshot_of new_provider_state
snapshot_of-bound provider revision rows s h =
    elim (Result-cases (build_effects provider (sort_by_id (select_effects provider rows)))) [
      | inl (e, failed) ↦ absurd (ground (arith, failed))
      | inr (effects, built) ↦ ground (arith, built)
    ]

-- Effects that make a snapshot still do with one more of a valid operation.
pub snapshot_of-insert :
    (op : ExternalOperation) (s : VersionedProviderState) (revision next : ℤ)
    (rows : List ((String × String) × (String × String)))
    → new_operation op.provider op.operation_id op.tool op.payload ≡ ok op
    → snapshot_of op.provider revision rows ≡ ok s
    → lookup (op.provider, op.operation_id) rows ≡ none
    → pos 0 ≤ℤ next
    → (s' : VersionedProviderState) × (snapshot_of op.provider next
          (insert (op.provider, op.operation_id) (op.tool, op.payload) rows)
        ≡ ok s')
unfolding new_operation
snapshot_of-insert op s revision next rows valid taken free le =
    let old =
      snapshot_of-named op.provider revision rows
        (snapshot_of-bound op.provider revision rows s taken) in
    let new =
      snapshot_of-named op.provider next
        (insert (op.provider, op.operation_id) (op.tool, op.payload) rows) le in
    let both = all_named-select_insert op.provider op.operation_id op.tool op.payload rows free in
    elim (Result-cases (
      snapshot_of op.provider next
        (insert (op.provider, op.operation_id) (op.tool, op.payload) rows))) [
          | inl (e, failed) ↦ absurd (ground (arith, failed, old, new, both, taken))
          | inr (s', done) ↦ (s', done)
        ]
