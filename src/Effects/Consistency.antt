-- ===== src/Effects/Consistency.antt =====
-- When the idempotent replay returns: exactly if no operation identity is used for two effects.
use coding_agent_reliability.Base.{
  ◌≡◌, refl, Bool, true, ◌&&◌, Option, none, some, List, [], ◌∷◌, ◌++◌, arith, String, ◌==◌,
  string_eq, text_pair_eq, if◌then◌else◌, Result, ok, err, Error, is_ok, map_ok, lookup, insert,
  lookup-insert, Option-cases, inl, inr, Bool-cases, ==-eq, Increasing, is_unique_increasing, ◌>>=◌,
  map, ap,
}
use coding_agent_reliability.Base.Order.{is_unique_increasing_iff}
use coding_agent_reliability.Effects.{
  EffectRequest, Progress, no_progress, idempotent, identity, EffectReplayResult, replay_effects,
  replay_with, replay_request, replay_requests,
}

-- The requests for the operation of `r` all ask for its effect.
unfoldable pub agrees : EffectRequest → List EffectRequest → Bool
agrees r [] = true
agrees r (x ∷ xs) =
    (if r.operation_id == x.operation_id then identity r == identity x else true) && agrees r xs

-- Requests that share an operation ask for one effect.
unfoldable pub is_consistent : List EffectRequest → Bool
unfolding agrees
is_consistent [] = true
is_consistent (r ∷ rs) = agrees r rs && is_consistent rs

-- A ledger entry allows the effect of a request.
abbrev allows : Option (String × String) → EffectRequest → Bool
allows none r = true
allows (some previous) r = previous == identity r

-- The ledger allows every request.
fits : List (String × (String × String)) → List EffectRequest → Bool
fits l [] = true
fits l (r ∷ rs) = allows (lookup r.operation_id l) r && fits l rs

fits-insert :
    (l : List (String × (String × String))) (r : EffectRequest) (rs : List EffectRequest)
    → lookup r.operation_id l ≡ none
    → fits (insert r.operation_id (identity r) l) rs ≡ (fits l rs && agrees r rs)
unfolding fits agrees
fits-insert l r [] h = refl
fits-insert l r (x ∷ xs) h =
    rw (lookup-insert r.operation_id x.operation_id (identity r) l, fits-insert l r xs h)
      (ground arith)

fits-agrees :
    (l : List (String × (String × String))) (r : EffectRequest) (rs : List EffectRequest)
    → lookup r.operation_id l ≡ some (identity r)
    → fits l rs ≡ true
    → agrees r rs ≡ true
unfolding fits agrees
fits-agrees l r [] h f = refl
fits-agrees l r (x ∷ xs) h f = ground (arith, fits-agrees l r xs h)

fits-empty : (rs : List EffectRequest) → fits [] rs ≡ true
unfolding fits lookup
fits-empty [] = refl
fits-empty (r ∷ rs) = fits-empty rs

is_ok-replay :
    (rs : List EffectRequest) (p : Progress)
    → is_ok (replay_requests rs p idempotent) ≡ (fits p.ledger rs && is_consistent rs)
unfolding replay_requests replay_request fits is_consistent
is_ok-replay [] p = refl
is_ok-replay (r ∷ rs) p = elim (Option-cases (lookup r.operation_id p.ledger)) [
  | inl new ↦ rw new (
      ground (
        arith,
        is_ok-replay rs (record p {
          ledger = insert r.operation_id (identity r) p.ledger;
          applied = p.applied ++ r ∷ [];
        }),
        fits-insert p.ledger r rs new,
      ))
  | inr (previous, old) ↦ elim (Bool-cases (previous == identity r)) [
    | inl same ↦
        rw (old, replay_with, same)
          (ground (
            arith,
            is_ok-replay rs (record p { duplicates = p.duplicates ++ r ∷ [] }),
            fits-agrees p.ledger r rs,
            ==-eq previous (identity r),
          ))
    | inr other ↦ rw (old, replay_with, other)
  ]
]

replay_with-error :
    (p : Progress) (r : EffectRequest) (o : Option (String × String)) (e : Error)
    → replay_with p r o ≡ err e
    → e ≡ Error.idempotency_conflict
unfolding replay_with
replay_with-error p r none e h = cc
replay_with-error p r (some previous) e h = ground arith

replay_error :
    (rs : List EffectRequest) (p : Progress) (e : Error)
    → replay_requests rs p idempotent ≡ err e
    → e ≡ Error.idempotency_conflict
unfolding replay_requests replay_request
replay_error [] p e h = cc
replay_error (r ∷ rs) p e h =
    go (replay_with p r (lookup r.operation_id p.ledger)) refl h (λ q. replay_error rs q e)
  where
    go :
        (m : Result Progress)
        → replay_with p r (lookup r.operation_id p.ledger) ≡ m
        → (m >>= λ q. replay_requests rs q idempotent) ≡ err e
        → ((q : Progress)
            → replay_requests rs q idempotent ≡ err e
            → e ≡ Error.idempotency_conflict)
        → e ≡ Error.idempotency_conflict
    go (ok q) is h ih = ih q h
    go (err c) is h ih = replay_with-error p r (lookup r.operation_id p.ledger) e (ground arith)

finish : Progress → Result EffectReplayResult
finish p = ok (record { mode = idempotent; applied = p.applied; duplicates = p.duplicates })

-- What is left of an outcome when the result is dropped.
abbrev pub outcome {ℓ} : {A : Type ℓ} → Result A → Result (Unit {0})
outcome r = map_ok (λ _. tt) r

outcome-finish :
    (m : Result Progress) (b : Bool)
    → is_ok m ≡ b
    → ((e : Error) → m ≡ err e → e ≡ Error.idempotency_conflict)
    → outcome (m >>= finish) ≡ (if b then ok tt else err Error.idempotency_conflict)
unfolding finish
outcome-finish (ok p) b h only = rw (← h)
outcome-finish (err e) b h only = rw (← h) (ap err (only e refl))

-- On a list of requests in order, the idempotent replay returns if all requests for an operation
-- ask for the same tool and payload, and raises IdempotencyConflict if they do not.
pub replay_effects-is_consistent :
    (rs : List EffectRequest)
    → Increasing (map (λ r. r.sequence) rs)
    → outcome (replay_effects rs idempotent)
      ≡ (if is_consistent rs then ok tt else err Error.idempotency_conflict)
unfolding replay_effects finish
replay_effects-is_consistent rs i =
    let ordered : is_unique_increasing (map (λ r. r.sequence) rs) ≡ true =
      (is_unique_increasing_iff _).1 i in
    rw ordered (
      outcome-finish (replay_requests rs no_progress idempotent) (is_consistent rs)
        (rw (is_ok-replay rs no_progress, fits-empty rs) refl) (replay_error rs no_progress))
