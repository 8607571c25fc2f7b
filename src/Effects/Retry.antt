-- ===== src/Effects/Retry.antt =====
-- Retries after a lost acknowledgement: exact repeats of earlier requests are suppressed.
use coding_agent_reliability.Base.{
  ◌≡◌, Bool, true, false, ◌&&◌, ◌||◌, some, List, [], ◌∷◌, ◌++◌, append-nil, append_assoc, arith,
  String, ◌==◌, string_eq, text_pair_eq, ok, lookup, lookup-insert, >>=-eq-ok, All,
}
use coding_agent_reliability.Effects.{
  EffectRequest, Progress, no_progress, idempotent, identity, replay_request, replay_requests,
}

-- The list asks for the effect of `r` under its operation.
unfoldable pub asks_for : EffectRequest → List EffectRequest → Bool
asks_for r [] = false
asks_for r (x ∷ xs) =
    (x.operation_id == r.operation_id && identity x == identity r) || asks_for r xs

-- What the ledger binds an operation to stays.
ledger_stable :
    (p q : Progress) (r : EffectRequest) (id : String) (i : String × String)
    → replay_request p r idempotent ≡ ok q
    → lookup id p.ledger ≡ some i
    → lookup id q.ledger ≡ some i
unfolding replay_request
ledger_stable p q r id i h e = ground (arith, lookup-insert r.operation_id id (identity r) p.ledger)

ledger_records :
    (p q : Progress) (r : EffectRequest)
    → replay_request p r idempotent ≡ ok q
    → lookup r.operation_id q.ledger ≡ some (identity r)
unfolding replay_request
ledger_records p q r h =
    ground (arith, lookup-insert r.operation_id r.operation_id (identity r) p.ledger)

ledger_stable_all :
    (rs : List EffectRequest) (p q : Progress) (id : String) (i : String × String)
    → replay_requests rs p idempotent ≡ ok q
    → lookup id p.ledger ≡ some i
    → lookup id q.ledger ≡ some i
unfolding replay_requests
ledger_stable_all [] p q id i h e = ground arith
ledger_stable_all (r ∷ rs) p q id i h e =
    let (p', step, rest) =
      >>=-eq-ok (replay_request p r idempotent) (λ s. replay_requests rs s idempotent) h in
    ledger_stable_all rs p' q id i rest (ledger_stable p p' r id i step e)

ledger_complete :
    (rs : List EffectRequest) (p q : Progress) (x : EffectRequest)
    → replay_requests rs p idempotent ≡ ok q
    → asks_for x rs ≡ true
    → lookup x.operation_id q.ledger ≡ some (identity x)
unfolding replay_requests asks_for
ledger_complete [] p q x h a = cc
ledger_complete (r ∷ rs) p q x h a =
    let (p', step, rest) =
      >>=-eq-ok (replay_request p r idempotent) (λ s. replay_requests rs s idempotent) h in
    ground (
      arith,
      ledger_records p p' r step,
      ledger_stable_all rs p' q r.operation_id (identity r) rest,
      ledger_complete rs p' q x rest,
    )

duplicate_step :
    (p : Progress) (r : EffectRequest)
    → lookup r.operation_id p.ledger ≡ some (identity r)
    → replay_request p r idempotent ≡ ok (record p { duplicates = p.duplicates ++ r ∷ [] })
unfolding replay_request
duplicate_step p r h = rw h (ground arith)

suppressed :
    (rs : List EffectRequest) (p : Progress)
    → All (λ r. lookup r.operation_id p.ledger ≡ some (identity r)) rs
    → replay_requests rs p idempotent ≡ ok (record p { duplicates = p.duplicates ++ rs })
unfolding replay_requests
suppressed [] p a = rw append-nil
suppressed (r ∷ rs) p a =
    rw (duplicate_step p r a.0)
      (rw (suppressed rs (record p { duplicates = p.duplicates ++ r ∷ [] }) a.1, append_assoc))

replay_requests-append :
    (rs more : List EffectRequest) (p q : Progress)
    → replay_requests rs p idempotent ≡ ok q
    → replay_requests (rs ++ more) p idempotent ≡ replay_requests more q idempotent
unfolding replay_requests
replay_requests-append [] more p q h = ground arith
replay_requests-append (r ∷ rs) more p q h =
    let (p', step, rest) =
      >>=-eq-ok (replay_request p r idempotent) (λ s. replay_requests rs s idempotent) h in
    rw step (replay_requests-append rs more p' q rest)

recorded :
    (rs retries : List EffectRequest) (p q : Progress)
    → replay_requests rs p idempotent ≡ ok q
    → All (λ r. asks_for r rs ≡ true) retries
    → All (λ r. lookup r.operation_id q.ledger ≡ some (identity r)) retries
recorded rs [] p q h a = tt
recorded rs (r ∷ retries) p q h a = (ledger_complete rs p q r h a.0, recorded rs retries p q h a.1)

-- When a list of requests has been replayed and requests that ask again for effects of the list
-- follow it, the idempotent replay of the whole applies what the list alone applies, and adds
-- every retry to the duplicates.
pub replay_requests-retries :
    (rs retries : List EffectRequest) (q : Progress)
    → replay_requests rs no_progress idempotent ≡ ok q
    → All (λ r. asks_for r rs ≡ true) retries
    → replay_requests (rs ++ retries) no_progress idempotent
      ≡ ok (record q { duplicates = q.duplicates ++ retries })
replay_requests-retries rs retries q h a =
    rw (replay_requests-append rs retries no_progress q h)
      (suppressed retries q (recorded rs retries no_progress q h a))
