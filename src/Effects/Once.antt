-- ===== src/Effects/Once.antt =====
-- Each operation takes effect once, and no request is lost.
use coding_agent_reliability.Base.{
  ◌+◌, ◌≡◌, refl, ◌||◌, List, [], ◌∷◌, ◌++◌, map, map-append, arith, String, ◌==◌, string_eq,
  text_pair_eq, if◌then◌else◌, ok, lookup, lookup-insert, is_some, count, count-append, contains,
  >>=-eq-ok,
}
use coding_agent_reliability.Effects.{
  EffectRequest, Progress, no_progress, ReplayMode, idempotent, identity, replay_request,
  replay_requests,
}

abbrev pub operations : List EffectRequest → List String
operations = map (λ r. r.operation_id)

map-snoc :
    (xs : List EffectRequest) (x : EffectRequest)
    → operations (xs ++ x ∷ []) ≡ operations xs ++ x.operation_id ∷ []
map-snoc xs x = map-append (λ r. r.operation_id) xs (x ∷ [])

-- The ledger holds an operation exactly if it was applied, and then it was applied once.
abbrev OnceEach : Progress → Type 0
OnceEach p =
    (id : String)
    → count id (operations p.applied) ≡ (if is_some (lookup id p.ledger) then 1 else 0)

replay_request-OnceEach :
    (p q : Progress) (r : EffectRequest)
    → OnceEach p
    → replay_request p r idempotent ≡ ok q
    → OnceEach q
unfolding replay_request count
replay_request-OnceEach p q r once h id = ground (
  arith,
  once id,
  once r.operation_id,
  lookup-insert r.operation_id id (identity r) p.ledger,
  map-snoc p.applied r,
  count-append id (operations p.applied) (r.operation_id ∷ []),
)

-- After a request its operation is in the ledger, and no operation has left it.
ledger-replay_request :
    (p q : Progress) (r : EffectRequest) (id : String)
    → replay_request p r idempotent ≡ ok q
    → is_some (lookup id q.ledger) ≡ (is_some (lookup id p.ledger) || r.operation_id == id)
unfolding replay_request
ledger-replay_request p q r id h =
    ground (arith, lookup-insert r.operation_id id (identity r) p.ledger)

replay_requests-OnceEach :
    (rs : List EffectRequest) (p q : Progress)
    → OnceEach p
    → replay_requests rs p idempotent ≡ ok q
    → OnceEach q
      × ((id : String)
          → is_some (lookup id q.ledger)
            ≡ (is_some (lookup id p.ledger) || contains id (operations rs)))
unfolding replay_requests contains
replay_requests-OnceEach [] p q once h = (λ id. ground (arith, once id), λ id. ground arith)
replay_requests-OnceEach (r ∷ rs) p q once h =
    let (p', step, rest) =
      >>=-eq-ok (replay_request p r idempotent) (λ s. replay_requests rs s idempotent) h in
    let ih = replay_requests-OnceEach rs p' q (replay_request-OnceEach p p' r once step) rest in
    (ih.0, λ id. ground (arith, ih.1 id, ledger-replay_request p p' r id step))

-- An idempotent replay that returns has applied each operation that the list asks for exactly once,
-- and no other.
pub count-replay_requests :
    (id : String) (rs : List EffectRequest) (q : Progress)
    → replay_requests rs no_progress idempotent ≡ ok q
    → count id (operations q.applied) ≡ (if contains id (operations rs) then 1 else 0)
count-replay_requests id rs q h =
    let after = replay_requests-OnceEach rs no_progress q (λ id. unfold count lookup in refl) h in
    rw (after.0 id, after.1 id) (unfold lookup in refl)

replay_request-conserved :
    (id : String) (p q : Progress) (r : EffectRequest) (m : ReplayMode)
    → replay_request p r m ≡ ok q
    → count id (operations q.applied) + count id (operations q.duplicates)
      ≡ count id (operations p.applied)
        + count id (operations p.duplicates)
        + count id (r.operation_id ∷ [])
unfolding replay_request
replay_request-conserved id p q r m h = ground (
  arith,
  map-snoc p.applied r,
  map-snoc p.duplicates r,
  count-append id (operations p.applied) (r.operation_id ∷ []),
  count-append id (operations p.duplicates) (r.operation_id ∷ []),
)

-- In both modes a replay that returns has put every request, as often as the list asks for its
-- operation, among the applied ones or among the duplicates.
pub count-conserved :
    (id : String) (rs : List EffectRequest) (p q : Progress) (m : ReplayMode)
    → replay_requests rs p m ≡ ok q
    → count id (operations q.applied) + count id (operations q.duplicates)
      ≡ count id (operations p.applied)
        + count id (operations p.duplicates)
        + count id (operations rs)
unfolding replay_requests count
count-conserved id [] p q m h = ground arith
count-conserved id (r ∷ rs) p q m h =
    let (p', step, rest) = >>=-eq-ok (replay_request p r m) (λ s. replay_requests rs s m) h in
    ground (arith, count-conserved id rs p' q m rest, replay_request-conserved id p p' r m step)
