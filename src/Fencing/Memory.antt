-- ===== src/Fencing/Memory.antt =====
-- The pure acquire and write: the newest token passes, and every older one is refused.
use coding_agent_reliability.Base.{
  ◌≡◌, some, String, pos, ◌+ℤ◌, ◌≤ℤ◌, +ℤ_parts, arith, string_eq, int_eq, optional_text_eq, ok, err,
  Error,
}
use coding_agent_reliability.Fencing.{FencingToken, FencedState, acquire_authority, fenced_write}

-- Authority that was just acquired has the next epoch and keeps the value, and its token commits any
-- write; a token of the same resource from an earlier epoch raises StaleFencingToken.
pub fenced_write-acquire_authority :
    (s s' : FencedState) (op v : String) (token old : FencingToken)
    → acquire_authority s op ≡ ok (s', token)
    → old.resource ≡ s.resource
    → old.epoch ≤ℤ s.epoch
    → (s'.epoch ≡ s.epoch +ℤ pos 1)
      × (s'.value ≡ s.value)
      × (fenced_write s' token v ≡ ok (record s' { value = some v }))
      × (fenced_write s' old v ≡ err Error.stale_fencing_token)
unfolding acquire_authority fenced_write
fenced_write-acquire_authority s s' op v token old h r e = ground (arith, +ℤ_parts s.epoch (pos 1))
