-- ===== src/Events.antt =====
-- The runtime events of an agent turn (src/agent_reliability_lab/events.py).
use coding_agent_reliability.Base.{DecEq, String, ℤ}

pub data EventKind : Type 0 where
  output completed failed : EventKind

unfoldable pub EventKind-discrete : Discrete EventKind
EventKind-discrete = hlevel

instance abbrev pub event_kind_eq : DecEq EventKind
event_kind_eq = record { dec = EventKind-discrete }

pub record Event : Type 0 where
  pub sequence : ℤ
  pub run_id : String
  pub turn_id : String
  pub kind : EventKind
  pub payload : String
