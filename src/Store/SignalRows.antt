-- ===== src/Store/SignalRows.antt =====
-- crates/domain/src/models/signal.rs: the rows of the signal log.
use Prim.Native.String.{String}
use sulix_intelligence.Prelude.{I64, Option}

pub record SignalEvent : Type 0 where
  pub id : I64
  pub thread_id : I64
  pub event_type : String
  pub payload : Option String
  pub created_at : I64
