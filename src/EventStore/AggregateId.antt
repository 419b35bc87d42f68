-- ===== src/EventStore/AggregateId.antt =====
-- crates/event-store/src/lib.rs, `AggregateId`: the ids of the aggregates in the event stream.
use Prim.Native.String.{String, ◌++◌}
use sulix_intelligence.Prelude.{I64}
use sulix_intelligence.Prelude.Decimal.{padded}

unfoldable pub decision : I64 → String
decision id = "DEC-" ++ padded 6 id

unfoldable pub signal : I64 → String
signal id = "SIG-" ++ padded 6 id

unfoldable pub outcome : I64 → String
outcome id = "OUT-" ++ padded 6 id

unfoldable pub reflection : I64 → String
reflection id = "REF-" ++ padded 6 id

unfoldable pub memory : I64 → String
memory id = "MEM-" ++ padded 6 id
