-- ===== src/Ids.antt =====
-- crates/shared-kernel/src/ids.rs: the domain ids, a prefix and the number with at least six digits.
use Prim.Native.String.{String, ◌++◌}
use sulix_intelligence.Prelude.{I64}
use sulix_intelligence.Prelude.Decimal.{padded}

unfoldable pub domain_id : String → I64 → String
domain_id prefix id = prefix ++ padded 6 id

unfoldable pub observation_id : I64 → String
unfolding domain_id
observation_id id = domain_id "OBS-" id

unfoldable pub signal_id : I64 → String
unfolding domain_id
signal_id id = domain_id "SIG-" id

unfoldable pub decision_id : I64 → String
unfolding domain_id
decision_id id = domain_id "DEC-" id

unfoldable pub outcome_id : I64 → String
unfolding domain_id
outcome_id id = domain_id "OUT-" id

unfoldable pub reflection_id : I64 → String
unfolding domain_id
reflection_id id = domain_id "REF-" id

unfoldable pub memory_id : I64 → String
unfolding domain_id
memory_id id = domain_id "MEM-" id

unfoldable pub source_id : I64 → String
unfolding domain_id
source_id id = domain_id "SRC-" id

unfoldable pub entity_id : I64 → String
unfolding domain_id
entity_id id = domain_id "ENT-" id
