-- ===== src/Signals/Ports.antt =====
-- crates/intelligence/signal-engine/src/{ports,source}.rs: the ports of the engine. `St` is the state behind them
-- all and `J` stands for a `serde_json::Value`.
use Prim.Native.String.{String}
use sulix_intelligence.Prelude.{ℕ, I64, List, Option, Mut}
use sulix_intelligence.Signals.Models.{
  DiscoveryMethod, SignalUpsertResult, EntityCandidate, EmbeddedArticle, SignalError,
  SimilarArticle, SignalCandidate,
}

pub record SignalEvent (J : Type 0) : Type 0 where
  pub event_type : String
  pub aggregate_id : String
  pub payload : J
  pub occurred_at : I64

pub record SignalEventLog (J St : Type 0) : Type 0 where
  pub append : SignalEvent J → ℕ → Mut St SignalError (Unit {0})
  pub load : String → ℕ → Mut St SignalError (List (SignalEvent J))

pub record SemanticQuery (F St : Type 0) : Type 0 where
  pub find_similar : String → ℕ → F → Mut St SignalError (List (SimilarArticle F))

pub record SignalPersistence (F St : Type 0) : Type 0 where
  pub upsert_signal_thread :
      String
      → Option I64
      → (title status : String) → DiscoveryMethod
      → Option F
      → Mut St SignalError SignalUpsertResult
  pub latest_instance_fingerprint : I64 → Mut St SignalError (Option (F × String))
  pub append_signal_instance :
      I64
      → F
      → (impact trend : String) → (article_count source_count : I64) → F
      → I64
      → Mut St SignalError I64
  pub update_signal_lifecycle : I64 → Mut St SignalError (Unit {0})

pub record SignalDiscovery (F St : Type 0) : Type 0 where
  pub entity_signal_candidates :
      (now days : I64)
      → (limit min_entity_articles min_sources : ℕ) → Mut St SignalError (List (EntityCandidate F))
  pub recent_embedded_articles : (now days : I64) → ℕ → Mut St SignalError (List EmbeddedArticle)

pub record DiscoveryContext (F St : Type 0) : Type 0 where
  pub discovery : SignalDiscovery F St
  pub semantic : Option (SemanticQuery F St)
  pub now : I64

-- A source is its `candidates`.
abbrev pub SignalSource : Type 0 → Type 0 → Type 0
SignalSource F St = DiscoveryContext F St → Mut St String (List (SignalCandidate F))
