-- ===== src/Signals/Query/Threads.antt =====
-- crates/intelligence/signal-engine/src/query/entity.rs: the threads of an entity.
use Prim.Native.String.{String, ◌++◌ as text_append}
use Prim.Native.Char.{code}
use sulix_intelligence.Prelude.{
  ℕ, I64, List, [], ◌∷◌, Option, none, some, Bool, false, not, ◌&&◌, ◌||◌, Mut, ◌>>=◌, return,
  if◌then◌else◌, str_eq, ◌==◌, length, Float, starts_with,
}
use sulix_intelligence.Prelude.Decimal.{padded, parse_i64}
use sulix_intelligence.Signals.Models.{SignalThreadRow, SignalInstanceMoment, SignalError}
use sulix_intelligence.Signals.Query.{SignalThreadSummary, SignalQuery}

-- `text.strip_prefix(prefix)`
abbrev pub strip_prefix : String → String → Option String
strip_prefix text String.[] = some text
strip_prefix String.[] (String.◌∷◌ d prefix) = none
strip_prefix (String.◌∷◌ c text) (String.◌∷◌ d prefix) =
    let rest = strip_prefix text prefix in if code c == code d then rest else none

abbrev pub key_entity : String → Option I64
key_entity key = elim (strip_prefix key "entity:") [ none ↦ none | some s ↦ parse_i64 s ]

abbrev pub is_entity : I64 → Option I64 → Bool
is_entity id none = false
is_entity id (some j) = j == id

abbrev pub is_nameless : Option String → Bool
is_nameless none = false
is_nameless (some name) = str_eq name ""

abbrev pub first_moment : List SignalInstanceMoment → I64
first_moment [] = 0
first_moment (i ∷ is) = i.generated_at

abbrev pub last_moment : List SignalInstanceMoment → I64
last_moment [] = 0
last_moment (i ∷ []) = i.generated_at
last_moment (i ∷ j ∷ is) = last_moment (j ∷ is)

module _ {F : Type 0} where
  abbrev pub summary_of : SignalThreadRow F → SignalThreadSummary F
  summary_of t = record {
    thread_id = t.thread_id;
    title = t.title;
    status = t.status;
    health_score = t.health_score;
    trend = t.trend;
    current_score = t.current_score;
    latest_impact = "";
    instance_count = length t.instances;
    total_articles = t.cumulative_article_count;
    first_seen_at = last_moment t.instances;
    last_seen_at = first_moment t.instances;
  }

  -- The three reasons to skip a thread.
  abbrev pub is_skipped : I64 → SignalThreadRow F → Bool
  is_skipped entity_id t =
      (is_nameless t.anchor_entity
        && not (str_eq t.signal_key (text_append "entity:" (padded 1 entity_id))))
      || not (starts_with t.signal_key "entity:")
      || not (is_entity entity_id (key_entity t.signal_key))

  abbrev pub summaries : I64 → List (SignalThreadRow F) → List (SignalThreadSummary F)
  summaries entity_id [] = []
  summaries entity_id (t ∷ ts) =
      let rest = summaries entity_id ts in
      if is_skipped entity_id t then rest else summary_of t ∷ rest

module _ {F St : Type 0} ⦃fl : Float F⦄ where
  unfoldable pub threads :
      SignalQuery F St → I64 → ℕ → Mut St SignalError (List (SignalThreadSummary F))
  unfolding parse_i64
  threads query entity_id limit = do
    rows ← query.list_signal_threads (record {
      statuses = "active" ∷ "decaying" ∷ "resolved" ∷ "archived" ∷ [];
      limit = limit;
      min_score = fl.ratio 0 1;
    })
    return (summaries entity_id rows)
