-- ===== src/Signals/Query/Detail.antt =====
-- crates/intelligence/signal-engine/src/query/detail.rs: the detail of a signal, with its merged timeline and the
-- analysis.
use Prim.Native.String.{String, ◌++◌ as text_append}
use sulix_intelligence.Prelude.{
  I64, ◌+◌, List, [], ◌∷◌, ◌++◌, map, Option, none, some, get_or, Bool, ◌&&◌, ok, err, Result, Mut,
  ◌>>=◌, return, if◌then◌else◌, str_eq, ◌==◌, ltb, lt_i64, sort_by, length, Float,
}
use sulix_intelligence.Prelude.Decimal.{padded}
use sulix_intelligence.Ids.{signal_id}
use sulix_intelligence.Signals.Models.{SignalTimelineEvent, SignalEventRecord, SignalError}
use sulix_intelligence.Signals.Ports.{SignalEvent, SignalEventLog}
use sulix_intelligence.Signals.Query.{SignalDetail, SignalAnalysis, SignalQuery}

-- The fields that are read from a JSON payload, the formats `{:.1}` and `{:.0}`, and `replace('_', " ")`.
pub record PayloadTexts (F J : Type 0) : Type 0 where
  pub parse : String → Option J
  pub score : J → Option F
  pub article_count : J → Option I64
  pub trend : J → Option String
  pub count : J → Option I64
  pub fixed1 : F → String
  pub fixed0 : F → String
  pub spaced : String → String

-- A text that is appended to a list of texts, from the front.
abbrev pub concat : List String → String
concat [] = ""
concat (s ∷ ss) = text_append s (concat ss)

abbrev pub bind {ℓ} : {A B : Type ℓ} → Option A → (A → Option B) → Option B
bind none f = none
bind (some a) f = f a

-- The events of one time and one type.
abbrev pub same_event : {F : Type 0} → SignalTimelineEvent F → SignalTimelineEvent F → Bool
same_event a b = a.timestamp == b.timestamp && str_eq a.event_type b.event_type

-- `dedup_by`: an element that is the same as the last one kept is dropped.
module _ {A : Type 0} (same : A → A → Bool) where
  abbrev pub dedup_after : A → List A → List A
  dedup_after kept [] = []
  dedup_after kept (x ∷ xs) =
      let skipped = dedup_after kept xs in
      let next = dedup_after x xs in if same x kept then skipped else x ∷ next

  abbrev pub dedup_by : List A → List A
  dedup_by [] = []
  dedup_by (x ∷ xs) = x ∷ dedup_after x xs

module _ {F : Type 0} where
  abbrev pub newer : SignalTimelineEvent F → SignalTimelineEvent F → Bool
  newer a b = lt_i64 b.timestamp a.timestamp

  -- The newest first, then without adjacent repetitions.
  unfoldable pub merge_timeline :
      List (SignalTimelineEvent F) → List (SignalTimelineEvent F) → List (SignalTimelineEvent F)
  merge_timeline timeline events = dedup_by same_event (sort_by newer (timeline ++ events))

module _ {F J : Type 0} ⦃fl : Float F⦄ (texts : PayloadTexts F J) where
  abbrev pub score_changed_text : Option J → String
  score_changed_text none = "Score changed"
  score_changed_text (some p) = concat (
      "Score changed to "
      ∷ texts.fixed1 (get_or (texts.score p) (fl.ratio 0 1))
      ∷ " ("
      ∷ padded 1 (get_or (texts.article_count p) 0)
      ∷ " articles, trend: "
      ∷ get_or (texts.trend p) "stable"
      ∷ ")"
      ∷ [])

  abbrev pub description : String → Option J → String
  description event_type parsed =
      if str_eq event_type "created"
      then "Signal thread created"
      else if str_eq event_type "score_changed"
      then score_changed_text parsed
      else if str_eq event_type "status_changed"
      then "Status changed"
      else if str_eq event_type "accelerating"
      then "Signal accelerating — velocity increasing significantly"
      else if str_eq event_type "decaying"
      then "Signal decaying — activity decreasing"
      else if str_eq event_type "resolved"
      then "Signal resolved — no recent activity detected"
      else if str_eq event_type "evidence_added"
      then concat
          (padded 1 (get_or (bind parsed texts.count) 0) ∷ " new evidence articles added" ∷ [])
      else concat ("Event: " ∷ texts.spaced event_type ∷ [])

  abbrev pub described : SignalEventRecord → SignalTimelineEvent F
  described e =
      let parsed = bind e.payload texts.parse in
      record {
        timestamp = e.created_at;
        event_type = e.event_type;
        score = get_or (bind parsed texts.score) (fl.ratio 0 1);
        article_count = get_or (bind parsed texts.article_count) 0;
        description = description e.event_type parsed;
      }

  abbrev pub logged_event : SignalEvent J → SignalTimelineEvent F
  logged_event e = record {
    timestamp = e.occurred_at;
    event_type = e.event_type;
    score = get_or (texts.score e.payload) (fl.ratio 0 1);
    article_count = get_or (texts.article_count e.payload) 0;
    description = e.event_type;
  }

  abbrev pub stored_timeline :
      List (SignalTimelineEvent F) → List SignalEventRecord → List (SignalTimelineEvent F)
  stored_timeline timeline [] = timeline
  stored_timeline timeline (e ∷ es) = merge_timeline timeline (map described (e ∷ es))

module _ {F J St : Type 0} ⦃fl : Float F⦄ (texts : PayloadTexts F J)
    (query : SignalQuery F St) where
  -- The events of the store, the fallback.
  abbrev pub stored_events :
      I64 → List (SignalTimelineEvent F) → Mut St SignalError (List (SignalTimelineEvent F))
  stored_events thread_id timeline = do
    events ← query.load_signal_events thread_id 50
    return (stored_timeline texts timeline events)

  -- What follows the load of the log: its events, or the fallback where it failed or is empty.
  abbrev pub after_log :
      I64
      → List (SignalTimelineEvent F)
      → Result SignalError (List (SignalEvent J))
      → Mut St SignalError (List (SignalTimelineEvent F))
  after_log thread_id timeline (ok (e ∷ es)) =
      return (merge_timeline timeline (map (logged_event texts) (e ∷ es)))
  after_log thread_id timeline (ok []) = stored_events thread_id timeline
  after_log thread_id timeline (err e) = stored_events thread_id timeline

  unfoldable pub merge_signal_events :
      Option (SignalEventLog J St)
      → I64
      → List (SignalTimelineEvent F)
      → Mut St SignalError (List (SignalTimelineEvent F))
  unfolding signal_id merge_timeline
  merge_signal_events none thread_id timeline s = stored_events thread_id timeline s
  merge_signal_events (some log) thread_id timeline s =
      let (r, t) = log.load (signal_id thread_id) 50 s in after_log thread_id timeline r t

module _ {F J : Type 0} ⦃fl : Float F⦄ (texts : PayloadTexts F J) where
  -- One of three words, by the thresholds 0.6 and 0.3 of the health.
  abbrev pub graded : F → (high middle low : String) → String
  graded score high middle low =
      if fl.le (fl.ratio 6 10) score
      then high
      else if fl.le (fl.ratio 3 10) score
      then middle
      else low

  abbrev pub velocity_text : F → String
  velocity_text velocity =
      if fl.le (fl.ratio 7 10) velocity
      then "rapidly increasing velocity"
      else if fl.le (fl.ratio 4 10) velocity
      then "steady velocity"
      else "declining velocity"

  unfoldable pub build_analysis : SignalDetail F → Option SignalAnalysis
  build_analysis detail =
      let h = detail.health in
      let quality = texts.fixed0 (fl.mul h.components.quality (fl.ratio 100 1)) in
      let sources = length detail.related_entities + 1 in
      let articles = padded 1 (length detail.evidence_top) in
      some (record {
        why_it_matters = concat (
            graded h.score "High confidence" "Moderate confidence" "Developing signal"
            ∷ " — Signal shows "
            ∷ (if fl.le (fl.ratio 4 10) h.components.volume then "strong" else "developing")
            ∷ " activity across "
            ∷ padded 1 sources
            ∷ " sources with "
            ∷ velocity_text h.components.velocity
            ∷ ". "
            ∷ articles
            ∷ " evidence articles, quality "
            ∷ quality
            ∷ "%."
            ∷ []);
        impact = graded h.score "High" "Moderate" "Low";
        confidence_reason = concat (
            articles
            ∷ " articles across "
            ∷ padded 1 sources
            ∷ " source"
            ∷ (if ltb 1 sources then "s" else "")
            ∷ " with "
            ∷ quality
            ∷ "% quality score"
            ∷ []);
      })

module _ {F J St : Type 0} ⦃fl : Float F⦄ (texts : PayloadTexts F J) (query : SignalQuery F St)
    (event_log : Option (SignalEventLog J St)) where
  abbrev pub with_timeline :
      I64 → Option (SignalDetail F) → Mut St SignalError (Option (SignalDetail F))
  with_timeline thread_id none = return none
  with_timeline thread_id (some detail) = do
    merged ← merge_signal_events texts query event_log thread_id detail.timeline
    let dated = record detail { timeline = merged }
    return (some (record dated { analysis = build_analysis texts dated }))

  unfoldable pub build : I64 → Mut St SignalError (Option (SignalDetail F))
  unfolding merge_signal_events build_analysis
  build thread_id = do detail ← query.load_signal_detail thread_id; with_timeline thread_id detail
