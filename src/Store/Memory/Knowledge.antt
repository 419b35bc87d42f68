-- ===== src/Store/Memory/Knowledge.antt =====
-- crates/store/src/memory/backend.rs: claims, observations, confidence events, sources and signals.
use Prim.Native.String.{String}
use mathlib.Core.Option
use sulix_intelligence.Prelude.{
  ℕ, I64, add_i64, lt_i64, List, [], ◌∷◌, ◌++◌, Option, none, some, Bool, true, ◌&&◌, filterb, find,
  find_last, sort_by, get, insert, remove, values, str_eq, ◌==◌, Mut, ok, get_or,
}
use sulix_intelligence.Store.ContentRows.{
  Source, NewSource, Claim, NewClaim, ConfidenceEvent, NewConfidenceEvent,
}
use sulix_intelligence.Store.SignalRows.{SignalEvent}
use sulix_intelligence.Store.Error.{StoreError}
use sulix_intelligence.Store.Memory.{MemoryStore}
use sulix_intelligence.Store.Memory.Decisions.{stamp, is_some_id}

-- `filter.is_none_or(|t| field == t)`
abbrev pub is_none_or_eq : Option String → String → Bool
is_none_or_eq none field = true
is_none_or_eq (some t) field = str_eq field t

abbrev pub is_about : {F : Type 0} → String → String → ConfidenceEvent F → Bool
is_about entity_type entity_id ev =
    str_eq ev.entity_type entity_type && str_eq ev.entity_id entity_id

module _ {F : Type 0} where
  unfoldable pub save_claim : NewClaim → Mut (MemoryStore F) StoreError I64
  save_claim c s =
      let id = s.next_claim_id in
      let row : Claim = record {
        id = id;
        statement = c.statement;
        claim_type = c.claim_type;
        reasoning = c.reasoning;
        falsification = c.falsification;
        status = get_or c.status "active";
        article_id = c.article_id;
        observation_id = c.observation_id;
        created_at = stamp;
        updated_at = stamp;
      } in
      (ok id, record s { next_claim_id = add_i64 id 1; claims = s.claims ++ row ∷ [] })

  unfoldable pub find_claim : I64 → Mut (MemoryStore F) StoreError (Option Claim)
  find_claim id s = (ok (find (λ c. c.id == id) s.claims), s)

  unfoldable pub list_claims : Option String → ℕ → Mut (MemoryStore F) StoreError (List Claim)
  list_claims (some status) limit s = (ok (filterb (λ c. str_eq c.status status) s.claims), s)
  list_claims none limit s = (ok s.claims, s)

  -- Observations are not kept; the id comes from the claims' counter.
  unfoldable pub save_observation : Mut (MemoryStore F) StoreError I64
  save_observation s = (ok s.next_claim_id, record s { next_claim_id = add_i64 s.next_claim_id 1 })

  -- The event carries the confidence that the last event of its entity recorded.
  unfoldable pub append_confidence : NewConfidenceEvent F → Mut (MemoryStore F) StoreError I64
  append_confidence e s =
      let id = s.next_confidence_event_id in
      let row : ConfidenceEvent F = record {
        id = id;
        entity_type = e.entity_type;
        entity_id = e.entity_id;
        previous_confidence =
            Option.map (λ (ev : ConfidenceEvent F). ev.confidence)
              (find_last (is_about e.entity_type e.entity_id) s.confidence_events);
        confidence = e.confidence;
        reason = e.reason;
        trigger_event = e.trigger_event;
        factors_json = e.factors_json;
        created_at = stamp;
      } in
      (
        ok id,
        record s {
          next_confidence_event_id = add_i64 id 1;
          confidence_events = s.confidence_events ++ row ∷ [];
        },
      )

  unfoldable pub list_confidence_history :
      String → String → Mut (MemoryStore F) StoreError (List (ConfidenceEvent F))
  list_confidence_history entity_type entity_id s = (
    ok (
        sort_by (λ a b. lt_i64 a.created_at b.created_at)
          (filterb (is_about entity_type entity_id) s.confidence_events)),
    s,
  )

  unfoldable pub save_source : NewSource F → Mut (MemoryStore F) StoreError I64
  save_source n s =
      let id = s.next_source_id in
      let row : Source F = record {
        id = id;
        source_type = n.source_type;
        feed_id = n.feed_id;
        name = n.name;
        tier = n.tier;
        policy = n.policy;
        license = n.license;
        license_detail = n.license_detail;
        attribution = n.attribution;
        trust_score = n.trust_score;
        retention_days = n.retention_days;
        verified = n.verified;
        notes = n.notes;
        created_at = stamp;
        updated_at = stamp;
      } in
      (ok id, record s { next_source_id = add_i64 id 1; sources = insert ◌==◌ id row s.sources })

  unfoldable pub find_source : I64 → Mut (MemoryStore F) StoreError (Option (Source F))
  find_source id s = (ok (get ◌==◌ id s.sources), s)

  unfoldable pub find_source_by_feed : I64 → Mut (MemoryStore F) StoreError (Option (Source F))
  find_source_by_feed feed_id s =
      (ok (find (λ r. is_some_id feed_id r.feed_id) (values s.sources)), s)

  unfoldable pub delete_source : I64 → Mut (MemoryStore F) StoreError (Unit {0})
  delete_source id s = (ok tt, record s { sources = remove ◌==◌ id s.sources })

  unfoldable pub list_sources :
      Option String → Option String → ℕ → ℕ → Mut (MemoryStore F) StoreError (List (Source F))
  list_sources tier policy limit offset s = (
    ok (
        filterb (λ r. is_none_or_eq tier r.tier && is_none_or_eq policy r.policy)
          (values s.sources)),
    s,
  )

  unfoldable pub insert_signal_event :
      I64 → String → Option String → Mut (MemoryStore F) StoreError (Unit {0})
  insert_signal_event thread_id event_type payload s =
      let id = s.next_signal_event_id in
      let row : SignalEvent = record {
        id = id;
        thread_id = thread_id;
        event_type = event_type;
        payload = payload;
        created_at = stamp;
      } in
      (
        ok tt,
        record s {
          next_signal_event_id = add_i64 id 1;
          signal_events = s.signal_events ++ row ∷ [];
        },
      )

  unfoldable pub load_signal_events : I64 → ℕ → Mut (MemoryStore F) StoreError (List SignalEvent)
  load_signal_events thread_id limit s =
      (ok (filterb (λ e. e.thread_id == thread_id) s.signal_events), s)

  unfoldable pub append_signal_instance_v2 : Mut (MemoryStore F) StoreError I64
  append_signal_instance_v2 s = (
    ok s.next_signal_event_id,
    record s { next_signal_event_id = add_i64 s.next_signal_event_id 1 },
  )
