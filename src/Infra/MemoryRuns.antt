-- ===== src/Infra/MemoryRuns.antt =====
-- The consolidation run over the in-memory store.
use sulix_intelligence.Prelude.{
  ℕ, I64, sub_i64, ◌≡◌, refl, List, [], ◌∷◌, All, filterb, false, ◌&&◌, str_eq, Float, arith,
  Bool-cases, inl, inr, ok,
}
use sulix_intelligence.Store.PipelineRows.{EventIndexEntry}
use sulix_intelligence.Store.Memory.{MemoryStore}
use sulix_intelligence.Store.Memory.Outbox.{find_event_keys}
use sulix_intelligence.MemoryEngine.Types.{MemoryTexts, Cache}
use sulix_intelligence.MemoryEngine.Worker.{
  is_recent, last_time, last_run, process_pending, extract_candidates,
}
use sulix_intelligence.Infra.MemoryRepository.{promotion_repository}

-- The entry is of an aggregate, which has an id.
abbrev pub IsNamed : EventIndexEntry → Type 0
IsNamed e = str_eq e.aggregate_id "" ≡ false

none_unnamed :
    (es : List EventIndexEntry)
    → All IsNamed es
    → filterb (λ e. str_eq e.aggregate_type "reflection" && str_eq e.aggregate_id "") es ≡ []
none_unnamed [] h = refl
none_unnamed (e ∷ es) h = ground (arith, none_unnamed es h.1)

module _ {F G K : Type 0} ⦃f64 : Float F⦄ ⦃f32 : Float G⦄ (texts : MemoryTexts F G)
    (cache : Cache K) where
  no_candidates :
      (since : I64) (s : MemoryStore F)
      → All IsNamed s.event_archive
      → extract_candidates promotion_repository since 50 s ≡ (ok [], s)
  unfolding extract_candidates promotion_repository find_event_keys
  no_candidates since s h = rw (none_unnamed s.event_archive h)

  -- Where every entry of the event index has an aggregate id, a consolidation run changes nothing: the
  -- repository asks for the reflection events with an empty aggregate id. The cache is as it was, too.
  pub process_pending-idle :
      (now : I64) (clock : ℕ → I64) (s : MemoryStore F) (k : K)
      → All IsNamed s.event_archive
      → process_pending texts promotion_repository cache now clock (s, k) ≡ (s, k)
  unfolding process_pending
  process_pending-idle now clock s k h =
      elim (Bool-cases (is_recent now (last_time texts.trim (cache.get last_run k)))) [
        | inl recent ↦ rw recent refl
        | inr due ↦ rw due (rw (no_candidates (sub_i64 now 604800) s h) refl)
      ]
