-- ===== src/Infra/ReflectionRecovery.antt =====
-- crates/worker-entry/src/jobs/reflection.rs, the recovery of stale reflections, with the query of
-- crates/store/src/d1/reflection/crud.rs, over the in-memory store.
use Prim.Native.String.{String, ◌++◌ as text_append}
use sulix_intelligence.Prelude.{
  I64, ◌≡◌, refl, sym, ap, ◌∙◌, arith, subst, List, [], ◌∷◌, ◌++◌, Option, none, some, Bool, true,
  false, ◌&&◌, any, find, filterb, filterb-append, take, ◌==◌, ==_iff, str_eq, lt_i64, get, values,
  update_value, HashMap, Float, ok, err, add_i64,
}
use sulix_intelligence.Store.DecisionRows.{Decision}
use sulix_intelligence.Store.PipelineRows.{Reflection, UpdateReflection}
use sulix_intelligence.Store.Memory.{MemoryStore}
use sulix_intelligence.Store.Memory.Decisions.{has_id}
use sulix_intelligence.Store.Memory.Reflections.{
  new_row, updated_row, update_reflection, get_reflection_by_decision,
}
use sulix_intelligence.Reflection.Types.{
  ReflectionJob, ReflectionContext, reflection_error_text, already_tracked,
}
use sulix_intelligence.Reflection.Ports.{Services, Texts}
use sulix_intelligence.Reflection.Context.{context_of}
use sulix_intelligence.Reflection.Engine.{execute_at}
use sulix_intelligence.Infra.ReflectionRepository.{is_open, create, update, reflection_repository}
use sulix_intelligence.Infra.ReflectionRuns.{
  leased_row, leased, stored_facts, execute_at-unavailable, execute_at-leased,
}
use sulix_intelligence.Infra.ReflectionRows.{
  has_row_id, UniqueIds, get-update_value, insert-new, append-UniqueIds,
}

-- `lease_until < now`, which does not hold for NULL.
abbrev pub is_past : I64 → Option I64 → Bool
is_past now none = false
is_past now (some lease) = lt_i64 lease now

module _ {F : Type 0} where
  abbrev pub is_stale : I64 → Reflection F → Bool
  is_stale now r = str_eq r.status "generating" && is_past now r.lease_until

  abbrev pub stale_generating_reflections : I64 → MemoryStore F → List (Reflection F)
  stale_generating_reflections now s = take 10 (filterb (is_stale now) (values s.reflections))

  abbrev pub expired_update : Reflection F → UpdateReflection F
  expired_update r = record {
    id = r.id;
    status = "failed";
    result = none;
    quality_score = none;
    artifact_key = none;
    lessons_count = none;
    rules_count = none;
    retry_count = some (add_i64 r.retry_count 1);
    last_error = some "lease_expired";
    started_at = none;
    lease_until = none;
  }

  abbrev pub expire_all : List (Reflection F) → MemoryStore F → MemoryStore F
  unfolding update_reflection
  expire_all [] s = s
  expire_all (r ∷ rs) s = expire_all rs (update_reflection (expired_update r) s).1

  -- The first step of `process_pending_reflections`; the results of the updates are dropped.
  unfoldable pub recover_stale : I64 → MemoryStore F → MemoryStore F
  unfolding update_reflection
  recover_stale now s = expire_all (stale_generating_reflections now s) s

  -- The row of an expired lease.
  abbrev pub expired_row : Reflection F → Reflection F
  expired_row r = record r {
    status = "failed";
    retry_count = add_i64 r.retry_count 1;
    last_error = some "lease_expired";
    updated_at = 1000000;
  }

  update_last :
      (d id : I64) (f : Reflection F → Reflection F) (v : Reflection F)
      (m : HashMap I64 (Reflection F))
      → any (has_row_id id) (values m) ≡ false
      → (v.id == id) ≡ true
      → update_value (has_row_id id) f (m ++ (d, v) ∷ []) ≡ m ++ (d, f v) ∷ []
  update_last d id f v [] h k = rw k refl
  update_last d id f v ((j, w) ∷ m) h k = ground (arith, update_last d id f v m)

  values-append :
      (m : HashMap I64 (Reflection F)) (d : I64) (v : Reflection F)
      → values (m ++ (d, v) ∷ []) ≡ values m ++ v ∷ []
  values-append [] d v = refl
  values-append ((j, w) ∷ m) d v = ap (◌∷◌ w) (values-append m d v)

  leased-reflections :
      (job : ReflectionJob) (now : I64) (s : MemoryStore F)
      → get ◌==◌ job.decision_id s.reflections ≡ none
      → any (has_row_id s.next_reflection_id) (values s.reflections) ≡ false
      → (leased job now s).reflections
        ≡ s.reflections ++ (job.decision_id, leased_row job now s) ∷ []
  unfolding update update_reflection updated_row new_row
  leased-reflections job now s untracked fresh =
      rw (insert-new job.decision_id _ s.reflections untracked) (
        update_last job.decision_id s.next_reflection_id _ _ s.reflections fresh
          ((==_iff s.next_reflection_id s.next_reflection_id).1 refl))

  stale-leased :
      (job : ReflectionJob) (now late : I64) (s : MemoryStore F)
      → get ◌==◌ job.decision_id s.reflections ≡ none
      → any (has_row_id s.next_reflection_id) (values s.reflections) ≡ false
      → filterb (is_stale late) (values s.reflections) ≡ []
      → lt_i64 (add_i64 now 900) late ≡ true
      → stale_generating_reflections late (leased job now s) ≡ leased_row job now s ∷ []
  unfolding new_row
  stale-leased job now late s untracked fresh others past =
      let row = leased_row job now s in
      let own : filterb (is_stale late) (row ∷ []) ≡ row ∷ [] = rw past refl in
      let all : filterb (is_stale late) (values (leased job now s).reflections) ≡ row ∷ [] =
        ap (λ m. filterb (is_stale late) (values m)) (leased-reflections job now s untracked fresh)
        ∙ ap (filterb (is_stale late)) (values-append s.reflections job.decision_id row)
        ∙ filterb-append (is_stale late) (values s.reflections) (row ∷ [])
        ∙ ap (λ rs. rs ++ filterb (is_stale late) (row ∷ [])) others
        ∙ own in
      ap (take 10) all

  recovered-row :
      (job : ReflectionJob) (now late : I64) (s : MemoryStore F)
      → get ◌==◌ job.decision_id s.reflections ≡ none
      → UniqueIds s.reflections
      → any (has_row_id s.next_reflection_id) (values s.reflections) ≡ false
      → filterb (is_stale late) (values s.reflections) ≡ []
      → lt_i64 (add_i64 now 900) late ≡ true
      → get ◌==◌ job.decision_id (leased job now s).reflections ≡ some (leased_row job now s)
      → get ◌==◌ job.decision_id (recover_stale late (leased job now s)).reflections
        ≡ some (expired_row (leased_row job now s))
  unfolding recover_stale update_reflection updated_row new_row
  recovered-row job now late s untracked unique fresh others past tracked =
      let row = leased_row job now s in
      let distinct : UniqueIds (leased job now s).reflections =
        subst UniqueIds (sym (leased-reflections job now s untracked fresh))
          (append-UniqueIds job.decision_id row s.reflections unique fresh) in
      ap (λ rs. get ◌==◌ job.decision_id (expire_all rs (leased job now s)).reflections)
        (stale-leased job now late s untracked fresh others past)
      ∙ get-update_value job.decision_id (updated_row (expired_update row))
          (leased job now s).reflections row distinct tracked

module _ {F : Type 0} ⦃fl : Float F⦄ (texts : Texts F) where
  create-expired :
      (id : I64) (name : String) (s : MemoryStore F) (job : ReflectionJob) (now : I64)
      (t : MemoryStore F)
      → get ◌==◌ id t.reflections ≡ some (expired_row (leased_row job now s))
      → (create id name t).0 ≡ ok s.next_reflection_id
  unfolding create is_open get_reflection_by_decision new_row
  create-expired id name s job now t tracked = rw tracked refl

  -- On a decision that has a row, a sufficient context and no reflection row, in a store whose reflection rows have
  -- distinct ids, all other than the next one, and none of which is stale by then: a run whose generator fails without
  -- a write is an error, but the reflection row stays "generating", without the error, so that a further run on that
  -- store, whatever the services do by then, is refused and changes nothing. Once the lease of 900 seconds is past,
  -- the recovery of stale rows marks the row failed, with "lease_expired" as its error and one attempt counted, and
  -- the next run opens the same row again.
  pub execute_at-recovered :
      (services later : Services F (MemoryStore F)) (job again : ReflectionJob)
      (now then_now late : I64) (e name : String) (s : MemoryStore F) (d : Decision F)
      → get ◌==◌ job.decision_id s.reflections ≡ none
      → UniqueIds s.reflections
      → any (has_row_id s.next_reflection_id) (values s.reflections) ≡ false
      → find (has_id job.decision_id) s.decisions ≡ some d
      → fl.lt (context_of (stored_facts s d)).completeness_score (fl.ratio 4 10) ≡ false
      → ((c : ReflectionContext F) (t : MemoryStore F) → services.generate c t ≡ (err e, t))
      → again.decision_id ≡ job.decision_id
      → filterb (is_stale late) (values s.reflections) ≡ []
      → lt_i64 (add_i64 now 900) late ≡ true
      → let repo = reflection_repository texts in
        let s' = (execute_at texts repo services job now s).1 in
        let s'' = recover_stale late s' in
        ((execute_at texts repo services job now s).0
          ≡ err (text_append "LLM generation failed: " e))
        × (get ◌==◌ job.decision_id s'.reflections ≡ some (leased_row job now s))
        × (execute_at texts repo later again then_now s' ≡ (
          err (
              text_append "create_reflection failed: "
                (reflection_error_text (already_tracked again.decision_id))),
          s',
        ))
        × (get ◌==◌ job.decision_id s''.reflections ≡ some (expired_row (leased_row job now s)))
        × ((create job.decision_id name s'').0 ≡ ok s.next_reflection_id)
  execute_at-recovered services later job again now then_now late e name s d untracked unique fresh
        found sufficient down same others past =
      let (failed, kept, refused) =
        execute_at-unavailable texts services later job again now then_now e s d untracked unique
          fresh found sufficient down same in
      let run = execute_at-leased texts services job now e s d untracked found sufficient down in
      let tracked = ap (λ r. get ◌==◌ job.decision_id r.1.reflections) (sym run) ∙ kept in
      let row =
        ap (λ r. get ◌==◌ job.decision_id (recover_stale late r.1).reflections) run
        ∙ recovered-row job now late s untracked unique fresh others past tracked in
      (
        failed,
        kept,
        refused,
        row,
        create-expired job.decision_id name s job now
            (recover_stale late
              (execute_at texts (reflection_repository texts) services job now s).1)
            row,
      )
