-- ===== src/Infra/ReflectionRuns.antt =====
-- Runs of the reflection engine over the in-memory store: crates/intelligence/reflection-engine/src/service.rs with
-- crates/infrastructure/src/reflection_repository.rs behind it.
use Prim.Native.String.{String, ◌++◌}
use sulix_intelligence.Prelude.{
  I64, ◌≡◌, refl, ◌∙◌, sym, none, some, false, any, find, filterb, ◌==◌, get, insert, values, Float,
  ok, err, add_i64, ==_iff, find-holds, get-insert_same,
}
use sulix_intelligence.Store.DecisionRows.{Decision}
use sulix_intelligence.Store.PipelineRows.{Reflection}
use sulix_intelligence.Store.Memory.{MemoryStore}
use sulix_intelligence.Store.Memory.Decisions.{has_id}
use sulix_intelligence.Store.Memory.Reflections.{
  new_row, updated_row, get_reflection_by_decision, update_reflection, create_reflection,
}
use sulix_intelligence.Reflection.Types.{
  ReflectionJob, ReflectionContext, ReflectionDraft, DecisionFacts, reflection_error_text,
  already_tracked,
}
use sulix_intelligence.Reflection.Ports.{Services, Texts}
use sulix_intelligence.Reflection.Context.{context_of, build}
use sulix_intelligence.Reflection.Validation.{validate}
use sulix_intelligence.Reflection.Engine.{
  job_id, lease_update, judge, generation, reflect, execute_at, mark_failed, join,
}
use sulix_intelligence.Infra.ReflectionRepository.{
  is_open, create, update, find_latest_for_decision, reflection_repository, facts_of,
  load_decision_context,
}
use sulix_intelligence.Infra.ReflectionRows.{
  has_row_id, UniqueIds, get-update_value, insert-UniqueIds,
}

module _ {F : Type 0} where
  -- The row that a first run leases, and the store with it.
  abbrev pub leased_row : ReflectionJob → I64 → MemoryStore F → Reflection F
  leased_row job now s =
      record (new_row s.next_reflection_id (record {
        decision_id = job.decision_id;
        outcome_id = none;
        job_id = some (job_id job.decision_id now);
        status = "generating";
      })) { started_at = some now; lease_until = some (add_i64 now 900) }

  -- The facts that the store holds on a decision.
  abbrev pub stored_facts : MemoryStore F → Decision F → DecisionFacts F
  stored_facts s d =
      facts_of d (filterb (λ o. o.decision_id == d.id) s.outcomes)
        (filterb (λ e. e.decision_id == d.id) s.evaluations)

  abbrev first_row : ReflectionJob → I64 → MemoryStore F → Reflection F
  first_row job now s = new_row s.next_reflection_id (record {
    decision_id = job.decision_id;
    outcome_id = none;
    job_id = some (job_id job.decision_id now);
    status = "generating";
  })

  -- The store when a first run builds its context.
  abbrev pub leased : ReflectionJob → I64 → MemoryStore F → MemoryStore F
  leased job now s =
      (update (lease_update s.next_reflection_id now) (record s {
        next_reflection_id = add_i64 s.next_reflection_id 1;
        reflections = insert ◌==◌ job.decision_id (first_row job now s) s.reflections;
      })).1

  load_decision_context-row :
      (id : I64) (d : Decision F) (s : MemoryStore F)
      → find (has_id id) s.decisions ≡ some d
      → d.id ≡ id
      → load_decision_context id s ≡ (ok (some (stored_facts s d)), s)
  unfolding load_decision_context
  load_decision_context-row id d s found named = rw (found, sym named)

module _ {F : Type 0} ⦃fl : Float F⦄ (texts : Texts F) where
  -- A run for a decision whose reflection row is not a failed one with attempts left is refused, and the
  -- store is as it was.
  pub execute_at-tracked :
      (services : Services F (MemoryStore F)) (job : ReflectionJob) (now : I64) (s : MemoryStore F)
      (row : Reflection F)
      → get ◌==◌ job.decision_id s.reflections ≡ some row
      → is_open row ≡ false
      → execute_at texts (reflection_repository texts) services job now s ≡ (
        err (
            "create_reflection failed: "
            ++ reflection_error_text (already_tracked job.decision_id)),
        s,
      )
  unfolding execute_at reflection_repository create get_reflection_by_decision
  execute_at-tracked services job now s row tracked closed = rw (tracked, closed)

  begins :
      (services : Services F (MemoryStore F)) (job : ReflectionJob) (now : I64) (s : MemoryStore F)
      → get ◌==◌ job.decision_id s.reflections ≡ none
      → execute_at texts (reflection_repository texts) services job now s
        ≡ reflect texts
            (reflection_repository texts)
            services
            job
            now
            s.next_reflection_id
            (leased job now s)
  unfolding execute_at reflection_repository create get_reflection_by_decision create_reflection
  begins services job now s untracked = rw (untracked)

  leased-row :
      (job : ReflectionJob) (now : I64) (s : MemoryStore F)
      → get ◌==◌ job.decision_id s.reflections ≡ none
      → UniqueIds s.reflections
      → any (has_row_id s.next_reflection_id) (values s.reflections) ≡ false
      → get ◌==◌ job.decision_id (leased job now s).reflections ≡ some (leased_row job now s)
  unfolding update update_reflection updated_row new_row
  leased-row job now s untracked unique fresh =
      get-update_value job.decision_id _
        (insert ◌==◌ job.decision_id (first_row job now s) s.reflections) (first_row job now s)
        (insert-UniqueIds job.decision_id (first_row job now s) s.reflections unique untracked
          fresh)
        (get-insert_same job.decision_id (first_row job now s) s.reflections)

  -- The generator fails: the two error handlers write nothing.
  reflect-unavailable :
      (services : Services F (MemoryStore F)) (job : ReflectionJob) (now id : I64) (e : String)
      (s : MemoryStore F) (d : Decision F)
      → find (has_id job.decision_id) s.decisions ≡ some d
      → d.id ≡ job.decision_id
      → fl.lt (context_of (stored_facts s d)).completeness_score (fl.ratio 4 10) ≡ false
      → services.generate (context_of (stored_facts s d)) s ≡ (err e, s)
      → reflect texts (reflection_repository texts) services job now id s
        ≡ (err ("LLM generation failed: " ++ e), s)
  unfolding reflect build generation reflection_repository
  reflect-unavailable services job now id e s d found named sufficient down =
      rw (load_decision_context-row job.decision_id d s found named) (rw (sufficient) (rw (down)))

  -- The whole run.
  pub execute_at-leased :
      (services : Services F (MemoryStore F)) (job : ReflectionJob) (now : I64) (e : String)
      (s : MemoryStore F) (d : Decision F)
      → get ◌==◌ job.decision_id s.reflections ≡ none
      → find (has_id job.decision_id) s.decisions ≡ some d
      → fl.lt (context_of (stored_facts s d)).completeness_score (fl.ratio 4 10) ≡ false
      → ((c : ReflectionContext F) (t : MemoryStore F) → services.generate c t ≡ (err e, t))
      → execute_at texts (reflection_repository texts) services job now s
        ≡ (err ("LLM generation failed: " ++ e), leased job now s)
  unfolding update update_reflection
  execute_at-leased services job now e s d untracked found sufficient down =
      begins services job now s untracked
      ∙ reflect-unavailable services job now s.next_reflection_id e (leased job now s) d found
          ((==_iff d.id job.decision_id).0
            (find-holds (has_id job.decision_id) s.decisions d found))
          sufficient (down _ _)

  leased_row-closed :
      (job : ReflectionJob) (now : I64) (s : MemoryStore F) → is_open (leased_row job now s) ≡ false
  unfolding is_open new_row
  leased_row-closed job now s = refl

  -- On a decision that has a row, a sufficient context and no reflection row, in a store whose reflection
  -- rows have distinct ids, all other than the next one: a run whose generator fails without a write is an
  -- error, but the reflection row stays "generating", so that a further run for the decision on that very store is
  -- refused and changes nothing.
  pub execute_at-unavailable :
      (services later : Services F (MemoryStore F)) (job again : ReflectionJob) (now then_now : I64)
      (e : String) (s : MemoryStore F) (d : Decision F)
      → get ◌==◌ job.decision_id s.reflections ≡ none
      → UniqueIds s.reflections
      → any (has_row_id s.next_reflection_id) (values s.reflections) ≡ false
      → find (has_id job.decision_id) s.decisions ≡ some d
      → fl.lt (context_of (stored_facts s d)).completeness_score (fl.ratio 4 10) ≡ false
      → ((c : ReflectionContext F) (t : MemoryStore F) → services.generate c t ≡ (err e, t))
      → again.decision_id ≡ job.decision_id
      → let repo = reflection_repository texts in
        let s' = (execute_at texts repo services job now s).1 in
        ((execute_at texts repo services job now s).0 ≡ err ("LLM generation failed: " ++ e))
        × (get ◌==◌ job.decision_id s'.reflections ≡ some (leased_row job now s))
        × (execute_at texts repo later again then_now s' ≡ (
          err (
              "create_reflection failed: "
              ++ reflection_error_text (already_tracked again.decision_id)),
          s',
        ))
  unfolding update update_reflection updated_row
  execute_at-unavailable services later job again now then_now e s d untracked unique fresh found
        sufficient down same =
      let run = execute_at-leased services job now e s d untracked found sufficient down in
      let row = leased-row job now s untracked unique fresh in
      rw (run) (
        refl,
        row,
        execute_at-tracked later again then_now (leased job now s) (leased_row job now s)
            (rw (same) row) (leased_row-closed job now s),
      )

  -- In a store whose reflection rows have distinct ids, an invalid draft is the error of its run, and the
  -- row of the decision is failed, with the error and one attempt more.
  pub judge-invalid :
      (services : Services F (MemoryStore F)) (job : ReflectionJob) (now : I64)
      (draft : ReflectionDraft F) (s : MemoryStore F) (row : Reflection F)
      → get ◌==◌ job.decision_id s.reflections ≡ some row
      → UniqueIds s.reflections
      → (validate texts draft).valid ≡ false
      → let msg = "validation_failed: " ++ join "; " (validate texts draft).errors in
        let s' = (judge texts (reflection_repository texts) services job now row.id draft s).1 in
        ((judge texts (reflection_repository texts) services job now row.id draft s).0 ≡ err msg)
        × (get ◌==◌ job.decision_id s'.reflections
            ≡ some (record row {
              status = "failed";
              retry_count = add_i64 row.retry_count 1;
              last_error = some msg;
              updated_at = 1000000;
            }))
  unfolding judge mark_failed reflection_repository find_latest_for_decision
      get_reflection_by_decision update update_reflection updated_row
  judge-invalid services job now draft s row tracked unique invalid =
      rw (invalid)
        (rw (tracked) (refl, get-update_value job.decision_id _ s.reflections row unique tracked))
