-- ===== src/Signals/Engine/Report.antt =====
-- crates/intelligence/signal-engine/src/lib.rs, `SignalEngine::run`: the counters of the report.
use Prim.Native.String.{String}
use sulix_intelligence.Prelude.{
  ℕ, suc, ◌+◌, I64, ◌≡◌, refl, arith, subst, List, [], ◌∷◌, length, Option, none, some, Result, ok,
  err, Float, >>=-run, str_eq, if◌then◌else◌,
}
use sulix_intelligence.Signals.Models.{
  SignalCandidate, SignalUpsertResult, SignalMutation, created, updated, SignalError,
}
use sulix_intelligence.Signals.Ports.{
  SignalPersistence, SignalEventLog, SignalDiscovery, SemanticQuery, SignalSource, DiscoveryContext,
}
use sulix_intelligence.Signals.Engine.{
  SignalEngineReport, empty_report, SignalJson, collect, is_changed, is_created, count_created,
  score_changed_event, created_event, record_candidate, process_candidate, process_all, run,
}
use sulix_intelligence.Signals.Engine.Counters.{
  IsReliable, Counts, one_if, count_created-Adds, write_event-adds, created_event-adds,
  append_instance-adds, Counts-from, Counts-none, Counts-transition, Counts-more,
}

-- What the store answers for a candidate: whether its thread is new, and the fingerprint of its latest instance.
abbrev pub Answer : Type 0 → Type 0
Answer F = SignalMutation × Result SignalError (Option (F × String))

-- The answers that tell of a new thread.
abbrev pub new_threads : {F : Type 0} → List (Answer F) → ℕ
new_threads [] = 0
new_threads ((created, r) ∷ answers) = 1 + new_threads answers
new_threads ((updated, r) ∷ answers) = new_threads answers

module _ {F : Type 0} ⦃fl : Float F⦄ where
  -- One where the fingerprint is missing or cannot be read, or where its score is more than 0.01 away or its trend is
  -- another.
  abbrev pub change : SignalCandidate F → Result SignalError (Option (F × String)) → ℕ
  change c (err e) = 1
  change c (ok none) = 1
  change c (ok (some (score, trend))) =
      if fl.lt (fl.ratio 1 100) (fl.abs (fl.sub score c.score))
      then 1
      else if str_eq trend c.trend
      then 0
      else 1

  abbrev pub changes : List (SignalCandidate F) → List (Answer F) → ℕ
  changes [] answers = 0
  changes (c ∷ cs) [] = 0
  changes (c ∷ cs) ((m, r) ∷ answers) = change c r + changes cs answers

  is_changed-change :
      (c : SignalCandidate F) (r : Result SignalError (Option (F × String)))
      → one_if (is_changed c r) ≡ change c r
  is_changed-change c (err e) = refl
  is_changed-change c (ok none) = refl
  is_changed-change c (ok (some (score, trend))) = ground arith

  new_threads-add :
      (m : SignalMutation) (r : Result SignalError (Option (F × String)))
      (answers : List (Answer F))
      → one_if (is_created m) + new_threads answers ≡ new_threads ((m, r) ∷ answers)
  new_threads-add created r answers = refl
  new_threads-add updated r answers = omega arith

module _ {F J St : Type 0} ⦃fl : Float F⦄ (json : SignalJson F J) (p : SignalPersistence F St)
    (log : Option (SignalEventLog J St)) (now : I64) where
  -- These are the answers for the candidates, one after the other from the state.
  abbrev pub AreAnswers :
      List (SignalCandidate F) → SignalEngineReport → St → List (Answer F) → Type 0
  AreAnswers [] a s [] = Unit
  AreAnswers [] a s (x ∷ xs) = ⊥
  AreAnswers (c ∷ cs) a s [] = ⊥
  AreAnswers (c ∷ cs) a s ((m, r) ∷ xs) =
      (u : SignalUpsertResult) × (s1 : St) × (b : SignalEngineReport) × (t : St)
      × (p.upsert_signal_thread c.signal_key c.anchor_entity_id c.title c.status c.discovery_method
            c.discovery_score s
          ≡ (ok u, s1))
      × (u.mutation ≡ m)
      × ((p.latest_instance_fingerprint u.id s1).0 ≡ r)
      × (process_candidate json p log now c a s ≡ (ok b, t))
      × AreAnswers cs b t xs

  record_candidate-Counts :
      (c : SignalCandidate F) (u : SignalUpsertResult) (a : SignalEngineReport) (s : St)
      → IsReliable p
      → (b : SignalEngineReport) × (t : St) × (record_candidate json p log now c u a s ≡ (ok b, t))
        × Counts log 1
            (one_if (is_created u.mutation))
            (one_if (is_changed c (p.latest_instance_fingerprint u.id s).0))
            a
            b
  record_candidate-Counts c u a s ok_p =
      let (r, s1) = p.latest_instance_fingerprint u.id s in
      let counted = count_created u.mutation a in
      let (b, t, run, by) = append_instance-adds p (is_changed c r) c u.id counted s1 ok_p in
      let (b', t', run', by') =
        write_event-adds log (score_changed_event json p log now c u.id) b t in
      let (b'', t'', run'', by'') =
        created_event-adds (is_created u.mutation) log (created_event json p log now c u.id) b'
          t' in
      let k = count_created-Adds u.mutation a in
      (
        b'',
        t'',
        rw run (rw run' run''),
        Counts-from log (is_created u.mutation) (is_changed c r) a counted b b' b'' k by by' by'',
      )

  process_all-Counts :
      (cs : List (SignalCandidate F)) (a : SignalEngineReport) (s : St)
      → IsReliable p
      → (xs : List (Answer F)) × (b : SignalEngineReport) × (t : St) × (process_all json p log now
            cs a s
          ≡ (ok b, t))
        × AreAnswers cs a s xs
        × Counts log (length cs) (new_threads xs) (changes cs xs) a b
  unfolding process_all
  process_all-Counts [] a s ok_p = ([], a, s, refl, tt, Counts-none log a)
  process_all-Counts (c ∷ cs) a s ok_p =
      let (u, s1, upserted) =
        ok_p.upserts c.signal_key c.anchor_entity_id c.title c.status c.discovery_method
          c.discovery_score s in
      let (b, t, recorded, counts) = record_candidate-Counts c u a s1 ok_p in
      let one : process_candidate json p log now c a s ≡ (ok b, t) = rw upserted recorded in
      let r = (p.latest_instance_fingerprint u.id s1).0 in
      let (xs, b', t', all, answered, counts') = process_all-Counts cs b t ok_p in
      let k = one_if (is_created u.mutation) in
      let m = one_if (is_changed c r) in
      let total : Counts log (suc (length cs)) (k + new_threads xs) (m + changes cs xs) a b' =
        Counts-more log (length cs) k m (new_threads xs) (changes cs xs) a b b' counts counts' in
      (
        (u.mutation, r) ∷ xs,
        b',
        t',
        >>=-run (process_candidate json p log now c a) (process_all json p log now cs) s t b
            (ok b', t') one all,
        (u, s1, b, t, upserted, refl, refl, one, answered),
        subst (λ i. Counts log (suc (length cs)) i (change c r + changes cs xs) a b')
            (new_threads-add u.mutation r xs)
            (subst (λ i. Counts log (suc (length cs)) (k + new_threads xs) (i + changes cs xs) a b')
              (is_changed-change c r) total),
      )

  -- Where the upserts, the appends and the lifecycle update succeed, whatever the sources, the fingerprints and the
  -- event log do, a run succeeds. By the answers that the store gives for the candidates in turn, its report counts a
  -- new thread for each upsert that created one; a new instance for each candidate whose fingerprint is missing or
  -- unreadable, is more than 0.01 away in the score or has another trend; with a log an event for each candidate and
  -- one more for each new thread, without a log none; and one lifecycle update.
  pub run-Counts :
      (discovery : SignalDiscovery F St) (semantic : Option (SemanticQuery F St))
      (sources : List (SignalSource F St)) (s : St)
      → IsReliable p
      → let ctx : DiscoveryContext F St = record {
        discovery = discovery;
        semantic = semantic;
        now = now;
      } in
        let candidates = (collect ctx sources s).0 in
        (xs : List (Answer F)) × (b : SignalEngineReport) × (t : St) × (run json p log now discovery
            semantic sources s
          ≡ (ok b, t))
        × AreAnswers candidates empty_report (collect ctx sources s).1 xs
        × Counts log (length candidates) (new_threads xs) (changes candidates xs) empty_report b
        × (b.lifecycle_transitions ≡ 1)
  unfolding run
  run-Counts discovery semantic sources s ok_p =
      let found =
        collect (record { discovery = discovery; semantic = semantic; now = now }) sources s in
      let (xs, b, t, all, answered, counts) =
        process_all-Counts found.0 empty_report found.1 ok_p in
      let (x, t', aged) = ok_p.updates now t in
      (
        xs,
        record b { lifecycle_transitions = 1 },
        t',
        rw (run, all) (rw aged refl),
        answered,
        Counts-transition log counts,
        refl,
      )
