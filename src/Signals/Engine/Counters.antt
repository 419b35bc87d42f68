-- ===== src/Signals/Engine/Counters.antt =====
-- crates/intelligence/signal-engine/src/lib.rs, `SignalEngine::run`: what each step adds to the counters.
use Prim.Native.String.{String}
use sulix_intelligence.Prelude.{
  ℕ, suc, I64, ap, ◌+◌, ◌≡◌, refl, ◌∙◌, arith, Option, none, some, get_or, ok, Bool, true, false,
  Float, Mut, return, if◌then◌else◌,
}
use sulix_intelligence.Signals.Models.{
  SignalCandidate, SignalError, SignalMutation, created, updated, DiscoveryMethod,
}
use sulix_intelligence.Signals.Ports.{SignalPersistence, SignalEventLog, SignalEvent}
use sulix_intelligence.Signals.Scoring.{score_to_impact}
use sulix_intelligence.Signals.Engine.{
  SignalEngineReport, append_instance, write_event, is_created, count_created, run,
}

-- The method succeeds from every state.
abbrev pub Succeeds : {S E A : Type 0} → Mut S E A → Type 0
Succeeds {S} {E} {A} m = (s : S) → (a : A) × (t : S) × (m s ≡ (ok a, t))

pub record IsReliable {F St : Type 0} (p : SignalPersistence F St) : Type 0 where
  pub upserts :
      (key : String) (anchor : Option I64) (title status : String) (method : DiscoveryMethod)
      (score : Option F)
      → Succeeds (p.upsert_signal_thread key anchor title status method score)
  pub appends :
      (id : I64) (score : F) (impact trend : String) (articles sources : I64) (avg : F)
      (entity : I64)
      → Succeeds (p.append_signal_instance id score impact trend articles sources avg entity)
  pub updates : (now : I64) → Succeeds (p.update_signal_lifecycle now)

-- The events that a log gets for so many writes.
abbrev pub logged : {J St : Type 0} → Option (SignalEventLog J St) → ℕ → ℕ
logged none n = 0
logged (some log) n = n

-- The counters after `n` more candidates, with so many new threads and new instances.
pub record Counts {J St : Type 0} (log : Option (SignalEventLog J St)) (n new_threads instances : ℕ)
    (a b : SignalEngineReport) : Type 0 where
  pub threads_by : b.threads_created ≡ a.threads_created + new_threads
  pub instances_by : b.instances_appended ≡ a.instances_appended + instances
  pub events_by : b.events_written ≡ a.events_written + logged log (n + new_threads)

abbrev pub one_if : Bool → ℕ
one_if b = if b then 1 else 0

-- What a step adds to the counters.
pub record Adds (threads instances events : ℕ) (a b : SignalEngineReport) : Type 0 where
  pub threads_by : b.threads_created ≡ a.threads_created + threads
  pub instances_by : b.instances_appended ≡ a.instances_appended + instances
  pub events_by : b.events_written ≡ a.events_written + events

-- The step succeeds, and adds so much.
abbrev pub StepAdds :
    {St : Type 0}
    → (threads instances events : ℕ) → SignalEngineReport
    → Mut St SignalError SignalEngineReport
    → St
    → Type 0
StepAdds {St} threads instances events a m s =
    (b : SignalEngineReport) × (t : St) × (m s ≡ (ok b, t)) × Adds threads instances events a b

module _ {J St : Type 0} where
  pub write_event-adds :
      (log : Option (SignalEventLog J St)) (event : SignalEvent J) (a : SignalEngineReport) (s : St)
      → StepAdds 0 0 (logged log 1) a (write_event log event a) s
  write_event-adds none event a s = (
    a,
    s,
    refl,
    record { threads_by = omega arith; instances_by = omega arith; events_by = omega arith },
  )
  write_event-adds (some log) event a s = (
    record a { events_written = a.events_written + 1 },
    (log.append event (a.events_written + 1) s).1,
    refl,
    record { threads_by = omega arith; instances_by = omega arith; events_by = omega arith },
  )

  -- The event of a new thread.
  pub created_event-adds :
      (new : Bool) (log : Option (SignalEventLog J St)) (event : SignalEvent J)
      (a : SignalEngineReport) (s : St)
      → StepAdds 0 0
          (if new then logged log 1 else 0)
          a
          (if new then write_event log event a else return a)
          s
  created_event-adds true log event a s = write_event-adds log event a s
  created_event-adds false log event a s = (
    a,
    s,
    refl,
    record { threads_by = omega arith; instances_by = omega arith; events_by = omega arith },
  )

module _ {F St : Type 0} ⦃fl : Float F⦄ (p : SignalPersistence F St) where
  pub append_instance-adds :
      (changed : Bool) (c : SignalCandidate F) (id : I64) (a : SignalEngineReport) (s : St)
      → IsReliable p
      → StepAdds 0 (one_if changed) 0 a (if changed then append_instance p c id a else return a) s
  append_instance-adds false c id a s ok_p = (
    a,
    s,
    refl,
    record { threads_by = omega arith; instances_by = omega arith; events_by = omega arith },
  )
  append_instance-adds true c id a s ok_p =
      let (i, t, run) =
        ok_p.appends id c.score (score_to_impact c.score) c.trend c.article_count c.source_count
          c.avg_score (get_or c.anchor_entity_id 0) s in
      (
        record a { instances_appended = a.instances_appended + 1 },
        t,
        rw run refl,
        record { threads_by = omega arith; instances_by = omega arith; events_by = omega arith },
      )

pub count_created-Adds :
    (m : SignalMutation) (a : SignalEngineReport)
    → Adds (one_if (is_created m)) 0 0 a (count_created m a)
count_created-Adds created a = record {
  threads_by = omega arith;
  instances_by = omega arith;
  events_by = omega arith;
}
count_created-Adds updated a = record {
  threads_by = omega arith;
  instances_by = omega arith;
  events_by = omega arith;
}

regroup : (n k m : ℕ) → suc n + (k + m) ≡ 1 + k + (n + m)
regroup n k m = omega arith

module _ {J St : Type 0} (log : Option (SignalEventLog J St)) where
  logged-one_if :
      (l : Option (SignalEventLog J St)) (new : Bool)
      → logged l (1 + one_if new) ≡ logged l 1 + (if new then logged l 1 else 0)
  logged-one_if none true = omega arith
  logged-one_if none false = omega arith
  logged-one_if (some l) true = omega arith
  logged-one_if (some l) false = omega arith

  pub Counts-from :
      (new changed : Bool) (a b c d e : SignalEngineReport)
      → Adds (one_if new) 0 0 a b
      → Adds 0 (one_if changed) 0 b c
      → Adds 0 0 (logged log 1) c d
      → Adds 0 0 (if new then logged log 1 else 0) d e
      → Counts log 1 (one_if new) (one_if changed) a e
  Counts-from new changed a b c d e ab bc cd de =
      let events = logged-one_if log new in
      record {
        threads_by = omega (arith, ab.threads_by, bc.threads_by, cd.threads_by, de.threads_by);
        instances_by =
            omega (arith, ab.instances_by, bc.instances_by, cd.instances_by, de.instances_by);
        events_by = omega (arith, events, ab.events_by, bc.events_by, cd.events_by, de.events_by);
      }

  logged-add :
      (l : Option (SignalEventLog J St)) (m n : ℕ) → logged l (m + n) ≡ logged l m + logged l n
  logged-add none m n = omega arith
  logged-add (some l) m n = refl

  logged-zero : (l : Option (SignalEventLog J St)) → logged l (0 + 0) ≡ 0
  logged-zero none = refl
  logged-zero (some l) = refl

  pub Counts-none : (a : SignalEngineReport) → Counts log 0 0 0 a a
  Counts-none a = record {
    threads_by = omega arith;
    instances_by = omega arith;
    events_by = omega (arith, logged-zero log);
  }

  -- The lifecycle counter stands apart.
  pub Counts-transition :
      {n k m : ℕ} {a b : SignalEngineReport}
      → Counts log n k m a b
      → Counts log n k m a (record b { lifecycle_transitions = 1 })
  Counts-transition c = record {
    threads_by = c.threads_by;
    instances_by = c.instances_by;
    events_by = c.events_by;
  }

  pub Counts-more :
      (n k m k' m' : ℕ) (a b c : SignalEngineReport)
      → Counts log 1 k m a b
      → Counts log n k' m' b c
      → Counts log (suc n) (k + k') (m + m') a c
  Counts-more n k m k' m' a b c ab bc =
      let split : logged log (suc n + (k + k')) ≡ logged log (1 + k) + logged log (n + k') =
        ap (logged log) (regroup n k k') ∙ logged-add log (1 + k) (n + k') in
      record {
        threads_by = omega (arith, ab.threads_by, bc.threads_by);
        instances_by = omega (arith, ab.instances_by, bc.instances_by);
        events_by = omega (arith, split, ab.events_by, bc.events_by);
      }
