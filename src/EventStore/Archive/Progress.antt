-- ===== src/EventStore/Archive/Progress.antt =====
-- crates/worker-entry/src/jobs/archive.rs: where every write succeeds, each run archives the next hundred entries.
use Prim.Native.String.{String}
use sulix_intelligence.Prelude.{
  ℕ, zero, suc, I64, ◌+◌, ◌*◌, ◌≤◌, ◌≡◌, refl, sym, ap, ◌∙◌, subst, arith, List, [], ◌∷◌, ◌++◌, All,
  some, ok, true, false, not, any, filterb, take, drop, length, update_first, starts_with, ◌==◌,
  Bool-cases, inl, inr,
}
use sulix_intelligence.Store.PipelineRows.{OutboxEntry}
use sulix_intelligence.Store.Memory.{MemoryStore}
use sulix_intelligence.Store.Memory.Outbox.{is_pending, drain_outbox, mark_outbox_archived}
use sulix_intelligence.Store.EventIndex.{insert_event_index, has_event_id}
use sulix_intelligence.Store.OutboxDrain.{UniqueEntries, has_entry_id, pending_archived}
use sulix_intelligence.ObjectStore.{ObjectStore, ObjectRef}
use sulix_intelligence.EventStore.Types.{EventEnvelope}
use sulix_intelligence.EventStore.Backend.{EnvelopeJson}
use sulix_intelligence.EventStore.Archive.{
  handle, handle_event_outbox, indexed, drained, archive_entry, archive_entries, archive_outbox,
}

abbrev pub pending : List OutboxEntry → List OutboxEntry
pending = filterb is_pending

archive_one : I64 → List OutboxEntry → List OutboxEntry
archive_one id = update_first (has_entry_id id) (λ e. record e { status = "archived" })

any-archive_one :
    (id other : I64) (es : List OutboxEntry)
    → any (has_entry_id other) (archive_one id es) ≡ any (has_entry_id other) es
unfolding archive_one
any-archive_one id other [] = refl
any-archive_one id other (e ∷ es) = ground (arith, any-archive_one id other es)

archive_one-UniqueEntries :
    (id : I64) (es : List OutboxEntry) → UniqueEntries es → UniqueEntries (archive_one id es)
unfolding archive_one
archive_one-UniqueEntries id [] h = tt
archive_one-UniqueEntries id (e ∷ es) h =
    ground (arith, archive_one-UniqueEntries id es h.1, any-archive_one id e.id es)

any-pending :
    (id : I64) (es : List OutboxEntry)
    → any (has_entry_id id) es ≡ false
    → any (has_entry_id id) (pending es) ≡ false
any-pending id [] h = refl
any-pending id (e ∷ es) h = ground (arith, any-pending id es)

pending-UniqueEntries : (es : List OutboxEntry) → UniqueEntries es → UniqueEntries (pending es)
pending-UniqueEntries [] h = tt
pending-UniqueEntries (e ∷ es) h =
    ground (arith, pending-UniqueEntries es h.1, any-pending e.id es h.0)

filterb-absent :
    (id : I64) (es : List OutboxEntry)
    → any (has_entry_id id) es ≡ false
    → filterb (λ e. not (e.id == id)) es ≡ es
filterb-absent id [] h = refl
filterb-absent id (e ∷ es) h = ground (arith, filterb-absent id es)

filterb-head :
    (e : OutboxEntry) (rest : List OutboxEntry)
    → UniqueEntries (e ∷ rest)
    → filterb (λ x. not (x.id == e.id)) (e ∷ rest) ≡ rest
filterb-head e rest u = ground (arith, filterb-absent e.id rest u.0)

-- Without the head of the pending entries, the others are left.
pending-archive_head :
    (e : OutboxEntry) (rest es : List OutboxEntry)
    → UniqueEntries es
    → pending es ≡ e ∷ rest
    → pending (archive_one e.id es) ≡ rest
unfolding archive_one
pending-archive_head e rest es u h =
    pending_archived e.id es u
    ∙ ap (filterb (λ x. not (x.id == e.id))) h
    ∙ filterb-head e rest (subst UniqueEntries h (pending-UniqueEntries es u))

module _ {A : Type 0} where
  take-drop : (n : ℕ) (xs : List A) → take n xs ++ drop n xs ≡ xs
  take-drop zero xs = refl
  take-drop (suc n) [] = refl
  take-drop (suc n) (x ∷ xs) = ap (◌∷◌ x) (take-drop n xs)

  All-take : (P : A → Type 0) (n : ℕ) (xs : List A) → All P xs → All P (take n xs)
  All-take P zero xs h = tt
  All-take P (suc n) [] h = tt
  All-take P (suc n) (x ∷ xs) h = (h.0, All-take P n xs h.1)

  All-drop : (P : A → Type 0) (n : ℕ) (xs : List A) → All P xs → All P (drop n xs)
  All-drop P zero xs h = h
  All-drop P (suc n) [] h = tt
  All-drop P (suc n) (x ∷ xs) h = All-drop P n xs h.1

  drop-nil : (n : ℕ) → drop {A = A} n [] ≡ []
  drop-nil zero = refl
  drop-nil (suc n) = refl

  drop-drop : (m n : ℕ) (xs : List A) → drop m (drop n xs) ≡ drop (n + m) xs
  drop-drop m zero xs = ap (λ k. drop k xs) (omega arith)
  drop-drop m (suc n) [] = drop-nil m ∙ sym (drop-nil (suc n + m))
  drop-drop m (suc n) (x ∷ xs) =
      let next : suc (n + m) ≡ suc n + m = omega arith in
      drop-drop m n xs ∙ ap (λ k. drop k (x ∷ xs)) next

  drop-all : (n : ℕ) (xs : List A) → length xs ≤ n → drop n xs ≡ []
  drop-all zero [] h = refl
  drop-all zero (x ∷ xs) h = absurd (omega arith)
  drop-all (suc n) [] h = refl
  drop-all (suc n) (x ∷ xs) h = drop-all n xs (omega arith)

module _ {J : Type 0} (json : EnvelopeJson J) where
  -- The job can archive the entry: an event has an envelope as its payload.
  abbrev pub IsArchivable : OutboxEntry → Type 0
  IsArchivable e =
      starts_with e.object_type "event:" ≡ true
      → (event : EventEnvelope J) × (json.from_text e.payload ≡ some event)

module _ {B : Type 0} (objects : ObjectStore B) where
  -- Every write to the object archive succeeds.
  abbrev pub AlwaysWrites : Type 0
  AlwaysWrites =
      (key object : String) (b : B)
      → (r : ObjectRef) × (c : B) × (objects.write_object key object b ≡ (ok r, c))

module _ {J F B : Type 0} (json : EnvelopeJson J) (objects : ObjectStore B) where
  -- The index row leaves the outbox as it is.
  indexed-outbox :
      (e : OutboxEntry) (event : EventEnvelope J) (s : MemoryStore F)
      → (indexed json objects e event s).outbox ≡ s.outbox
  unfolding insert_event_index
  indexed-outbox e event s = elim (Bool-cases (any (has_event_id event.event_id) s.event_archive)) [
    | inl known ↦ rw known refl
    | inr new ↦ rw new refl
  ]

  archive_entry-archives :
      (e : OutboxEntry) (s : MemoryStore F) (b : B)
      → AlwaysWrites objects
      → IsArchivable json e
      → (archive_entry json objects e (s, b)).0.outbox ≡ archive_one e.id s.outbox
  unfolding archive_entry archive_one mark_outbox_archived
  archive_entry-archives e s b w h =
      let (r, c, written) = w e.object_key e.payload b in
      elim (Bool-cases (starts_with e.object_type "event:")) [
        | inl event ↦
            let (envelope, parsed) = h event in
            let stored : handle_event_outbox json objects e (s, b)
                ≡ (true, (indexed json objects e envelope s, c)) =
              rw (handle_event_outbox, parsed) (rw written refl) in
            let handled : handle json objects e (s, b)
                ≡ (true, (indexed json objects e envelope s, c)) =
              rw event stored in
            rw (archive_entry, handled) (ap (archive_one e.id) (indexed-outbox e envelope s))
        | inr other ↦
            let handled : handle json objects e (s, b) ≡ (true, (s, c)) =
              rw other (rw written refl) in
            rw (archive_entry, handled) refl
      ]

  archive_entries-pending :
      (es later : List OutboxEntry) (s : MemoryStore F) (b : B)
      → AlwaysWrites objects
      → All (IsArchivable json) es
      → UniqueEntries s.outbox
      → pending s.outbox ≡ es ++ later
      → (pending (archive_entries json objects es (s, b)).0.outbox ≡ later)
        × UniqueEntries (archive_entries json objects es (s, b)).0.outbox
  unfolding archive_entries
  archive_entries-pending [] later s b w h u p = (p, u)
  archive_entries-pending (e ∷ es) later s b w h u p =
      let t = archive_entry json objects e (s, b) in
      let one = archive_entry-archives e s b w h.0 in
      archive_entries-pending es later t.0 t.1 w h.1
        (subst UniqueEntries (sym one) (archive_one-UniqueEntries e.id s.outbox u))
        (ap pending one ∙ pending-archive_head e (es ++ later) s.outbox u p)

  pub drained-ok :
      (es : List OutboxEntry) (t : MemoryStore F × B)
      → drained json objects (ok es) t ≡ archive_entries json objects es t
  unfolding archive_entries
  drained-ok [] t = refl
  drained-ok (e ∷ es) t = refl

  -- One run: the next hundred pending entries are archived, or all if there are fewer.
  archive_outbox-pending :
      (s : MemoryStore F) (b : B)
      → AlwaysWrites objects
      → All (IsArchivable json) (pending s.outbox)
      → UniqueEntries s.outbox
      → (pending (archive_outbox json objects (s, b)).0.outbox ≡ drop 100 (pending s.outbox))
        × UniqueEntries (archive_outbox json objects (s, b)).0.outbox
  unfolding archive_outbox drain_outbox
  archive_outbox-pending s b w h u =
      let next = take 100 (pending s.outbox) in
      subst
        (λ (t : MemoryStore F × B).
          (pending t.0.outbox ≡ drop 100 (pending s.outbox)) × UniqueEntries t.0.outbox)
        (sym (drained-ok next (s, b)))
        (archive_entries-pending next (drop 100 (pending s.outbox)) s b w
          (All-take (IsArchivable json) 100 (pending s.outbox) h) u
          (sym (take-drop 100 (pending s.outbox))))

  -- So many runs of the job.
  abbrev pub archive_runs : ℕ → MemoryStore F × B → MemoryStore F × B
  archive_runs zero t = t
  archive_runs (suc k) t = archive_runs k (archive_outbox json objects t)

  archive_runs-pending :
      (k : ℕ) (s : MemoryStore F) (b : B)
      → AlwaysWrites objects
      → All (IsArchivable json) (pending s.outbox)
      → UniqueEntries s.outbox
      → pending (archive_runs k (s, b)).0.outbox ≡ drop (100 * k) (pending s.outbox)
  archive_runs-pending zero s b w h u =
      let start : 0 ≡ 100 * 0 = omega arith in ap (λ n. drop n (pending s.outbox)) start
  archive_runs-pending (suc k) s b w h u =
      let t = archive_outbox json objects (s, b) in
      let (after, unique) = archive_outbox-pending s b w h u in
      let next : 100 + 100 * k ≡ 100 * suc k = omega arith in
      archive_runs-pending k t.0 t.1 w
        (subst (All (IsArchivable json)) (sym after)
          (All-drop (IsArchivable json) 100 (pending s.outbox) h))
        unique
      ∙ ap (drop (100 * k)) after
      ∙ drop-drop (100 * k) 100 (pending s.outbox)
      ∙ ap (λ n. drop n (pending s.outbox)) next

  -- Where every write succeeds, every pending event has an envelope as its payload and no two entries have one
  -- id, so many runs leave nothing pending as there are hundreds of pending entries, begun ones included.
  pub archive_runs-done :
      (k : ℕ) (s : MemoryStore F) (b : B)
      → AlwaysWrites objects
      → All (IsArchivable json) (pending s.outbox)
      → UniqueEntries s.outbox
      → length (pending s.outbox) ≤ 100 * k
      → pending (archive_runs k (s, b)).0.outbox ≡ []
  archive_runs-done k s b w h u enough =
      archive_runs-pending k s b w h u ∙ drop-all (100 * k) (pending s.outbox) enough
