-- ===== src/EventStore/Archive/Blocked.antt =====
-- crates/worker-entry/src/jobs/archive.rs: entries that cannot be read are never set aside.
use sulix_intelligence.Prelude.{
  ℕ, zero, suc, ◌≡◌, refl, ap, ◌∙◌, List, [], ◌∷◌, All, none, true, false, take, starts_with,
}
use sulix_intelligence.Store.PipelineRows.{OutboxEntry}
use sulix_intelligence.Store.Memory.{MemoryStore}
use sulix_intelligence.Store.Memory.Outbox.{drain_outbox}
use sulix_intelligence.Store.OutboxLaws.{IsUntried, mark_outbox_failed-untried}
use sulix_intelligence.ObjectStore.{ObjectStore}
use sulix_intelligence.EventStore.Backend.{EnvelopeJson}
use sulix_intelligence.EventStore.Archive.{
  handle, handle_event_outbox, archive_entry, archive_entries, archive_outbox,
}
use sulix_intelligence.EventStore.Archive.Progress.{pending, drained-ok, archive_runs}

-- An event entry whose payload is not an envelope.
abbrev pub IsStuck : {J : Type 0} → EnvelopeJson J → OutboxEntry → Type 0
IsStuck json e = (starts_with e.object_type "event:" ≡ true) × (json.from_text e.payload ≡ none)

module _ {J F B : Type 0} (json : EnvelopeJson J) (objects : ObjectStore B) where
  archive_entry-stuck :
      (e : OutboxEntry) (s : MemoryStore F) (b : B)
      → IsStuck json e
      → All IsUntried s.outbox
      → archive_entry json objects e (s, b) ≡ (s, b)
  unfolding archive_entry
  archive_entry-stuck e s b (event, unread) h =
      let refused : handle_event_outbox json objects e (s, b) ≡ (false, (s, b)) =
        rw (handle_event_outbox, unread) refl in
      let handled : handle json objects e (s, b) ≡ (false, (s, b)) = rw event refused in
      rw (archive_entry, handled) (ap (λ r. (r.1, b)) (mark_outbox_failed-untried e.id s h))

  archive_entries-stuck :
      (es : List OutboxEntry) (s : MemoryStore F) (b : B)
      → All (IsStuck json) es
      → All IsUntried s.outbox
      → archive_entries json objects es (s, b) ≡ (s, b)
  unfolding archive_entries
  archive_entries-stuck [] s b k h = refl
  archive_entries-stuck (e ∷ es) s b k h =
      ap (archive_entries json objects es) (archive_entry-stuck e s b k.0 h)
      ∙ archive_entries-stuck es s b k.1 h

  archive_outbox-stuck :
      (s : MemoryStore F) (b : B)
      → All (IsStuck json) (take 100 (pending s.outbox))
      → All IsUntried s.outbox
      → archive_outbox json objects (s, b) ≡ (s, b)
  unfolding archive_outbox drain_outbox
  archive_outbox-stuck s b k h =
      drained-ok json objects (take 100 (pending s.outbox)) (s, b)
      ∙ archive_entries-stuck (take 100 (pending s.outbox)) s b k h

  -- Where the first hundred pending entries are events whose payload is not an envelope, and no entry has a failure
  -- counted for it, any number of runs leave the store and the archive as they were.
  pub archive_runs-blocked :
      (k : ℕ) (s : MemoryStore F) (b : B)
      → All (IsStuck json) (take 100 (pending s.outbox))
      → All IsUntried s.outbox
      → archive_runs json objects k (s, b) ≡ (s, b)
  archive_runs-blocked zero s b k h = refl
  archive_runs-blocked (suc n) s b k h =
      ap (archive_runs json objects n) (archive_outbox-stuck s b k h)
      ∙ archive_runs-blocked n s b k h
