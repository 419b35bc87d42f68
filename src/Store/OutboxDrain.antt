-- ===== src/Store/OutboxDrain.antt =====
-- crates/store/src/memory/backend.rs, `OutboxStore`: what is drained after an insertion and after an archiving.
use sulix_intelligence.Prelude.{
  ℕ, I64, ◌≤◌, ◌<◌, ◌≡◌, refl, ap, ◌∙◌, arith, List, [], ◌∷◌, ◌++◌, Bool, false, not, any, filterb,
  filterb-append, take, length, length-append, update_first, ◌==◌, ok, zero, suc,
}
use sulix_intelligence.Store.PipelineRows.{OutboxEntry, NewOutbox}
use sulix_intelligence.Store.Memory.{MemoryStore}
use sulix_intelligence.Store.Memory.Decisions.{stamp}
use sulix_intelligence.Store.Memory.Outbox.{
  is_pending, insert_outbox, drain_outbox, mark_outbox_archived,
}

pub take-all {ℓ} : {A : Type ℓ} → (n : ℕ) (xs : List A) → length xs ≤ n → take n xs ≡ xs
take-all zero [] h = refl
take-all zero (x ∷ xs) h = absurd (omega arith)
take-all (suc n) [] h = refl
take-all (suc n) (x ∷ xs) h = ap (◌∷◌ x) (take-all n xs (omega arith))

abbrev pub has_entry_id : I64 → OutboxEntry → Bool
has_entry_id id e = e.id == id

-- No two entries have the same id.
abbrev pub UniqueEntries : List OutboxEntry → Type 0
UniqueEntries [] = Unit
UniqueEntries (e ∷ es) = (any (has_entry_id e.id) es ≡ false) × UniqueEntries es

-- The entry that an insertion makes.
abbrev pub queued : I64 → NewOutbox → OutboxEntry
queued id entry = record {
  id = id;
  object_type = entry.object_type;
  object_key = entry.object_key;
  payload = entry.payload;
  status = "pending";
  created_at = stamp;
  retry_count = 0;
}

pub absent :
    (id : I64) (es : List OutboxEntry)
    → any (has_entry_id id) es ≡ false
    → filterb (λ e. not (e.id == id)) (filterb is_pending es) ≡ filterb is_pending es
absent id [] h = refl
absent id (e ∷ es) h = ground (arith, absent id es)

pub pending_archived :
    (id : I64) (es : List OutboxEntry)
    → UniqueEntries es
    → filterb is_pending (update_first (has_entry_id id) (λ e. record e { status = "archived" }) es)
      ≡ filterb (λ e. not (e.id == id)) (filterb is_pending es)
pending_archived id [] h = refl
pending_archived id (e ∷ es) h = ground (arith, pending_archived id es h.1, absent id es)

module _ {F : Type 0} where
  -- The queue is first in, first out: with room for one entry more, a drain after an insertion gives what a
  -- drain gave before, and then the new entry.
  pub drain_outbox-insert_outbox :
      (entry : NewOutbox) (limit : ℕ) (s : MemoryStore F)
      → length (filterb is_pending s.outbox) < limit
      → (drain_outbox limit (insert_outbox entry s).1).0
        ≡ ok (filterb is_pending s.outbox ++ queued s.next_outbox_id entry ∷ [])
  unfolding drain_outbox insert_outbox
  drain_outbox-insert_outbox entry limit s h =
      let new = queued s.next_outbox_id entry ∷ [] in
      let pending = filterb is_pending s.outbox in
      ap (λ es. ok (take limit es)) (filterb-append is_pending s.outbox new)
      ∙ ap ok (take-all limit (pending ++ new) (omega (arith, length-append pending new)))

  -- In an outbox without two entries of one id, a drain after an archiving gives the other pending
  -- entries, in their order and up to its limit.
  pub drain_outbox-mark_outbox_archived :
      (id : I64) (limit : ℕ) (s : MemoryStore F)
      → UniqueEntries s.outbox
      → (drain_outbox limit (mark_outbox_archived id s).1).0
        ≡ ok (take limit (filterb (λ e. not (e.id == id)) (filterb is_pending s.outbox)))
  unfolding drain_outbox mark_outbox_archived
  drain_outbox-mark_outbox_archived id limit s h =
      ap (λ es. ok (take limit es)) (pending_archived id s.outbox h)
