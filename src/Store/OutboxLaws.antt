-- ===== src/Store/OutboxLaws.antt =====
-- crates/store/src/memory/backend.rs, `OutboxStore`: sequences of calls on the outbox, from an empty one on.
use sulix_intelligence.Prelude.{
  I64, ◌≡◌, refl, ap, sym, subst, arith, List, [], ◌∷◌, All, All-append, update_first, ◌==◌, ok,
}
use sulix_intelligence.Store.PipelineRows.{OutboxEntry, NewOutbox}
use sulix_intelligence.Store.Memory.{MemoryStore}
use sulix_intelligence.Store.Memory.Outbox.{
  is_exhausted, insert_outbox, mark_outbox_archived, mark_outbox_failed,
}

-- The calls that write to the outbox.
pub data OutboxCall : Type 0 where
  insert : NewOutbox → OutboxCall
  archived failed : I64 → OutboxCall

-- An entry that no failure has been counted for.
abbrev pub IsUntried : OutboxEntry → Type 0
IsUntried e = e.retry_count ≡ 0

pub no_exhausted :
    (id : I64) (f : OutboxEntry → OutboxEntry) (es : List OutboxEntry)
    → All IsUntried es
    → update_first (is_exhausted id) f es ≡ es
no_exhausted id f [] h = refl
no_exhausted id f (e ∷ es) h = ground (arith, no_exhausted id f es h.1)

archive-All :
    (id : I64) (es : List OutboxEntry)
    → All IsUntried es
    → All IsUntried (update_first (λ e. e.id == id) (λ e. record e { status = "archived" }) es)
archive-All id [] h = tt
archive-All id (e ∷ es) h = ground (arith, archive-All id es h.1)

module _ {F : Type 0} where
  unfoldable pub outbox_call : OutboxCall → MemoryStore F → MemoryStore F
  unfolding insert_outbox mark_outbox_archived mark_outbox_failed
  outbox_call (insert entry) s = (insert_outbox entry s).1
  outbox_call (archived id) s = (mark_outbox_archived id s).1
  outbox_call (failed id) s = (mark_outbox_failed id s).1

  unfoldable pub outbox_calls : List OutboxCall → MemoryStore F → MemoryStore F
  unfolding outbox_call
  outbox_calls [] s = s
  outbox_calls (c ∷ cs) s = outbox_calls cs (outbox_call c s)

  pub mark_outbox_failed-untried :
      (id : I64) (s : MemoryStore F) → All IsUntried s.outbox → mark_outbox_failed id s ≡ (ok tt, s)
  unfolding mark_outbox_failed
  mark_outbox_failed-untried id s h =
      ap (λ es. (ok tt, record s { outbox = es })) (no_exhausted id _ s.outbox h)

  outbox_call-All :
      (c : OutboxCall) (s : MemoryStore F)
      → All IsUntried s.outbox
      → All IsUntried (outbox_call c s).outbox
  unfolding outbox_call insert_outbox mark_outbox_archived mark_outbox_failed
  outbox_call-All (insert entry) s h = All-append IsUntried s.outbox _ h (refl, tt)
  outbox_call-All (archived id) s h = archive-All id s.outbox h
  outbox_call-All (failed id) s h = subst (All IsUntried) (sym (no_exhausted id _ s.outbox h)) h

  outbox_calls-All :
      (cs : List OutboxCall) (s : MemoryStore F)
      → All IsUntried s.outbox
      → All IsUntried (outbox_calls cs s).outbox
  unfolding outbox_calls
  outbox_calls-All [] s h = h
  outbox_calls-All (c ∷ cs) s h = outbox_calls-All cs (outbox_call c s) (outbox_call-All c s h)

  -- Whatever calls are made on an empty outbox, marking an entry as failed then changes nothing.
  pub mark_outbox_failed-idle :
      (cs : List OutboxCall) (id : I64) (s : MemoryStore F)
      → s.outbox ≡ []
      → mark_outbox_failed id (outbox_calls cs s) ≡ (ok tt, outbox_calls cs s)
  mark_outbox_failed-idle cs id s h =
      mark_outbox_failed-untried id (outbox_calls cs s) (outbox_calls-All cs s (rw (h) tt))
