-- ===== src/Signals/Query/Order.antt =====
-- crates/intelligence/signal-engine/src/query/detail.rs, `merge_signal_events`: the sort and the dedup.
use sulix_intelligence.Prelude.{
  ◌≡◌, arith, List, [], ◌∷◌, true, false, insert_by, sort_by, Bool-cases, inl, inr,
}
use sulix_intelligence.Signals.Models.{SignalTimelineEvent}
use sulix_intelligence.Signals.Query.Detail.{same_event, dedup_after, newer}

module _ {F : Type 0} where
  -- The first event of the list, if there is one, is not newer than the given one.
  abbrev pub NotNewerFrom : SignalTimelineEvent F → List (SignalTimelineEvent F) → Type 0
  NotNewerFrom a [] = Unit
  NotNewerFrom a (b ∷ bs) = (newer b a ≡ false) × NotNewerFrom b bs

  abbrev pub IsSorted : List (SignalTimelineEvent F) → Type 0
  IsSorted [] = Unit
  IsSorted (a ∷ es) = NotNewerFrom a es

  -- After the given event: no event is newer than its predecessor, or the same event.
  abbrev pub ContinuesFrom : SignalTimelineEvent F → List (SignalTimelineEvent F) → Type 0
  ContinuesFrom a [] = Unit
  ContinuesFrom a (b ∷ bs) = (newer b a ≡ false) × (same_event b a ≡ false) × ContinuesFrom b bs

  not_both : (a b : SignalTimelineEvent F) → newer a b ≡ true → newer b a ≡ false
  not_both a b h = ground arith

  newer-between :
      (a b c : SignalTimelineEvent F) → newer b a ≡ false → newer c b ≡ false → newer c a ≡ false
  newer-between a b c h k = ground arith

  NotNewerFrom-trans :
      (a b : SignalTimelineEvent F) (es : List (SignalTimelineEvent F))
      → newer b a ≡ false
      → NotNewerFrom b es
      → NotNewerFrom a es
  NotNewerFrom-trans a b [] h k = tt
  NotNewerFrom-trans a b (c ∷ es) h (k, ks) = (newer-between a b c h k, ks)

  insert_by-NotNewerFrom :
      (p x : SignalTimelineEvent F) (es : List (SignalTimelineEvent F))
      → newer x p ≡ false
      → NotNewerFrom p es
      → NotNewerFrom p (insert_by newer x es)
  insert_by-NotNewerFrom p x [] h k = (h, tt)
  insert_by-NotNewerFrom p x (y ∷ es) h (k, ks) = elim (Bool-cases (newer y x)) [
    | inl after ↦ rw after (k, insert_by-NotNewerFrom y x es (not_both y x after) ks)
    | inr here ↦ rw here (h, (here, ks))
  ]

  insert_by-IsSorted :
      (x : SignalTimelineEvent F) (es : List (SignalTimelineEvent F))
      → IsSorted es
      → IsSorted (insert_by newer x es)
  insert_by-IsSorted x [] k = tt
  insert_by-IsSorted x (y ∷ es) k = elim (Bool-cases (newer y x)) [
    | inl after ↦ rw after (insert_by-NotNewerFrom y x es (not_both y x after) k)
    | inr here ↦ rw here (here, k)
  ]

  pub sort_by-IsSorted : (es : List (SignalTimelineEvent F)) → IsSorted (sort_by newer es)
  sort_by-IsSorted [] = tt
  sort_by-IsSorted (x ∷ es) = insert_by-IsSorted x (sort_by newer es) (sort_by-IsSorted es)

  pub dedup_after-ContinuesFrom :
      (a : SignalTimelineEvent F) (es : List (SignalTimelineEvent F))
      → NotNewerFrom a es
      → ContinuesFrom a (dedup_after same_event a es)
  dedup_after-ContinuesFrom a [] k = tt
  dedup_after-ContinuesFrom a (x ∷ es) (k, ks) = elim (Bool-cases (same_event x a)) [
    | inl same ↦ rw same (dedup_after-ContinuesFrom a es (NotNewerFrom-trans a x es k ks))
    | inr other ↦ rw other (k, other, dedup_after-ContinuesFrom x es ks)
  ]
