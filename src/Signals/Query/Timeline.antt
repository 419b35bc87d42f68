-- ===== src/Signals/Query/Timeline.antt =====
-- crates/intelligence/signal-engine/src/query/detail.rs, `merge_signal_events`: the merged timeline.
use sulix_intelligence.Prelude.{
  ℕ, I64, ◌+◌, ◌%◌, ◌^◌, ◌≤◌, ◌≡◌, refl, ◌∙◌, arith, List, [], ◌∷◌, ◌++◌, All, Has, map, some, Bool,
  true, ok, err, Result, insert_by, sort_by, Float, ==_iff, eq_iff, ◌⊎◌, ◌↔◌, Bool-cases, inl, inr,
  true_not_false,
}
use sulix_intelligence.Ids.{signal_id}
use sulix_intelligence.Signals.Models.{SignalTimelineEvent, SignalEventRecord, SignalError}
use sulix_intelligence.Signals.Ports.{SignalEvent, SignalEventLog}
use sulix_intelligence.Signals.Query.{SignalQuery}
use sulix_intelligence.Signals.Query.Detail.{
  PayloadTexts, same_event, dedup_after, dedup_by, newer, merge_timeline, logged_event, described,
  stored_events, merge_signal_events,
}
use sulix_intelligence.Signals.Query.Order.{
  IsSorted, ContinuesFrom, sort_by-IsSorted, dedup_after-ContinuesFrom,
}

-- The order of timestamps, which are signed.
abbrev pub rank : I64 → ℕ
rank t = (t + 2 ^ 63) % 2 ^ 64

module _ {F : Type 0} where
  abbrev pub IsSame : SignalTimelineEvent F → SignalTimelineEvent F → Type 0
  IsSame a b = (a.timestamp ≡ b.timestamp) × (a.event_type ≡ b.event_type)

  -- Each event is as old as its predecessor or older, and is not of the same time and type.
  abbrev pub DescendsFrom : SignalTimelineEvent F → List (SignalTimelineEvent F) → Type 0
  DescendsFrom a [] = Unit
  DescendsFrom a (b ∷ bs) =
      (rank b.timestamp ≤ rank a.timestamp) × (¬ IsSame b a) × DescendsFrom b bs

  abbrev pub IsTimeline : List (SignalTimelineEvent F) → Type 0
  IsTimeline [] = Unit
  IsTimeline (a ∷ es) = DescendsFrom a es

  -- The list has an event of that time and type.
  abbrev pub Told : SignalTimelineEvent F → List (SignalTimelineEvent F) → Type 0
  Told e [] = ⊥
  Told e (a ∷ es) = IsSame e a ⊎ Told e es

  -- The result is a timeline, tells every event of the two lists, and has only events of theirs.
  abbrev pub IsMerge : (timeline events merged : List (SignalTimelineEvent F)) → Type 0
  IsMerge timeline events merged =
      IsTimeline merged
      × All (λ e. Told e merged) timeline
      × All (λ e. Told e merged) events
      × All (λ m. Has m (timeline ++ events)) merged

  same_event_iff : (a b : SignalTimelineEvent F) → (same_event a b ≡ true) ↔ IsSame a b
  same_event_iff a b =
      ground (arith, ==_iff a.timestamp b.timestamp, eq_iff a.event_type b.event_type)

  ContinuesFrom-DescendsFrom :
      (a : SignalTimelineEvent F) (es : List (SignalTimelineEvent F))
      → ContinuesFrom a es
      → DescendsFrom a es
  ContinuesFrom-DescendsFrom a [] h = tt
  ContinuesFrom-DescendsFrom a (b ∷ bs) (old, other, more) = (
    ground (arith, old),
    λ same. true_not_false (same_event b a) ((same_event_iff b a).1 same) other,
    ContinuesFrom-DescendsFrom b bs more,
  )

  dedup_by-IsTimeline :
      (es : List (SignalTimelineEvent F)) → IsSorted es → IsTimeline (dedup_by same_event es)
  dedup_by-IsTimeline [] k = tt
  dedup_by-IsTimeline (x ∷ es) k =
      ContinuesFrom-DescendsFrom x (dedup_after same_event x es) (dedup_after-ContinuesFrom x es k)

  insert_by-Told :
      (e x : SignalTimelineEvent F) (es : List (SignalTimelineEvent F))
      → Told e (x ∷ es)
      → Told e (insert_by newer x es)
  insert_by-Told e x [] h = h
  insert_by-Told e x (y ∷ es) h = elim (Bool-cases (newer y x)) [
    | inr here ↦ rw here h
    | inl later ↦ rw later (elim h [
      | inl same ↦ inr (insert_by-Told e x es (inl same))
      | inr (inl same) ↦ inl same
      | inr (inr after) ↦ inr (insert_by-Told e x es (inr after))
    ])
  ]

  sort_by-Told :
      (e : SignalTimelineEvent F) (es : List (SignalTimelineEvent F))
      → Told e es
      → Told e (sort_by newer es)
  sort_by-Told e [] h = h
  sort_by-Told e (x ∷ es) (inl same) = insert_by-Told e x (sort_by newer es) (inl same)
  sort_by-Told e (x ∷ es) (inr later) =
      insert_by-Told e x (sort_by newer es) (inr (sort_by-Told e es later))

  dedup_after-Told :
      (e a : SignalTimelineEvent F) (es : List (SignalTimelineEvent F))
      → Told e (a ∷ es)
      → Told e (a ∷ dedup_after same_event a es)
  dedup_after-Told e a [] h = h
  dedup_after-Told e a (x ∷ es) (inl same) = inl same
  dedup_after-Told e a (x ∷ es) (inr h) = elim (Bool-cases (same_event x a)) [
    | inr other ↦ rw other (inr (dedup_after-Told e x es h))
    | inl double ↦
        let (time, type_) = (same_event_iff x a).0 double in
        rw double (elim h [
          | inl (t, k) ↦ inl (t ∙ time, k ∙ type_)
          | inr later ↦ dedup_after-Told e a es (inr later)
        ])
  ]

  dedup_by-Told :
      (e : SignalTimelineEvent F) (es : List (SignalTimelineEvent F))
      → Told e es
      → Told e (dedup_by same_event es)
  dedup_by-Told e [] h = h
  dedup_by-Told e (x ∷ es) h = dedup_after-Told e x es h

  merge-Told :
      (e : SignalTimelineEvent F) (es : List (SignalTimelineEvent F))
      → Told e es
      → Told e (dedup_by same_event (sort_by newer es))
  merge-Told e es h = dedup_by-Told e (sort_by newer es) (sort_by-Told e es h)

  All-Told :
      (merged es : List (SignalTimelineEvent F))
      → ((e : SignalTimelineEvent F) → Told e es → Told e merged)
      → All (λ e. Told e merged) es
  All-Told merged [] f = tt
  All-Told merged (x ∷ es) f = (f x (inl (refl, refl)), All-Told merged es (λ e h. f e (inr h)))

  Told-left :
      (e : SignalTimelineEvent F) (es fs : List (SignalTimelineEvent F))
      → Told e es
      → Told e (es ++ fs)
  Told-left e [] fs h = absurd h
  Told-left e (x ∷ es) fs (inl same) = inl same
  Told-left e (x ∷ es) fs (inr h) = inr (Told-left e es fs h)

  Told-right :
      (e : SignalTimelineEvent F) (es fs : List (SignalTimelineEvent F))
      → Told e fs
      → Told e (es ++ fs)
  Told-right e [] fs h = h
  Told-right e (x ∷ es) fs h = inr (Told-right e es fs h)

module _ {A : Type 0} (P : A → Type 0) where
  insert_by-All :
      (lt : A → A → Bool) (x : A) (xs : List A) → P x → All P xs → All P (insert_by lt x xs)
  insert_by-All lt x [] h k = (h, tt)
  insert_by-All lt x (y ∷ ys) h (k, ks) = elim (Bool-cases (lt y x)) [
    | inl later ↦ rw later (k, insert_by-All lt x ys h ks)
    | inr here ↦ rw here (h, (k, ks))
  ]

  sort_by-All : (lt : A → A → Bool) (xs : List A) → All P xs → All P (sort_by lt xs)
  sort_by-All lt [] h = tt
  sort_by-All lt (x ∷ xs) (h, hs) = insert_by-All lt x (sort_by lt xs) h (sort_by-All lt xs hs)

  dedup_after-All :
      (same : A → A → Bool) (a : A) (xs : List A) → All P xs → All P (dedup_after same a xs)
  dedup_after-All same a [] h = tt
  dedup_after-All same a (x ∷ xs) (h, hs) = elim (Bool-cases (same x a)) [
    | inl double ↦ rw double (dedup_after-All same a xs hs)
    | inr other ↦ rw other (h, dedup_after-All same x xs hs)
  ]

  dedup_by-All : (same : A → A → Bool) (xs : List A) → All P xs → All P (dedup_by same xs)
  dedup_by-All same [] h = tt
  dedup_by-All same (x ∷ xs) (h, hs) = (h, dedup_after-All same x xs hs)

module _ {A : Type 0} where
  All-Has : (zs xs : List A) → ((a : A) → Has a xs → Has a zs) → All (λ a. Has a zs) xs
  All-Has zs [] f = tt
  All-Has zs (x ∷ xs) f = (f x (inl refl), All-Has zs xs (λ a h. f a (inr h)))

module _ {F : Type 0} where
  merge_timeline-IsMerge :
      (timeline events : List (SignalTimelineEvent F))
      → IsMerge timeline events (merge_timeline timeline events)
  unfolding merge_timeline
  merge_timeline-IsMerge timeline events =
      let all = timeline ++ events in
      let merged = dedup_by same_event (sort_by newer all) in
      (
        dedup_by-IsTimeline (sort_by newer all) (sort_by-IsSorted all),
        All-Told merged timeline (λ e h. merge-Told e all (Told-left e timeline events h)),
        All-Told merged events (λ e h. merge-Told e all (Told-right e timeline events h)),
        dedup_by-All (λ m. Has m all) same_event (sort_by newer all)
            (sort_by-All (λ m. Has m all) newer all (All-Has all all (λ a h. h))),
      )

-- The events that a load of the log gives, none where it fails.
abbrev pub loaded : {E A : Type 0} → Result E (List A) → List A
loaded (ok events) = events
loaded (err e) = []

module _ {F J St : Type 0} ⦃fl : Float F⦄ (texts : PayloadTexts F J) where
  -- What the merge gives, by the events of the log and of the store and by the states after their loads: the merge
  -- with the events of the log if there are any, else with those of the store if there are any, else the timeline.
  abbrev pub IsOutcome :
      List (SignalTimelineEvent F)
      → List (SignalEvent J)
      → List SignalEventRecord
      → (after_log after_store : St) → Result SignalError (List (SignalTimelineEvent F)) × St
      → Type 0
  IsOutcome timeline (e ∷ es) rows s1 s2 out =
      (merged : List (SignalTimelineEvent F)) × (out ≡ (ok merged, s1))
      × IsMerge timeline (map (logged_event texts) (e ∷ es)) merged
  IsOutcome timeline [] (w ∷ ws) s1 s2 out =
      (merged : List (SignalTimelineEvent F)) × (out ≡ (ok merged, s2))
      × IsMerge timeline (map (described texts) (w ∷ ws)) merged
  IsOutcome timeline [] [] s1 s2 out = out ≡ (ok timeline, s2)

  stored_events-IsOutcome :
      (query : SignalQuery F St) (id : I64) (timeline : List (SignalTimelineEvent F))
      (rows : List SignalEventRecord) (s1 s2 : St)
      → query.load_signal_events id 50 s1 ≡ (ok rows, s2)
      → IsOutcome timeline [] rows s1 s2 (stored_events texts query id timeline s1)
  stored_events-IsOutcome query id timeline [] s1 s2 h = rw h refl
  stored_events-IsOutcome query id timeline (w ∷ ws) s1 s2 h = (
    merge_timeline timeline (map (described texts) (w ∷ ws)),
    rw h refl,
    merge_timeline-IsMerge timeline (map (described texts) (w ∷ ws)),
  )

  -- With a log whose load may fail and a store whose load succeeds: the events of the log are merged into the
  -- timeline, or those of the store where the log fails or has none; where neither has any the timeline is given as
  -- it is. A merged timeline goes from the newest event to the oldest with no two neighbours of the same time and
  -- type, tells every event of both, and has no others.
  pub merge_signal_events-IsOutcome :
      (query : SignalQuery F St) (log : SignalEventLog J St) (id : I64)
      (timeline : List (SignalTimelineEvent F)) (answer : Result SignalError (List (SignalEvent J)))
      (rows : List SignalEventRecord) (s s1 s2 : St)
      → log.load (signal_id id) 50 s ≡ (answer, s1)
      → query.load_signal_events id 50 s1 ≡ (ok rows, s2)
      → IsOutcome timeline
          (loaded answer)
          rows
          s1
          s2
          (merge_signal_events texts query (some log) id timeline s)
  unfolding merge_signal_events
  merge_signal_events-IsOutcome query log id timeline (ok (e ∷ es)) rows s s1 s2 h k = (
    merge_timeline timeline (map (logged_event texts) (e ∷ es)),
    rw h refl,
    merge_timeline-IsMerge timeline (map (logged_event texts) (e ∷ es)),
  )
  merge_signal_events-IsOutcome query log id timeline (ok []) rows s s1 s2 h k =
      rw h (stored_events-IsOutcome query id timeline rows s1 s2 k)
  merge_signal_events-IsOutcome query log id timeline (err e) rows s s1 s2 h k =
      rw h (stored_events-IsOutcome query id timeline rows s1 s2 k)
