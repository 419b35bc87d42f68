-- ===== src/Decision/Status.antt =====
-- crates/decision-engine/src/status.rs: the status of a decision and its legal transitions.
use sulix_intelligence.Prelude.{ℕ, ◌<◌, ◌≡◌, ◌≢◌, ◌↔◌, ◌⊎◌, Bool, true, false, arith}

pub data DecisionStatus : Type 0 where
  draft proposed approved executing completed invalidated : DecisionStatus

unfoldable pub can_transition_to : DecisionStatus → DecisionStatus → Bool
can_transition_to DecisionStatus.draft DecisionStatus.proposed = true
can_transition_to DecisionStatus.proposed DecisionStatus.approved = true
can_transition_to DecisionStatus.proposed DecisionStatus.invalidated = true
can_transition_to DecisionStatus.approved DecisionStatus.executing = true
can_transition_to DecisionStatus.executing DecisionStatus.completed = true
can_transition_to DecisionStatus.executing DecisionStatus.invalidated = true
can_transition_to _ _ = false

-- The derived `PartialEq`.
unfoldable pub status_eq : DecisionStatus → DecisionStatus → Bool
status_eq draft draft = true
status_eq proposed proposed = true
status_eq approved approved = true
status_eq executing executing = true
status_eq completed completed = true
status_eq invalidated invalidated = true
status_eq _ _ = false

pub status_eq_iff : (s t : DecisionStatus) → (status_eq s t ≡ true) ↔ (s ≡ t)
unfolding status_eq
status_eq_iff s t = ground arith

pub status_eq_refl : (s : DecisionStatus) → status_eq s s ≡ true
unfolding status_eq
status_eq_refl s = ground arith

pub status_eq-other : (s t : DecisionStatus) → s ≢ t → status_eq s t ≡ false
unfolding status_eq
status_eq-other s t h = ground arith

-- The position of a status along the lifecycle.
abbrev pub rank : DecisionStatus → ℕ
rank draft = 0
rank proposed = 1
rank approved = 2
rank executing = 3
rank completed = 4
rank invalidated = 4

abbrev pub IsTerminal : DecisionStatus → Type 0
IsTerminal s = (s ≡ completed) ⊎ (s ≡ invalidated)

-- A legal transition goes forward, so the transition graph has no cycle.
pub can_transition_to-rank : (s t : DecisionStatus) → can_transition_to s t ≡ true → rank s < rank t
unfolding can_transition_to
can_transition_to-rank s t h = ground arith

pub can_transition_to-IsTerminal :
    (s t : DecisionStatus) → IsTerminal s → can_transition_to s t ≡ false
unfolding can_transition_to
can_transition_to-IsTerminal s t h = ground arith
