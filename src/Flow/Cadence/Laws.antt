-- ===== src/Flow/Cadence/Laws.antt =====
-- How the cadence of arrivals classifies a flow (src/flow/cadence.rs).
use tinyllb.Prelude.{
  ℕ, suc, ◌+◌, ◌-◌, ◌≤◌, ◌<◌, ◌≡◌, refl, ◌⊎◌, inl, inr, Bool, true, false, ◌&&◌, Option, none, some,
  List, [], ◌∷◌, arith, ◌==◌, ltb, if◌then◌else◌, length, bytes_eq, bytes_beq_iff, bytes_beq, ◌∙◌,
  Option-cases, Bool-cases,
}
use tinyllb.Prelude.Words.{u32_mod, saturating_sub}
use tinyllb.Prelude.Float.{Float}
use tinyllb.Prelude.Table.{lookup, remove, lookup-remove, Distinct}
use tinyllb.Flow.Id.{FlowId}
use tinyllb.Flow.Registry.{Flow, contains}
use tinyllb.Flow.Cadence.{
  CadenceState, cold, interactive, agentic_suspected, agentic_confirmed, priority, PriorityPolicy,
  Cadence, CadenceRegistry, demote, arrive, entry, classify_and_apply, idle_ids, remove_ids,
  reap_idle,
}

-- `config::validate` accepts only such thresholds.
pub record IsValid (p : PriorityPolicy) : Type 0 where
  pub suspected : 1 ≤ p.agentic_suspected_threshold
  pub confirmed : p.agentic_suspected_threshold < p.agentic_confirmed_threshold

-- Continuous arrivals, that is, with no turn boundary, at the given Instants and Unix times.
unfoldable pub continue_all : PriorityPolicy → Cadence → List (ℕ × ℕ) → Cadence
continue_all p c [] = c
continue_all p c ((now, unix) ∷ times) = continue_all p (arrive p c now unix false) times

-- The class after `n` continuous arrivals from the class `s`.
abbrev pub after_run : PriorityPolicy → CadenceState → ℕ → CadenceState
after_run p s n =
    if ltb n p.agentic_suspected_threshold
    then s
    else if ltb n p.agentic_confirmed_threshold
    then agentic_suspected
    else agentic_confirmed

abbrev pub IsPromoted : CadenceState → Type 0
IsPromoted s = (s ≡ cold) ⊎ (s ≡ interactive)

demote-after_run :
    (p : PriorityPolicy) (s : CadenceState) (n : ℕ)
    → IsValid p
    → IsPromoted s
    → demote p (n + 1) (after_run p s n) ≡ after_run p s (n + 1)
unfolding demote
demote-after_run p s n v h = ground arith

-- The state the run has reached, for any count so far.
run_from :
    (p : PriorityPolicy) (s : CadenceState) (c : Cadence) (n : ℕ) (times : List (ℕ × ℕ))
    → IsValid p
    → IsPromoted s
    → n + length times < u32_mod
    → c.continuous_arrival_count ≡ n
    → c.state ≡ after_run p s n
    → ((continue_all p c times).state ≡ after_run p s (n + length times))
      × ((continue_all p c times).continuous_arrival_count ≡ n + length times)
unfolding continue_all
run_from p s c n [] v h b e f = ground arith
run_from p s c n ((now, unix) ∷ times) v h b e f =
    let (ih, count) =
      run_from p s (arrive p c now unix false) (n + 1) times v h (omega arith)
        (unfold arrive in ground arith)
        (unfold arrive in ground (arith, demote-after_run p s n v h)) in
    let len : n + 1 + length times ≡ n + suc (length times) = omega arith in
    (rw (← len) ih, rw (← len) count)

-- From a promoted class with the counter at 0, a run of `n` continuous arrivals leaves the flow as
-- it was below the suspected threshold, suspected from there, and confirmed from the confirmed
-- threshold on; the counter is `n`. The thresholds are those that validation accepts, and `n` is
-- below 2^32.
pub continue_all_lem :
    (p : PriorityPolicy) (c : Cadence) (times : List (ℕ × ℕ))
    → IsValid p
    → IsPromoted c.state
    → c.continuous_arrival_count ≡ 0
    → length times < u32_mod
    → ((continue_all p c times).state ≡ after_run p c.state (length times))
      × ((continue_all p c times).continuous_arrival_count ≡ length times)
continue_all_lem p c times v h e b =
    let len : 0 + length times ≡ length times = omega arith in
    let (s, n) = run_from p c.state c 0 times v h (omega arith) e (ground (arith, v.suspected)) in
    (rw (← len) s, rw (← len) n)

-- The priority of the classes falls from interactive to agent to background.
abbrev pub rank : CadenceState → ℕ
rank cold = 0
rank interactive = 0
rank agentic_suspected = 1
rank agentic_confirmed = 2

-- One arrival demotes a flow by one class at most.
pub arrive_steps :
    (p : PriorityPolicy) (c : Cadence) (now unix : ℕ) (is_turn_boundary : Bool)
    → rank (arrive p c now unix is_turn_boundary).state ≤ rank c.state + 1
unfolding arrive demote
arrive_steps p c now unix b = ground arith

-- An arrival that demotes its flow is no turn boundary.
pub arrive_demotes :
    (p : PriorityPolicy) (c : Cadence) (now unix : ℕ) (is_turn_boundary : Bool)
    → rank c.state < rank (arrive p c now unix is_turn_boundary).state
    → is_turn_boundary ≡ false
unfolding arrive
arrive_demotes p c now unix true h = absurd (ground arith)
arrive_demotes p c now unix false h = refl

-- An arrival that promotes its flow is a turn boundary that comes at least the idle gap after the
-- arrival before it, and its flow is interactive from then on.
pub arrive_promotes :
    (p : PriorityPolicy) (c : Cadence) (now unix : ℕ) (is_turn_boundary : Bool)
    → rank (arrive p c now unix is_turn_boundary).state < rank c.state
    → (is_turn_boundary ≡ true)
      × ((last : ℕ) × (c.last_arrival ≡ some last) × (p.idle_gap_threshold ≤ now - last))
      × ((arrive p c now unix is_turn_boundary).state ≡ interactive)
unfolding arrive demote
arrive_promotes p c now unix false h = absurd (ground arith)
arrive_promotes p c now unix true h = elim (Option-cases c.last_arrival) [
  | inl e ↦ absurd (ground arith)
  | inr (last, e) ↦ (refl, (last, e, ground arith), ground arith)
]

module _ {F : Float} where
  -- A pinned priority, from a header or the admin API, is left alone; with the heuristic enabled
  -- any other flow gets the priority of its class.
  pub classify_and_apply-priority :
      (r : CadenceRegistry) (f : Flow F) (id : FlowId) (unix : ℕ)
      → (classify_and_apply r f id unix).1 ≡ (
          if (f.priority_source == 0) && r.policy.enabled
          then record f { priority = priority (entry r id unix).state r.classes }
          else f)
  unfolding classify_and_apply
  classify_and_apply-priority r f id unix = ground arith

lookup-remove_ids :
    (ids : List FlowId) (m : List (FlowId × Cadence)) (j : FlowId)
    → lookup j (remove_ids ids m) ≡ (if contains j ids then none else lookup j m)
unfolding remove_ids
lookup-remove_ids [] m j = refl
lookup-remove_ids (id ∷ ids) m j =
    ground (arith, lookup-remove_ids ids (remove id m) j, lookup-remove id j m)

-- What the reaper leaves of an entry.
abbrev pub kept : ℕ → Option Cadence → Option Cadence
kept cutoff none = none
kept cutoff (some c) = if ltb c.last_seen cutoff then none else some c

absent-idle_ids :
    (cutoff : ℕ) (j : FlowId) (m : List (FlowId × Cadence))
    → lookup j m ≡ none
    → contains j (idle_ids cutoff m) ≡ false
unfolding idle_ids lookup
absent-idle_ids cutoff j [] h = refl
absent-idle_ids cutoff j ((id, c) ∷ m) h = ground (arith, absent-idle_ids cutoff j m)

contains-idle_ids :
    (cutoff : ℕ) (j : FlowId) (m : List (FlowId × Cadence))
    → Distinct m
    → (if contains j (idle_ids cutoff m) then none else lookup j m) ≡ kept cutoff (lookup j m)
unfolding idle_ids lookup
contains-idle_ids cutoff j [] d = refl
contains-idle_ids cutoff j ((id, c) ∷ m) d = elim (Bool-cases (bytes_beq id j)) [
  | inl hit ↦
      let e = (bytes_beq_iff id j).0 hit in
      let absent : lookup j m ≡ none = rw (← e) d.0 in
      ground (arith, absent-idle_ids cutoff j m absent)
  | inr miss ↦ ground (arith, contains-idle_ids cutoff j m d.1)
]

-- The cadence entries not seen since `now - ttl` go, and all others stay as they were. The registry
-- has one entry for each flow.
pub inner-reap_idle :
    (r : CadenceRegistry) (ttl now : ℕ) (j : FlowId)
    → Distinct r.inner
    → lookup j (reap_idle r ttl now).0.inner ≡ kept (saturating_sub now ttl) (lookup j r.inner)
unfolding reap_idle
inner-reap_idle r ttl now j d =
    lookup-remove_ids (idle_ids (saturating_sub now ttl) r.inner) r.inner j
    ∙ contains-idle_ids (saturating_sub now ttl) j r.inner d
