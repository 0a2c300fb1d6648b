-- ===== src/Flow/Cadence.antt =====
-- The cadence state machine of a flow (src/flow/cadence.rs). Instants are nanoseconds.
pub mod Laws
use tinyllb.Prelude.{
  ℕ, zero, suc, ◌+◌, ◌-◌, ◌≡◌, refl, Bool, true, false, not, ◌&&◌, Option, none, some, List, [],
  ◌∷◌, ◌==◌, ltb, leb, if◌then◌else◌, from_option, length, bytes_eq,
}
use tinyllb.Prelude.Words.{add_u32, saturating_sub}
use tinyllb.Prelude.Float.{Float}
use tinyllb.Prelude.Table.{lookup, insert, remove}
use tinyllb.Flow.Id.{FlowId}
use tinyllb.Flow.Registry.{Flow, Priorities}

pub data CadenceState : Type 0 where
  cold interactive agentic_suspected agentic_confirmed : CadenceState

unfoldable pub priority : CadenceState → Priorities → ℕ
priority cold classes = classes.interactive
priority interactive classes = classes.interactive
priority agentic_suspected classes = classes.agent
priority agentic_confirmed classes = classes.background

-- `config::PriorityPolicy`
pub record PriorityPolicy : Type 0 where
  pub enabled : Bool
  pub idle_gap_threshold : ℕ
  pub agentic_suspected_threshold : ℕ
  pub agentic_confirmed_threshold : ℕ

pub record Cadence : Type 0 where
  pub last_arrival : Option ℕ
  pub continuous_arrival_count : ℕ
  pub state : CadenceState
  pub last_seen : ℕ

abbrev pub new : ℕ → Cadence
new now = record {
  last_arrival = none;
  continuous_arrival_count = 0;
  state = cold;
  last_seen = now;
}

pub record CadenceRegistry : Type 0 where
  pub inner : List (FlowId × Cadence)
  pub policy : PriorityPolicy
  pub classes : Priorities

-- The demotions of a continuous arrival, by the count after it.
unfoldable pub demote : PriorityPolicy → ℕ → CadenceState → CadenceState
demote p count cold = if leb p.agentic_suspected_threshold count then agentic_suspected else cold
demote p count interactive =
    if leb p.agentic_suspected_threshold count then agentic_suspected else interactive
demote p count agentic_suspected =
    if leb p.agentic_confirmed_threshold count then agentic_confirmed else agentic_suspected
demote p count agentic_confirmed = agentic_confirmed

-- The gap since the previous arrival; `duration_since` stops at zero.
unfoldable pub gap : Cadence → ℕ → Option ℕ
gap c now = elim c.last_arrival [ none ↦ none | some last ↦ some (now - last) ]

-- One arrival on a flow's entry: at an Instant, and at a Unix time.
unfoldable pub arrive : PriorityPolicy → Cadence → ℕ → ℕ → Bool → Cadence
unfolding demote gap
arrive p c now unix is_turn_boundary =
    let seen = record c { last_arrival = some now; last_seen = unix } in
    let is_idle_chunk =
      is_turn_boundary
      && (elim (gap c now) [ none ↦ false | some g ↦ leb p.idle_gap_threshold g ]) in
    if is_idle_chunk
    then record seen { state = interactive; continuous_arrival_count = 0 }
    else if is_turn_boundary
    then record seen { continuous_arrival_count = 0 }
    else let count = add_u32 c.continuous_arrival_count 1 in
      record seen { continuous_arrival_count = count; state = demote p count c.state }

unfoldable pub entry : CadenceRegistry → FlowId → ℕ → Cadence
entry r id unix = from_option (new unix) (lookup id r.inner)

unfoldable pub record_arrival : CadenceRegistry → FlowId → ℕ → ℕ → Bool → CadenceRegistry × Option ℕ
unfolding entry gap arrive
record_arrival r id now unix is_turn_boundary =
    let c = entry r id unix in
    (
      record r { inner = insert id (arrive r.policy c now unix is_turn_boundary) r.inner },
      gap c now,
    )

-- Writes the priority of a flow that no header and no admin call has pinned.
unfoldable pub classify_and_apply :
    {F : Float} → CadenceRegistry → Flow F → FlowId → ℕ → CadenceRegistry × Flow F
unfolding entry priority
classify_and_apply r flow id unix =
    if not (flow.priority_source == 0)
    then (r, flow)
    else if not r.policy.enabled
    then (r, flow)
    else let c = entry r id unix in
      (
        record r { inner = insert id c r.inner },
        record flow { priority = priority c.state r.classes },
      )

unfoldable pub state_of : CadenceRegistry → FlowId → ℕ → CadenceRegistry × CadenceState
unfolding entry
state_of r id unix = let c = entry r id unix in (record r { inner = insert id c r.inner }, c.state)

unfoldable pub idle_ids : ℕ → List (FlowId × Cadence) → List FlowId
idle_ids cutoff [] = []
idle_ids cutoff ((id, c) ∷ m) =
    if ltb c.last_seen cutoff then id ∷ idle_ids cutoff m else idle_ids cutoff m

unfoldable pub remove_ids : List FlowId → List (FlowId × Cadence) → List (FlowId × Cadence)
remove_ids [] m = m
remove_ids (id ∷ ids) m = remove_ids ids (remove id m)

unfoldable pub reap_idle : CadenceRegistry → ℕ → ℕ → CadenceRegistry × ℕ
unfolding idle_ids remove_ids
reap_idle r ttl now =
    let to_remove = idle_ids (saturating_sub now ttl) r.inner in
    (record r { inner = remove_ids to_remove r.inner }, length to_remove)
