-- ===== src/Flow/Registry.antt =====
-- Flows and their registry (src/flow/mod.rs). A flow object is shared by reference; here the
-- registry holds it and it is addressed by its id. Times in seconds are arguments.
pub mod Laws
pub mod Reap
use tinyllb.Prelude.{
  ℕ, zero, suc, ◌+◌, ◌-◌, ◌≡◌, refl, Bool, true, false, not, ◌&&◌, Option, none, some, List, [],
  ◌∷◌, ◌==◌, ltb, if◌then◌else◌, from_option, is_some, length, bytes_eq, bytes_beq,
}
use tinyllb.Prelude.Words.{add_u32, sub_u32, saturating_sub}
use tinyllb.Prelude.Int.{ℤ, pos}
use tinyllb.Prelude.Float.{Float}
use tinyllb.Prelude.Table.{lookup, insert, remove}
use tinyllb.Flow.Id.{FlowId}
use tinyllb.Flow.Slots
use tinyllb.Flow.Slots.{Inner}

pub data PriorityClass : Type 0 where
  interactive agent background : PriorityClass

-- `config::Priorities`
pub record Priorities : Type 0 where
  pub interactive : ℕ
  pub agent : ℕ
  pub background : ℕ

unfoldable pub class_value : PriorityClass → Priorities → ℕ
class_value PriorityClass.interactive classes = classes.interactive
class_value PriorityClass.agent classes = classes.agent
class_value PriorityClass.background classes = classes.background

pub record Flow (F : Float) : Type 0 where
  pub id : FlowId
  pub weight : F.Carrier
  pub priority : ℕ
  pub depth : ℕ
  pub credit : ℤ
  -- an Instant, in nanoseconds
  pub enqueued_at : Option ℕ
  pub active : ℕ
  pub priority_source : ℕ
  pub last_seen : ℕ

pub record FlowRegistry (F : Float) : Type 0 where
  pub flows : List (FlowId × Flow F)
  pub default_weight : F.Carrier
  pub default_priority : ℕ
  pub slots : Inner

pub record FlowRegistration (F : Float) : Type 0 where
  pub id : FlowId
  pub weight : F.Carrier
  pub priority : ℕ

module _ (F : Float) where
  -- `Flow::new`
  abbrev pub new_flow : FlowId → F.Carrier → ℕ → ℕ → Flow F
  new_flow id weight priority now = record {
    id = id;
    weight = weight;
    priority = priority;
    depth = 0;
    credit = pos 0;
    enqueued_at = none;
    active = 0;
    priority_source = 0;
    last_seen = now;
  }

  abbrev pub new_registry : F.Carrier → ℕ → FlowRegistry F
  new_registry weight priority = record {
    flows = [];
    default_weight = weight;
    default_priority = priority;
    slots = Slots.new;
  }

module _ {F : Float} where
  unfoldable pub is_active : Flow F → Bool
  is_active f = ltb 0 f.active

  unfoldable pub inc_active : Flow F → Flow F
  inc_active f = record f { active = add_u32 f.active 1 }

  unfoldable pub dec_active : Flow F → Flow F
  dec_active f = record f { active = sub_u32 f.active 1 }

  -- The flow as `get_or_create` finds or makes it, its idle timestamp refreshed.
  unfoldable pub touched : FlowRegistry F → FlowId → ℕ → Flow F
  touched r id now =
      record (from_option (new_flow F id r.default_weight r.default_priority now)
        (lookup id r.flows)) { last_seen = now }

  unfoldable pub put_flow : FlowRegistry F → FlowId → Flow F → FlowRegistry F
  put_flow r id f = record r { flows = insert id f r.flows }

  -- A write through a reference to a registered flow.
  unfoldable pub modify_flow : FlowRegistry F → FlowId → (Flow F → Flow F) → FlowRegistry F
  unfolding put_flow
  modify_flow r id g = elim (lookup id r.flows) [ none ↦ r | some f ↦ put_flow r id (g f) ]

  unfoldable pub get_or_create : FlowRegistry F → FlowId → ℕ → FlowRegistry F × Flow F
  unfolding touched put_flow
  get_or_create r id now = let f = touched r id now in (put_flow r id f, f)

  unfoldable pub assign_slot : FlowRegistry F → FlowId → ℕ → FlowRegistry F × ℕ
  assign_slot r id slot_count =
      let (slots, slot) = Slots.assign r.slots id slot_count in (record r { slots = slots }, slot)

  unfoldable pub register : FlowRegistry F → FlowRegistration F → ℕ → FlowRegistry F × Bool
  unfolding put_flow
  register r reg now = elim (lookup reg.id r.flows) [
    | some f ↦ (
      put_flow r reg.id (record f {
        weight = reg.weight;
        priority = reg.priority;
        priority_source = 2;
        last_seen = now;
      }),
      false,
    )
    | none ↦ (
      put_flow r reg.id (record {
        id = reg.id;
        weight = reg.weight;
        priority = reg.priority;
        depth = 0;
        credit = pos 0;
        enqueued_at = none;
        active = 0;
        priority_source = 2;
        last_seen = now;
      }),
      true,
    )
  ]

  unfoldable pub is_stale : ℕ → Flow F → Bool
  is_stale cutoff f = (f.depth == 0) && (f.active == 0) && ltb f.last_seen cutoff

  -- The ids of the flows to remove.
  unfoldable pub stale_ids : ℕ → List (FlowId × Flow F) → List FlowId
  unfolding is_stale
  stale_ids cutoff [] = []
  stale_ids cutoff ((id, f) ∷ m) =
      if is_stale cutoff f then id ∷ stale_ids cutoff m else stale_ids cutoff m

  unfoldable pub remove_all : List FlowId → FlowRegistry F → FlowRegistry F
  remove_all [] r = r
  remove_all (id ∷ ids) r =
      remove_all ids (record r { flows = remove id r.flows; slots = Slots.release r.slots id })

  -- Nothing runs between the collection of the ids and the removals here. The code tests a flow only
  -- when it collects it, so a request that arrives in between loses its flow.
  unfoldable pub reap_idle : FlowRegistry F → ℕ → ℕ → FlowRegistry F × ℕ
  unfolding stale_ids remove_all
  reap_idle r ttl now =
      let to_remove = stale_ids (saturating_sub now ttl) r.flows in
      let r' = remove_all to_remove r in
      (
        record r' { slots = (Slots.sweep_missing r'.slots (λ id. is_some (lookup id r'.flows))).0 },
        length to_remove,
      )

  unfoldable pub sum_from : ℕ → List (FlowId × Flow F) → ℕ
  sum_from acc [] = acc
  sum_from acc ((id, f) ∷ m) = sum_from (add_u32 acc f.depth) m

  unfoldable pub sum_depths : FlowRegistry F → ℕ
  unfolding sum_from
  sum_depths r = sum_from 0 r.flows

  unfoldable pub apply_priority_override :
      FlowRegistry F → FlowId → Option PriorityClass → Bool → Priorities → ℕ → FlowRegistry F
  unfolding put_flow get_or_create class_value
  apply_priority_override r id override_class unset classes now =
      let (r', f) = get_or_create r id now in
      if unset
      then put_flow r' id (record f { priority_source = 0; priority = classes.agent })
      else elim override_class [
        | some class ↦
            put_flow r' id (record f { priority = class_value class classes; priority_source = 1 })
        | none ↦ r'
      ]

-- `QueueFlowEntry` and `QueueSnapshot`
pub record QueueFlowEntry : Type 0 where
  pub id : FlowId
  pub position : ℕ

pub record QueueSnapshot : Type 0 where
  pub active : ℕ
  pub waiting : ℕ
  pub flows : List QueueFlowEntry

abbrev pub contains : FlowId → List FlowId → Bool
contains id [] = false
contains id (j ∷ js) = if bytes_beq j id then true else contains id js

module _ {F : Float} where
  -- The flow's entry counts if it is registered, waits, and was not listed yet.
  unfoldable pub is_listed : FlowRegistry F → List FlowId → FlowId → Bool
  is_listed r seen id =
      if contains id seen
      then false
      else elim (lookup id r.flows) [ none ↦ false | some f ↦ ltb 0 f.depth ]

  unfoldable pub list_waiting : FlowRegistry F → List FlowId → ℕ → List FlowId → List QueueFlowEntry
  list_waiting r seen position [] = []
  list_waiting r seen position (id ∷ ids) =
      let listed =
        record { id = id; position = position } ∷ list_waiting r (id ∷ seen) (position + 1) ids in
      let skipped = list_waiting r seen position ids in
      if is_listed r seen id then listed else skipped

  unfoldable pub queue_snapshot : FlowRegistry F → ℕ → ℕ → List FlowId → QueueSnapshot
  unfolding list_waiting
  queue_snapshot r active waiting wait_order = record {
    active = active;
    waiting = waiting;
    flows = list_waiting r [] 1 wait_order;
  }
