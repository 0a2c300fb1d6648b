-- ===== src/Scheduler/Drr/Serve.antt =====
-- The invariant of the queues and what serving a request does to it (src/scheduler/drr.rs).
use tinyllb.Prelude.{
  ◌≤◌, ◌<◌, ◌≡◌, ◌≢◌, refl, ◌∙◌, true, false, not, ◌&&◌, ◌||◌, none, some, List, [], ◌∷◌, ◌++◌,
  if◌then◌else◌, bytes_beq, bytes_beq_iff, bytes_eq, arith, from_option, Option-cases, Bool-cases,
  inl, inr, same_refl,
}
use tinyllb.Prelude.Words.{u32_mod, sub_u32, sub_i64}
use tinyllb.Prelude.Float.{Float}
use tinyllb.Prelude.Table.{
  lookup, insert, remove, lookup-insert, lookup-remove, Distinct, insert-Distinct, remove-Distinct,
}
use tinyllb.Flow.Id.{FlowId, metric_label}
use tinyllb.Scheduler.Events.{emit, flow_credit}
use tinyllb.Flow.Registry.{Flow, contains, put_flow}
use tinyllb.Flow.Registry.Laws.{IsDistinct}
use tinyllb.Scheduler.Drr.State.{Pending, DrrState, Shared, Selection, is_nil, without, has_pending}
use tinyllb.Scheduler.Drr.Select.{serve}
use tinyllb.Scheduler.Drr.Frames.{SameCore}

pub contains-without :
    (id j : FlowId) (l : List FlowId)
    → contains j (without id l) ≡ not (bytes_beq id j) && contains j l
contains-without id j [] = ground arith
contains-without id j (k ∷ l) =
    ground
      (arith, contains-without id j l, bytes_beq_iff k id, bytes_beq_iff k j, bytes_beq_iff id j)

pub contains-append :
    (j : FlowId) (l m : List FlowId) → contains j (l ++ m) ≡ contains j l || contains j m
contains-append j [] m = refl
contains-append j (k ∷ l) m = ground (arith, contains-append j l m)

pub without-IsDistinct : (id : FlowId) (l : List FlowId) → IsDistinct l → IsDistinct (without id l)
without-IsDistinct id [] d = tt
without-IsDistinct id (k ∷ l) d = elim (Bool-cases (bytes_beq k id)) [
  | inl y ↦ rw y (without-IsDistinct id l d.1)
  | inr n ↦ rw n (ground (arith, contains-without id k l, d.0), without-IsDistinct id l d.1)
]

pub append-IsDistinct :
    (id : FlowId) (l : List FlowId)
    → contains id l ≡ false
    → IsDistinct l
    → IsDistinct (l ++ id ∷ [])
append-IsDistinct id [] h d = (refl, tt)
append-IsDistinct id (k ∷ l) h d = (
  ground (arith, contains-append k l (id ∷ []), d.0, h, bytes_beq_iff k id, bytes_beq_iff id k),
  append-IsDistinct id l (ground arith) d.1,
)

module _ {F : Float} where
  -- The cursor holds exactly the flows with a queued request, each once; each flow has at most one
  -- queue, and no queue is empty; and the permits in use are a number.
  pub record IsWellFormed (s : DrrState F) : Type 0 where
    pub waits : (id : FlowId) → contains id s.rr_cursor ≡ has_pending s id
    pub no_empty : (id : FlowId) → lookup id s.waiting ≢ some []
    pub keys : Distinct s.waiting
    pub distinct : IsDistinct s.rr_cursor
    pub bounded : s.max_permits < u32_mod
    pub permits : s.available_permits ≤ s.max_permits

  pub SameCore-IsWellFormed : (s t : DrrState F) → SameCore s t → IsWellFormed s → IsWellFormed t
  SameCore-IsWellFormed s t c v = record {
    waits = λ id. rw (c.waiting, c.rr_cursor) (v.waits id);
    no_empty = λ id. rw c.waiting (v.no_empty id);
    keys = rw c.waiting v.keys;
    distinct = rw c.rr_cursor v.distinct;
    bounded = omega (arith, c.max_permits, v.bounded);
    permits = omega (arith, c.max_permits, c.available, v.permits);
  }

  -- A request left the head of its flow's queue and took a permit; the rest of that queue and all
  -- other queues are as before.
  pub record Serves (s t : DrrState F) (sel : Selection F) : Type 0 where
    pub rest : List (Pending F)
    pub head : lookup sel.flow_id s.waiting ≡ some (sel.pending ∷ rest)
    pub tail : from_option [] (lookup sel.flow_id t.waiting) ≡ rest
    pub others : (j : FlowId) → sel.flow_id ≢ j → lookup j t.waiting ≡ lookup j s.waiting
    pub permit : t.available_permits ≡ sub_u32 s.available_permits 1
    pub max_permits : t.max_permits ≡ s.max_permits
    pub well_formed : IsWellFormed s → 1 ≤ s.available_permits → IsWellFormed t

module _ (F : Float) where
  -- The state after the head `p` of a queue `p ∷ rest` is served.
  abbrev served : FlowId → List (Pending F) → DrrState F → DrrState F
  served id rest s = record s {
    waiting = if is_nil rest then remove id s.waiting else insert id rest s.waiting;
    rr_cursor = if is_nil rest then without id s.rr_cursor else without id s.rr_cursor ++ id ∷ [];
    available_permits = sub_u32 s.available_permits 1;
  }

  lookup-served :
      (id : FlowId) (rest : List (Pending F)) (s : DrrState F) (j : FlowId)
      → lookup j (served id rest s).waiting
        ≡ (if bytes_beq id j then (if is_nil rest then none else some rest) else lookup j s.waiting)
  lookup-served id [] s j = lookup-remove id j s.waiting
  lookup-served id (p ∷ rest) s j = lookup-insert id j (p ∷ rest) s.waiting

  served-IsWellFormed :
      (id : FlowId) (rest : List (Pending F)) (s : DrrState F)
      → IsWellFormed s
      → 1 ≤ s.available_permits
      → IsWellFormed (served id rest s)
  served-IsWellFormed id rest s v h = record {
    waits = λ j. waits rest j;
    no_empty = λ j. empty rest j;
    keys = keys rest;
    distinct = distinct rest;
    bounded = v.bounded;
    permits = omega (arith, v.permits, v.bounded);
  }
    where
      waits :
          (r : List (Pending F)) (j : FlowId)
          → contains j (served id r s).rr_cursor ≡ has_pending (served id r s) j
      waits [] j =
          ground (arith, lookup-served id [] s j, contains-without id j s.rr_cursor, v.waits j)
      waits (p ∷ r) j = ground (
        arith,
        lookup-served id (p ∷ r) s j,
        contains-append j (without id s.rr_cursor) (id ∷ []),
        contains-without id j s.rr_cursor,
        v.waits j,
      )

      empty : (r : List (Pending F)) (j : FlowId) → lookup j (served id r s).waiting ≢ some []
      empty [] j e = ground (arith, lookup-served id [] s j, v.no_empty j)
      empty (p ∷ r) j e = ground (arith, lookup-served id (p ∷ r) s j, v.no_empty j)

      keys : (r : List (Pending F)) → Distinct (served id r s).waiting
      keys [] = remove-Distinct id s.waiting v.keys
      keys (p ∷ r) = insert-Distinct id (p ∷ r) s.waiting v.keys

      distinct : (r : List (Pending F)) → IsDistinct (served id r s).rr_cursor
      distinct [] = without-IsDistinct id s.rr_cursor v.distinct
      distinct (p ∷ r) =
          append-IsDistinct id (without id s.rr_cursor)
            (ground (arith, contains-without id id s.rr_cursor, bytes_beq_iff id id))
            (without-IsDistinct id s.rr_cursor v.distinct)

  served-Serves :
      (id : FlowId) (p : Pending F) (rest : List (Pending F)) (s : DrrState F)
      → lookup id s.waiting ≡ some (p ∷ rest)
      → Serves s (served id rest s) (record { flow_id = id; pending = p })
  served-Serves id p rest s e = record {
    rest = rest;
    head = e;
    tail = rw (lookup-served id rest s id, same_refl id) (tail rest);
    others = λ j ne. ground (arith, lookup-served id rest s j, bytes_beq_iff id j);
    permit = refl;
    max_permits = refl;
    well_formed = served-IsWellFormed id rest s;
  }
    where
      tail : (r : List (Pending F)) → from_option [] (if is_nil r then none else some r) ≡ r
      tail [] = refl
      tail (x ∷ r) = refl

  after_serve : FlowId → Flow F → Shared F → Pending F → List (Pending F) → Shared F
  after_serve id f sh p rest =
      let new_credit = sub_i64 f.credit (F.to_ℤ p.work_unit) in
      record sh {
        drr = served id rest sh.drr;
        registry = put_flow sh.registry id (record f { credit = new_credit; enqueued_at = none });
        metrics = emit (flow_credit (metric_label id) new_credit) sh.metrics;
      }

  serve_run :
      (id : FlowId) (f : Flow F) (sh : Shared F) (p : Pending F) (rest : List (Pending F))
      → lookup id sh.drr.waiting ≡ some (p ∷ rest)
      → serve F id f sh ≡ some (after_serve id f sh p rest, record { flow_id = id; pending = p })
  unfolding serve after_serve
  serve_run id f sh p rest e = rw (e, serve)

  -- Serving a flow that has a queued request does not panic.
  pub serve-Serves :
      (id : FlowId) (f : Flow F) (sh : Shared F)
      → has_pending sh.drr id ≡ true
      → (r : Shared F × Selection F) × (serve F id f sh ≡ some r)
        × (r.1.flow_id ≡ id)
        × Serves sh.drr r.0.drr r.1
  serve-Serves id f sh h = elim (Option-cases (lookup id sh.drr.waiting)) [
    | inl e ↦ absurd (ground (arith, h, e))
    | inr (q, e) ↦ at q e
  ]
    where
      at :
          (q : List (Pending F))
          → lookup id sh.drr.waiting ≡ some q
          → (r : Shared F × Selection F) × (serve F id f sh ≡ some r)
            × (r.1.flow_id ≡ id)
            × Serves sh.drr r.0.drr r.1
      at [] e = absurd (ground (arith, h, e))
      at (p ∷ rest) e = (
        (after_serve id f sh p rest, record { flow_id = id; pending = p }),
        serve_run id f sh p rest e,
        refl,
        unfold after_serve in served-Serves id p rest sh.drr e,
      )

  pub Serves-SameCore :
      (s s' t : DrrState F) (sel : Selection F) → SameCore s s' → Serves s' t sel → Serves s t sel
  Serves-SameCore s s' t sel c v = record {
    rest = v.rest;
    head = rw (← c.waiting) v.head;
    tail = v.tail;
    others = λ j ne. rw (← c.waiting) (v.others j ne);
    permit = rw (← c.available) v.permit;
    max_permits = v.max_permits ∙ c.max_permits;
    well_formed =
        λ w h. v.well_formed (SameCore-IsWellFormed s s' c w) (omega (arith, c.available));
  }
