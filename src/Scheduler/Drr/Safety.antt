-- ===== src/Scheduler/Drr/Safety.antt =====
-- The invariant of the scheduler as a system (src/scheduler/drr.rs): no permit is lost or spent
-- twice, and a ticket is granted within the cap.
use tinyllb.Prelude.{
  ℕ, ◌+◌, ◌≤◌, ◌<◌, ◌≡◌, refl, ◌∙◌, Bool, true, Option, some, List, ◌∷◌, bytes_eq, arith, inl, inr,
}
use tinyllb.Prelude.Lists.{length}
use tinyllb.Prelude.Words.{u32_mod}
use tinyllb.Prelude.Float.{Float}
use tinyllb.Scheduler.Events.{Metrics}
use tinyllb.Flow.Id.{FlowId}
use mathlib.Core.Path.{subst}
use tinyllb.Flow.Registry.{contains, FlowRegistry}
use tinyllb.Scheduler.Drr.State.{DrrState, Shared, Env, Selection}
use tinyllb.Scheduler.Drr.Serve.{IsWellFormed}
use tinyllb.Scheduler.Drr.Total.{SelectsOne}
use tinyllb.Scheduler.Drr.Queues.{enqueue-IsWellFormed, cancel_pending-IsWellFormed}
use tinyllb.Scheduler.Drr.Admit.{
  Turn, waits, again, granted, refused, remove_first, enqueue, cancel_pending, release_permit,
  drop_ticket, loop_turn,
}
use tinyllb.Scheduler.Drr.System.{
  finds, State, tickets_after, Step, arrives, queues, turns, begins, cancels, ends, reports, writes,
  Reachable, starts, steps, IsSound, start, length-remove_first,
}
use tinyllb.Scheduler.Drr.Turns.{
  drr-credit, KeepsTickets, loop_turn-total, new_state-IsWellFormed, release_permit-IsWellFormed,
  drr-guard_new, drr-report_accounting, drr-admitted, drr-drop_guard, cancel_pending-permits,
}

module _ (F : Float) where
  -- A step that leaves the state of the loop as it was.
  SameDrr-IsSound :
      (m : ℕ) (s t : State F)
      → t.shared.drr ≡ s.shared.drr
      → t.tickets ≡ s.tickets
      → IsSound F m s
      → IsSound F m t
  SameDrr-IsSound m s t d l v = record {
    well_formed = rw d v.well_formed;
    budget = rw d v.budget;
    permits = rw (d, l) v.permits;
  }

  cancel-IsSound :
      (m : ℕ) (id : FlowId) (p : Option ℕ) (s t : State F)
      → t.shared.drr ≡ cancel_pending id p s.shared.drr
      → t.tickets ≡ s.tickets
      → IsSound F m s
      → IsSound F m t
  cancel-IsSound m id p s t d l v =
      let (a, b) = cancel_pending-permits F id p s.shared.drr in
      record {
        well_formed = rw d (cancel_pending-IsWellFormed id p s.shared.drr v.well_formed);
        budget = rw (d, b) v.budget;
        permits = rw (d, l, a) v.permits;
      }

  turn-tickets :
      (alive : Bool) (limit : ℕ) (s t : DrrState F) (o : Turn F) (l : List FlowId)
      → KeepsTickets F alive limit s t o
      → t.available_permits + length (tickets_after F o l) ≡ s.available_permits + length l
  turn-tickets alive limit s t waits l k = omega (arith, k)
  turn-tickets alive limit s t again l k = omega (arith, k)
  turn-tickets alive limit s t (granted sel) l k = omega (arith, k.1)
  turn-tickets alive limit s t (refused sel) l k = omega (arith, k.1)

  turn-IsSound :
      (m : ℕ) (env : Env F) (changed alive : Bool) (sh sh' : Shared F) (o : Turn F)
      (l : List FlowId)
      → SelectsOne F env
      → env.cap ≤ sh.drr.max_permits
      → loop_turn F env changed alive sh ≡ some (sh', o)
      → IsSound F m (record { shared = sh; tickets = l })
      → KeepsTickets F alive env.cap sh.drr sh'.drr o
        × IsSound F m (record { shared = sh'; tickets = tickets_after F o l })
  turn-IsSound m env changed alive sh sh' o l sel c run v =
      let (r, e, w, b, k) = loop_turn-total F env changed alive sh sel v.well_formed c in
      let same : ◌≡◌ {A = Shared F × Turn F} r (sh', o) = cc in
      let w' : IsWellFormed sh'.drr = subst (λ q. IsWellFormed q.0.drr) same w in
      let b' : sh'.drr.max_permits ≡ sh.drr.max_permits =
        subst (λ q. q.0.drr.max_permits ≡ sh.drr.max_permits) same b in
      let k' : KeepsTickets F alive env.cap sh.drr sh'.drr o =
        subst (λ q. KeepsTickets F alive env.cap sh.drr q.0.drr q.1) same k in
      (
        k',
        record {
          well_formed = w';
          budget = b' ∙ v.budget;
          permits = turn-tickets alive env.cap sh.drr sh'.drr o l k' ∙ v.permits;
        },
      )

  ends-IsSound :
      (m : ℕ) (id : FlowId) (sh : Shared F) (l : List FlowId)
      → contains id l ≡ true
      → IsSound F m (record { shared = sh; tickets = l })
      → IsSound F m (record { shared = drop_ticket id sh; tickets = remove_first id l })
  unfolding drop_ticket release_permit
  ends-IsSound m id sh l h v =
      let n = length-remove_first id l h in
      record {
        well_formed =
            unfold release_permit in
            (release_permit-IsWellFormed F sh v.well_formed
              (omega (arith, v.permits, v.budget, n)));
        budget = v.budget;
        permits = omega (arith, v.permits, v.budget, n, v.well_formed.bounded);
      }

  Step-IsSound : (m : ℕ) {s t : State F} → Step F s t → IsSound F m s → IsSound F m t
  Step-IsSound m (finds {sh} {l} id unix) v = SameDrr-IsSound m _ _ (drr-credit F id unix sh) refl v
  Step-IsSound m (arrives {sh} {l} id) v = SameDrr-IsSound m _ _ (drr-guard_new F id sh) refl v
  Step-IsSound m (queues {sh} {l} id enter work_unit) v = record {
    well_formed = enqueue-IsWellFormed id enter work_unit sh v.well_formed;
    budget = unfold enqueue in v.budget;
    permits = unfold enqueue in v.permits;
  }
  Step-IsSound m (turns {sh} {sh'} {l} {t} env changed alive sel c run) v =
      (turn-IsSound m env changed alive sh sh' t l sel c run v).1
  Step-IsSound m (begins {sh} {l} g enter now) v =
      SameDrr-IsSound m _ _ (drr-admitted F g enter now sh) refl v
  Step-IsSound m (cancels {sh} {l} g) v = elim (drr-drop_guard F g sh) [
    | inl e ↦ SameDrr-IsSound m _ _ e refl v
    | inr e ↦ cancel-IsSound m g.flow_id g.pending_id _ _ e refl v
  ]
  Step-IsSound m (ends {sh} {l} id h) v = ends-IsSound m id sh l h v
  Step-IsSound m (reports {sh} {l} id report unix) v =
      SameDrr-IsSound m _ _ (drr-report_accounting F id report unix sh) refl v
  Step-IsSound m (writes {sh} {l} registry metrics) v = SameDrr-IsSound m _ _ refl refl v

  -- With fewer than 2³² permits, every state that the scheduler reaches has well-formed queues, and
  -- each of its permits is either free or behind one ticket that is out.
  pub Reachable-IsSound :
      (registry : FlowRegistry F) (metrics : Metrics) (m : ℕ) {s : State F}
      → m < u32_mod
      → Reachable F (start F registry metrics m) s
      → IsSound F m s
  Reachable-IsSound registry metrics m h starts = record {
    well_formed = new_state-IsWellFormed F m h;
    budget = refl;
    permits = omega arith;
  }
  Reachable-IsSound registry metrics m h (steps r e) =
      Step-IsSound m e (Reachable-IsSound registry metrics m h r)

  -- In a state reachable with fewer than 2³² permits, a turn that grants a ticket leaves no more
  -- tickets out than its cap, if the cap is at most the permit budget and the selection picks one
  -- of its candidates.
  pub granted-cap :
      (registry : FlowRegistry F) (metrics : Metrics) (m : ℕ) {sh sh' : Shared F} {l : List FlowId}
      {sel : Selection F} (env : Env F) (changed alive : Bool)
      → m < u32_mod
      → Reachable F (start F registry metrics m) (record { shared = sh; tickets = l })
      → SelectsOne F env
      → env.cap ≤ m
      → loop_turn F env changed alive sh ≡ some (sh', granted sel)
      → length (sel.flow_id ∷ l) ≤ env.cap
  granted-cap registry metrics m {sh} {sh'} {l} {sel} env changed alive h r one c run =
      let v = Reachable-IsSound registry metrics m h r in
      let (k, v') =
        turn-IsSound m env changed alive sh sh' (granted sel) l one (omega (arith, v.budget)) run
          v in
      omega (arith, k.1, v'.permits, v'.budget)
