-- ===== src/Scheduler/Lifecycle/Credit.antt =====
-- What a request costs its flow in the end (src/scheduler/lifecycle.rs, src/scheduler/drr.rs).
use tinyllb.Prelude.{
  ℕ, zero, suc, ◌+◌, ◌<◌, ◌≡◌, refl, ◌∙◌, Bool, true, false, not, ◌&&◌, Option, none, some, List,
  [], ◌∷◌, if◌then◌else◌, bytes_eq, bytes_beq, Bool-cases, inl, inr, arith, same_refl, ap,
}
use tinyllb.Prelude.Int.{ℤ, pos, ltb_ℤ, ◌+ℤ◌, ◌-ℤ◌, int_laws}
use tinyllb.Prelude.Words.{
  wrap_i64, IsI64, i64_bound, add_i64, add_i64-eq, sub_i64-eq, saturating_sub_i64-eq,
}
use tinyllb.Prelude.Float.{Float}
use tinyllb.Prelude.Table.{lookup, insert, lookup-insert}
use tinyllb.Flow.Id.{FlowId}
use tinyllb.Flow.Registry.{Flow, get_or_create, put_flow, touched}
use tinyllb.Scheduler.Drr.State.{Shared}
use tinyllb.Scheduler.Drr.Admit.{AccountingReport, completed, cancelled, report_accounting}
use tinyllb.Scheduler.Lifecycle.{
  LifecycleGuard, World, new, add_delivered_tokens, mark_completed, report_of, drop_lifecycle,
}

-- What the request is charged: its tokens, or the estimate if it completed and none were counted.
abbrev pub charge : LifecycleGuard → ℤ
charge g =
    if g.completed_normally && not (ltb_ℤ (pos 0) g.delivered_tokens)
    then g.estimated_cost
    else g.delivered_tokens

abbrev pub restored : AccountingReport → ℤ
restored (completed d c) = c
restored (cancelled c) = c

report_of-charge :
    (g : LifecycleGuard)
    → IsI64 (g.estimated_cost -ℤ g.delivered_tokens)
    → restored (report_of g) ≡ g.estimated_cost -ℤ charge g
unfolding report_of
report_of-charge g h = elim (Bool-cases g.completed_normally) [
  | inl y ↦ elim (Bool-cases (ltb_ℤ (pos 0) g.delivered_tokens)) [
    | inl u ↦ rw (y, u) (sub_i64-eq g.estimated_cost g.delivered_tokens h)
    | inr n ↦ rw (y, n) (omega int_laws)
  ]
  | inr n ↦ rw n (saturating_sub_i64-eq g.estimated_cost g.delivered_tokens h)
]

restored_lem : (r : AccountingReport) → elim r [ completed d c ↦ c | cancelled c ↦ c ] ≡ restored r
restored_lem (completed d c) = refl
restored_lem (cancelled c) = refl

abbrev pub total : List ℕ → ℕ
total [] = 0
total (n ∷ ns) = n + total ns

-- What a request that was estimated at `est` and delivered `n` tokens is charged.
abbrev pub net_charge : Bool → ℕ → ℕ → ℕ
net_charge true est zero = est
net_charge true est (suc n) = suc n
net_charge false est n = n

add_i64-pos : (n k : ℕ) → n + k < i64_bound → add_i64 (pos n) (pos k) ≡ pos (n + k)
unfolding add_i64 wrap_i64 ◌+ℤ◌
add_i64-pos n k h = ground arith

charge-net_charge :
    (done : Bool) (est n : ℕ)
    → (if done && not (ltb_ℤ (pos 0) (pos n)) then pos est else pos n) ≡ pos (net_charge done est n)
charge-net_charge true est zero = refl
charge-net_charge true est (suc n) = ground arith
charge-net_charge false est n = refl

-- The guard of the request when it is dropped.
abbrev guard_at : FlowId → ℕ → Bool → ℕ → LifecycleGuard
guard_at id est done n = record {
  flow_id = id;
  estimated_cost = pos est;
  completed_normally = done;
  delivered_tokens = pos n;
}

abbrev record_done : LifecycleGuard → LifecycleGuard
record_done g = record g { completed_normally = true }

marked :
    (id : FlowId) (est : ℕ) (n : ℕ) (done : Bool) (g : LifecycleGuard)
    → g ≡ guard_at id est false n
    → (if done then mark_completed g else g) ≡ guard_at id est done n
unfolding mark_completed
marked id est n true g e = ap (λ (g : LifecycleGuard). record_done g) e
marked id est n false g e = e

sub-IsI64 : (a b : ℕ) → a < i64_bound → b < i64_bound → IsI64 (pos a -ℤ pos b)
unfolding ◌-ℤ◌
sub-IsI64 a b h k = ground arith

module _ {F : Float} where
  abbrev pub credit_in : Option (Flow F) → ℤ
  credit_in none = pos 0
  credit_in (some f) = f.credit

  -- The credit of a flow; one that is not registered would start with none.
  abbrev pub credit_of : Shared F → FlowId → ℤ
  credit_of sh id = credit_in (lookup id sh.registry.flows)

  touched-credit :
      (id : FlowId) (unix : ℕ) (sh : Shared F)
      → (touched sh.registry id unix).credit ≡ credit_of sh id
  unfolding touched
  touched-credit id unix sh = at (lookup id sh.registry.flows) refl
    where
      at :
          (o : Option (Flow F))
          → lookup id sh.registry.flows ≡ o
          → (touched sh.registry id unix).credit ≡ credit_in o
      at none e = rw (e, touched) refl
      at (some f) e = rw (e, touched) refl

  pub lookup-report_accounting :
      (id j : FlowId) (r : AccountingReport) (unix : ℕ) (sh : Shared F)
      → lookup j (report_accounting id r unix sh).registry.flows ≡ (
          let f = touched sh.registry id unix in
          if bytes_beq id j
          then some (record f { credit = add_i64 f.credit (restored r) })
          else lookup j sh.registry.flows)
  unfolding report_accounting get_or_create put_flow
  lookup-report_accounting id j r unix sh =
      let f = touched sh.registry id unix in
      let f' : Flow F = record f { credit = add_i64 f.credit (restored r) } in
      ap
        (λ c.
          lookup j
            (insert id (record f { credit = add_i64 f.credit c }) (insert id f sh.registry.flows)))
        (restored_lem r)
      ∙ lookup-insert id j f' (insert id f sh.registry.flows)
      ∙ (elim (Bool-cases (bytes_beq id j)) [
        | inl y ↦ rw y refl
        | inr n ↦ rw (n, lookup-insert id j f sh.registry.flows, n) refl
      ])

  -- A report changes the credit of its flow, by what it restores, and no other.
  pub credit_of-report_accounting :
      (id j : FlowId) (r : AccountingReport) (unix : ℕ) (sh : Shared F)
      → credit_of (report_accounting id r unix sh) j
        ≡ (if bytes_beq id j then add_i64 (credit_of sh id) (restored r) else credit_of sh j)
  credit_of-report_accounting id j r unix sh =
      ap credit_in (lookup-report_accounting id j r unix sh) ∙ (elim (Bool-cases (bytes_beq id j)) [
        | inl y ↦ rw (y, touched-credit id unix sh) refl
        | inr n ↦ rw n refl
      ])

  pub credit_of-drop_lifecycle :
      (unix : ℕ) (w : World F) (g : LifecycleGuard) (j : FlowId)
      → credit_of (drop_lifecycle unix w g).shared j ≡ (
          if bytes_beq g.flow_id j
          then add_i64 (credit_of w.shared g.flow_id) (restored (report_of g))
          else credit_of w.shared j)
  credit_of-drop_lifecycle unix w g j =
      unfold drop_lifecycle in (credit_of-report_accounting g.flow_id j (report_of g) unix _)

  -- The usage reports of a stream, one after the other.
  abbrev pub deliver : List ℕ → World F × LifecycleGuard → World F × LifecycleGuard
  deliver [] s = s
  deliver (n ∷ ns) s = deliver ns (add_delivered_tokens (pos n) s)

  -- A request from its admission to the drop of its guard.
  abbrev pub request : FlowId → ℕ → List ℕ → Bool → ℕ → World F → World F
  request id est counts done unix w =
      let (w', g) = deliver counts (new id (pos est) w) in
      drop_lifecycle unix w' (if done then mark_completed g else g)

  deliver_lem :
      (ns : List ℕ) (w : World F) (g : LifecycleGuard) (n : ℕ)
      → g.delivered_tokens ≡ pos n
      → n + total ns < i64_bound
      → ((deliver ns (w, g)).0.shared ≡ w.shared)
        × ((deliver ns (w, g)).1 ≡ record g { delivered_tokens = pos (n + total ns) })
  deliver_lem [] w g n e h =
      (refl, ap (λ d. record g { delivered_tokens = d }) (e ∙ ap pos (omega arith)))
  deliver_lem (k ∷ ns) w g n e h =
      let added = add_delivered_tokens (pos k) (w, g) in
      let (a, b) =
        deliver_lem ns added.0 added.1 (n + k)
          (unfold add_delivered_tokens in
            (ap (λ d. add_i64 d (pos k)) e ∙ add_i64-pos n k (omega arith)))
          (omega arith) in
      (
        a ∙ unfold add_delivered_tokens in refl,
        b
            ∙ unfold add_delivered_tokens in
              (ap (λ m. record g { delivered_tokens = pos m }) (omega arith)),
      )

  dropped :
      (id : FlowId) (est n : ℕ) (done : Bool) (unix : ℕ) (w : World F) (c : ℤ)
      → est < i64_bound
      → n < i64_bound
      → credit_of w.shared id ≡ c -ℤ pos est
      → IsI64 (c -ℤ pos (net_charge done est n))
      → credit_of (drop_lifecycle unix w (guard_at id est done n)).shared id
        ≡ c -ℤ pos (net_charge done est n)
  dropped id est n done unix w c h k before fits =
      let g = guard_at id est done n in
      let same : c -ℤ pos est +ℤ (pos est -ℤ pos (net_charge done est n))
          ≡ c -ℤ pos (net_charge done est n) =
        omega int_laws in
      rw
        (
          credit_of-drop_lifecycle unix w g id,
          same_refl id,
          before,
          report_of-charge g (sub-IsI64 est n h k),
          charge-net_charge done est n,
        )
        (add_i64-eq _ _ (rw same fits) ∙ same)

  -- A request whose flow had credit `c` before its estimate was taken leaves it at `c` less the
  -- tokens it delivered, whether it ends normally or is cancelled; a request that ends normally
  -- with no token counted is charged its estimate. The numbers stay within 64 bits.
  pub request-charge :
      (id : FlowId) (est : ℕ) (counts : List ℕ) (done : Bool) (unix : ℕ) (w : World F) (c : ℤ)
      → est < i64_bound
      → total counts < i64_bound
      → credit_of w.shared id ≡ c -ℤ pos est
      → IsI64 (c -ℤ pos (net_charge done est (total counts)))
      → credit_of (request id est counts done unix w).shared id
        ≡ c -ℤ pos (net_charge done est (total counts))
  request-charge id est counts done unix w c h k before fits =
      let opened = new {F = F} id (pos est) w in
      let (kept, g) =
        deliver_lem counts opened.0 opened.1 0 (unfold new in refl) (omega (arith, k)) in
      let same : record (opened.1) { delivered_tokens = pos (0 + total counts) }
          ≡ guard_at id est false (total counts) =
        unfold new in (ap (λ m. guard_at id est false m) (omega arith)) in
      let keeps : opened.0.shared.registry ≡ w.shared.registry = unfold new in refl in
      let g' = marked id est (total counts) done (deliver counts opened).1 (g ∙ same) in
      rw g' (
        dropped id est (total counts) done unix (deliver counts opened).0 c h k
          (ap (λ sh. credit_of sh id) kept ∙ ap (λ r. credit_in (lookup id r.flows)) keeps ∙ before)
          fits)
