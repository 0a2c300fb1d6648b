-- ===== src/Scheduler/Progress/Laws.antt =====
-- Registering, progress and unregistering of a request (src/scheduler/flow_progress.rs).
use tinyllb.Prelude.{
  zero, suc, ◌≡◌, refl, true, ◌&&◌, some, if◌then◌else◌, from_option, bytes_eq, bytes_beq,
  bytes_beq_iff, Bool-cases, ◌∙◌, inl, inr, arith, same_refl, ap,
}
use tinyllb.Prelude.Int.{ℤ, pos, negsuc, eqb_ℤ, ◌+ℤ◌, +ℤ_cancel}
use tinyllb.Prelude.Words.{IsI64, add_i64, add_i64-eq, saturating_sub_i64, saturating_sub_i64-eq}
use tinyllb.Prelude.Table.{lookup, insert, remove, lookup-insert, lookup-remove}
use tinyllb.Flow.Id.{FlowId}
use tinyllb.Scheduler.Progress.{
  ProgressEntry, FlowProgressTracker, fresh, register, update_delivered, unregister,
}

-- What the tracker holds for a flow: nothing is the same as two zeros.
abbrev pub view : FlowProgressTracker → FlowId → ProgressEntry
view t id = from_option fresh (lookup id t)

pub view-register :
    (id j : FlowId) (e : ℤ) (t : FlowProgressTracker)
    → view (register id e t) j ≡ (
        if bytes_beq id j
        then record (view t id) { estimated = add_i64 (view t id).estimated e }
        else view t j)
unfolding register
view-register id j e t = ground (
  arith,
  lookup-insert id j (record (view t id) { estimated = add_i64 (view t id).estimated e }) t,
)

pub lookup-register :
    (id : FlowId) (e : ℤ) (t : FlowProgressTracker)
    → lookup id (register id e t)
      ≡ some (record (view t id) { estimated = add_i64 (view t id).estimated e })
unfolding register
lookup-register id e t = ground (
  arith,
  lookup-insert id id (record (view t id) { estimated = add_i64 (view t id).estimated e }) t,
  same_refl id,
)

pub view-update_delivered :
    (id j : FlowId) (d : ℤ) (t : FlowProgressTracker) {e : ProgressEntry}
    → lookup id t ≡ some e
    → view (update_delivered id d t) j
      ≡ (if bytes_beq id j then record e { delivered = add_i64 e.delivered d } else view t j)
unfolding update_delivered
view-update_delivered id j d t {e} h =
    rw (h, update_delivered)
      (ground (arith, lookup-insert id j (record e { delivered = add_i64 e.delivered d }) t))

pub lookup-update_delivered :
    (id : FlowId) (d : ℤ) (t : FlowProgressTracker) {e : ProgressEntry}
    → lookup id t ≡ some e
    → lookup id (update_delivered id d t) ≡ some (record e { delivered = add_i64 e.delivered d })
unfolding update_delivered
lookup-update_delivered id d t {e} h =
    rw (h, update_delivered)
      (ground (
        arith,
        lookup-insert id id (record e { delivered = add_i64 e.delivered d }) t,
        same_refl id,
      ))

-- Only a zero is equal to zero.
eqb_ℤ-zero : (a : ℤ) → eqb_ℤ a (pos 0) ≡ true → a ≡ pos 0
eqb_ℤ-zero (pos zero) h = refl
eqb_ℤ-zero (pos (suc n)) h = ground arith
eqb_ℤ-zero (negsuc n) h = ground arith

pub view-unregister :
    (id j : FlowId) (est del : ℤ) (t : FlowProgressTracker) {e : ProgressEntry}
    → lookup id t ≡ some e
    → view (unregister id est del t) j ≡ (
        if bytes_beq id j
        then record {
          estimated = saturating_sub_i64 e.estimated est;
          delivered = saturating_sub_i64 e.delivered del;
        }
        else view t j)
unfolding unregister
view-unregister id j est del t {e} h = rw (h, unregister) (at _ _ refl refl)
  where
    at :
        (a b : ℤ)
        → a ≡ saturating_sub_i64 e.estimated est
        → b ≡ saturating_sub_i64 e.delivered del
        → view
            (if eqb_ℤ a (pos 0) && eqb_ℤ b (pos 0)
              then remove id t
              else insert id (record { estimated = a; delivered = b }) t)
            j
          ≡ (if bytes_beq id j then record { estimated = a; delivered = b } else view t j)
    at a b p q = elim (Bool-cases (eqb_ℤ a (pos 0) && eqb_ℤ b (pos 0))) [
      | inl y ↦
          let za = eqb_ℤ-zero a (ground (arith, y)) in
          let zb = eqb_ℤ-zero b (ground (arith, y)) in
          rw (y, za, zb) (ground (arith, lookup-remove id j t))
      | inr n ↦
          rw n (ground (arith, lookup-insert id j (record { estimated = a; delivered = b }) t))
    ]

restore : (a b : ℤ) → IsI64 a → IsI64 (a +ℤ b) → saturating_sub_i64 (add_i64 a b) b ≡ a
restore a b h k =
    rw (add_i64-eq a b k) (saturating_sub_i64-eq (a +ℤ b) b (rw (+ℤ_cancel a b) h) ∙ +ℤ_cancel a b)

-- A request that registers, delivers and unregisters leaves what the tracker holds for each flow as
-- it found it, while no sum leaves the 64-bit range.
pub unregister-register :
    (id j : FlowId) (est del : ℤ) (t : FlowProgressTracker)
    → IsI64 (view t id).estimated
    → IsI64 (view t id).delivered
    → IsI64 ((view t id).estimated +ℤ est)
    → IsI64 ((view t id).delivered +ℤ del)
    → view (unregister id est del (update_delivered id del (register id est t))) j ≡ view t j
unregister-register id j est del t a b c d =
    let registered = register id est t in
    let e = lookup-register id est t in
    let e' = lookup-update_delivered id del registered e in
    rw (view-unregister id j est del (update_delivered id del registered) e') (
      rw (restore _ est a c, restore _ del b d)
        (elim (Bool-cases (bytes_beq id j)) [
          | inl y ↦ rw y (ap (view t) ((bytes_beq_iff id j).0 y))
          | inr n ↦
              rw (n, view-update_delivered id j del registered e, n, view-register id j est t, n)
                refl
        ]))
