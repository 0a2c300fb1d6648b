-- ===== src/Gateway/Stream/Retries.antt =====
-- A new request in spawn_retry_stream (src/gateway/stream.rs) keeps the invariant: it is paid for by
-- one of the budgets, and made while the client has seen no output.
use tinyllb.Prelude.{
  ℕ, suc, ◌+◌, ◌<◌, ◌≡◌, refl, true, false, List, ltb, arith, inl, inr, Option-cases,
}
use tinyllb.Prelude.Float.{Float}
use tinyllb.Scheduler.Lifecycle.{World, LifecycleGuard}
use tinyllb.Gateway.Json.{Json}
use tinyllb.Gateway.Classify.{bump_temperature}
use tinyllb.Gateway.Stream.{
  frame, notice, resent, counted, Env, Task, Attempt, fresh, failed, leaves, and_then, act,
  send_bumped, count, send, reforward, reforward_or_abort, retry_bumped,
  premature_stop_exhausted_total, premature_stop_retries_total, premature_stop_detected_total,
  backend_retry_exhausted_total,
}
use tinyllb.Gateway.Stream.Loop.{is_quiet, can_reforward}
use tinyllb.Gateway.Stream.Invariant.{
  IsSound, IsGoing, StepHolds, Going, IsSound-act, IsSound-send, send-holds, and_then-holds,
  no_output, resends,
}

module _ {F : Float} (J : Json F) (e : Env F J) where
  -- What a new request needs: nothing accepted, nothing shown.
  abbrev pub IsUnseen : World F × LifecycleGuard → Task F → Type 0
  IsUnseen life s = (no_output J s.log ≡ true) × (s.life ≡ life)

  -- An attempt of the first budget is used up, and its request is not sent yet.
  record IsPaid (life : World F × LifecycleGuard) (n : ℕ) (x : Attempt × Task F) : Type 0 where
    sound : IsSound J e x.1
    unseen : IsUnseen life x.1
    used : x.1.attempt + x.1.transient_attempt ≡ n
    spare : resends x.1.log < x.1.attempt + x.1.transient_attempt

  pub unseen :
      (life : World F × LifecycleGuard) (n : ℕ) (a : Attempt) (s : Task F)
      → a.accepted ≡ false
      → is_quiet a ≡ true
      → IsGoing J e life n a s
      → IsUnseen life s
  unseen life n a s f q g = (g.silent f q, g.uncharged f)

  pub reforward-IsGoing :
      (life : World F × LifecycleGuard) (n : ℕ) (s : Task F)
      → can_reforward J e s ≡ true
      → s.attempt + s.transient_attempt ≡ n
      → IsSound J e s
      → IsUnseen life s
      → IsGoing J e life (suc n) fresh (reforward J e s).1
  unfolding reforward
  reforward-IsGoing life n s c u b h = record {
    sound = record {
      once = (h.0, b.once);
      paid = omega (arith, b.paid);
      retries = b.retries;
      transients = ground (arith, c);
      no_failure = b.no_failure;
    };
    used = omega (arith, u);
    silent = λ f q. h.0;
    uncharged = λ f. h.1;
    terminated = λ f. cc f;
  }

  -- The error frame of an attempt that is given up.
  failing_send :
      (life : World F × LifecycleGuard) (n : ℕ) (f : List ℕ) (a : Attempt) (s : Task F)
      → IsSound J e s
      → s.life ≡ life
      → StepHolds J e life n
          (Going J e life n)
          (and_then (send J e (frame f) a s) (λ x. leaves (failed x.1)))
  failing_send life n f a s b h =
      let P : Attempt × Task F → Type 0 = λ x. IsSound J e x.1 × (x.1.life ≡ life) in
      and_then-holds J e life n P (Going J e life n) (send J e (frame f) a s) _
        (send-holds J e life n P (frame f) a s b
          (IsSound-act J e (frame f) _ refl (IsSound-send J e s b), h))
        (λ x k. k)

  pub reforward_or_abort-Going :
      (life : World F × LifecycleGuard) (n : ℕ) (f : List ℕ) (a : Attempt) (s : Task F)
      → can_reforward J e s ≡ true
      → s.attempt + s.transient_attempt ≡ n
      → IsSound J e s
      → IsUnseen life s
      → StepHolds J e life n (Going J e life n) (reforward_or_abort J e f a s)
  unfolding reforward_or_abort reforward
  reforward_or_abort-Going life n f a s c u b h =
      let g : IsGoing J e life (suc n) fresh (reforward J e s).1 =
        reforward-IsGoing life n s c u b h in
      elim (Option-cases (e.answer (s.attempt + suc s.transient_attempt))) [
        | inl x ↦ rw x (
            failing_send life n f a _
              (IsSound-act J e (counted backend_retry_exhausted_total) _ refl g.sound) h.1)
        | inr (reads, x) ↦ rw x g
      ]

  IsSound-resent :
      (life : World F × LifecycleGuard) (n : ℕ) (body : List ℕ) (x : Attempt × Task F)
      → IsPaid life n x
      → IsSound J e (act (resent body) x.1)
  IsSound-resent life n body x h = record {
    once = (h.unseen.0, h.sound.once);
    paid = h.spare;
    retries = h.sound.retries;
    transients = h.sound.transients;
    no_failure = h.sound.no_failure;
  }

  send_bumped-Going :
      (life : World F × LifecycleGuard) (n : ℕ) (bumped : J.Value) (x : Attempt × Task F)
      → IsPaid life (suc n) x
      → StepHolds J e life n (Going J e life n) (send_bumped J e bumped x)
  unfolding send_bumped
  send_bumped-Going life n bumped (a, s) h = elim (Option-cases (J.to_vec bumped)) [
    | inl y ↦
        rw (y, send_bumped)
          (IsSound-act J e (counted premature_stop_exhausted_total) s refl h.sound, h.unseen.1)
    | inr (body, y) ↦ elim (Option-cases (e.answer (s.attempt + s.transient_attempt))) [
      | inl z ↦
          rw (y, z, send_bumped)
            (
              IsSound-act J e (counted premature_stop_exhausted_total) _ refl
                  (IsSound-resent life (suc n) body (a, s) h),
              h.unseen.1,
            )
      | inr (reads, z) ↦
          rw (y, z, send_bumped)
            (record {
              sound = IsSound-resent life (suc n) body (a, s) h;
              used = h.used;
              silent = λ f q. h.unseen.0;
              uncharged = λ f. h.unseen.1;
              terminated = λ f. cc f;
            })
    ]
  ]

  -- Before the notice is sent.
  IsSound-bumped :
      (s : Task F)
      → ltb s.attempt e.policy.max_retries ≡ true
      → IsSound J e s
      → IsSound J e
          (record (count premature_stop_retries_total (count premature_stop_detected_total s)) {
            attempt = suc s.attempt;
          })
  IsSound-bumped s c b = record {
    once = b.once;
    paid = omega (arith, b.paid);
    retries = ground (arith, c);
    transients = b.transients;
    no_failure = b.no_failure;
  }

  pub retry_bumped-Going :
      (life : World F × LifecycleGuard) (n : ℕ) (value : J.Value) (a : Attempt) (s : Task F)
      → ltb s.attempt e.policy.max_retries ≡ true
      → s.attempt + s.transient_attempt ≡ n
      → IsSound J e s
      → IsUnseen life s
      → StepHolds J e life n (Going J e life n) (retry_bumped J e value a s)
  unfolding retry_bumped
  retry_bumped-Going life n value a s c u b h =
      elim (Option-cases (bump_temperature J value (suc s.attempt) e.policy)) [
        | inl x ↦ rw (x, retry_bumped) (IsSound-bumped s c b, h.1)
        | inr (bumped, x) ↦
            rw (x, retry_bumped)
              (and_then-holds J e life n (IsPaid life (suc n)) (Going J e life n)
                (send J e (notice (suc s.attempt)) a _) (send_bumped J e bumped)
                (send-holds J e life n (IsPaid life (suc n)) (notice (suc s.attempt)) a _
                  (IsSound-bumped s c b)
                  (record {
                    sound =
                        IsSound-act J e (notice (suc s.attempt)) _ refl
                          (IsSound-send J e _ (IsSound-bumped s c b));
                    unseen = h;
                    used = omega (arith, u);
                    spare = omega (arith, b.paid);
                  }))
                (send_bumped-Going life n bumped))
      ]
