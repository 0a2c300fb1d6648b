-- ===== src/Gateway/Stream/Laws.antt =====
-- What the client, the backend and the scheduler can rely on in a stream of src/gateway/stream.rs.
use tinyllb.Prelude.{
  ℕ, zero, suc, ◌+◌, ◌≤◌, ◌<◌, ◌≡◌, refl, ◌∙◌, sym, true, false, some, List, arith, if_elim,
}
use mathlib.Core.Path.{subst}
use tinyllb.Prelude.Float.{Float}
use tinyllb.Scheduler.Lifecycle.{World, LifecycleGuard}
use tinyllb.Gateway.Json.{Json}
use tinyllb.Gateway.Stream.{
  Read, Env, Task, fresh, Exit, gone, panicked, again, failed, done, act, failure,
}
use tinyllb.Gateway.Stream.Loop.{
  Ended, completed, aborted, disconnected, crashed, run_attempt, abort, retry_loop, started,
  spawn_retry_stream,
}
use tinyllb.Gateway.Stream.Invariant.{
  IsSound, IsGoing, IsCutOff, ExitHolds, IsOnce, resends, has_failure, has_terminal,
}
use tinyllb.Gateway.Stream.Turn.{run_attempt-holds}

-- The task as it ends.
abbrev pub task_of : {F : Float} → Ended F → Task F
task_of (completed s) = s
task_of (aborted s) = s
task_of (disconnected s) = s
task_of (crashed s) = s

module _ {F : Float} (J : Json F) (e : Env F J) where
  -- There is an error item exactly if the last send finds the client.
  abbrev pub EndsInError : Task F → Type 0
  EndsInError s = (k : ℕ) × (s.sends ≡ suc k) × (has_failure s.log ≡ e.is_connected k)

  -- What holds of a task that began with `life`, for each way to end.
  abbrev pub EndsRight : World F × LifecycleGuard → Ended F → Type 0
  EndsRight life (completed s) =
      (s.life.1.completed_normally ≡ true)
      × (has_terminal J s.log ≡ true)
      × (has_failure s.log ≡ false)
  EndsRight life (aborted s) = EndsInError s × (s.life ≡ life)
  EndsRight life (disconnected s) = IsCutOff J e s × (has_failure s.log ≡ false)
  EndsRight life (crashed s) = s.life ≡ life

  record EndHolds (life : World F × LifecycleGuard) (r : Ended F) : Type 0 where
    once : IsOnce J (task_of r).log
    paid : resends (task_of r).log ≤ e.policy.max_retries + e.transient_policy.max_attempts
    right : EndsRight life r

  IsSound-end :
      (life : World F × LifecycleGuard) (r : Ended F)
      → IsSound J e (task_of r)
      → EndsRight life r
      → EndHolds life r
  IsSound-end life r b h = record {
    once = b.once;
    paid = omega (arith, b.paid, b.retries, b.transients);
    right = h;
  }

  abort-holds :
      (life : World F × LifecycleGuard) (s : Task F)
      → IsSound J e s
      → s.life ≡ life
      → EndHolds life (abort J e s)
  unfolding abort
  abort-holds life s b h =
      if_elim (EndHolds life) (e.is_connected s.sends)
        (aborted (act failure (record s { sends = suc s.sends })))
        (aborted (record s { sends = suc s.sends }))
        (λ y. record {
          once = b.once;
          paid = omega (arith, b.paid, b.retries, b.transients);
          right = ((s.sends, refl, rw y refl), h);
        })
        (λ k. record {
          once = b.once;
          paid = omega (arith, b.paid, b.retries, b.transients);
          right = ((s.sends, refl, rw k b.no_failure), h);
        })

  retry_loop-holds :
      (fuel : ℕ) (reads : List Read) (s : Task F) (life : World F × LifecycleGuard) (n : ℕ)
      → s.life ≡ life
      → IsGoing J e s.life n fresh s
      → e.policy.max_retries + e.transient_policy.max_attempts < fuel + n
      → (r : Ended F) × (retry_loop J e fuel reads s ≡ some r) × EndHolds life r
  unfolding retry_loop
  retry_loop-holds zero reads s life n q g h =
      absurd (omega (arith, g.used, g.sound.retries, g.sound.transients))
  retry_loop-holds (suc fuel) reads s life n q g h =
      at (run_attempt J e reads s) refl (run_attempt-holds J e reads s n g)
        (λ reads' s' q' g'. retry_loop-holds fuel reads' s' life (suc n) q' g' (omega arith))
    where
      at :
          (x : Exit F)
          → run_attempt J e reads s ≡ x
          → ExitHolds J e s.life n x
          → ((reads' : List Read) (s' : Task F)
              → s'.life ≡ life
              → IsGoing J e s'.life (suc n) fresh s'
              → (r : Ended F) × (retry_loop J e fuel reads' s' ≡ some r) × EndHolds life r)
          → (r : Ended F) × (retry_loop J e (suc fuel) reads s ≡ some r) × EndHolds life r
      at (gone s') p b ih =
          (disconnected s', rw (p, retry_loop) refl, IsSound-end life _ b.0 (b.1, b.0.no_failure))
      at (panicked s') p b ih =
          (crashed s', rw (p, retry_loop) refl, IsSound-end life _ b.0 (b.1 ∙ q))
      at (again reads' s') p b ih =
          let l : s'.life ≡ s.life = b.uncharged refl in
          rw (p, retry_loop)
            (ih reads' s' (l ∙ q) (subst (λ v. IsGoing J e v (suc n) fresh s') (sym l) b))
      at (failed s') p b ih =
          (abort J e s', rw (p, retry_loop) refl, abort-holds life s' b.0 (b.1 ∙ q))
      at (done s') p b ih =
          (completed s', rw (p, retry_loop) refl, IsSound-end life _ b.0 (b.1, b.2, b.0.no_failure))

  spawn_retry_stream-holds :
      (reads : List Read) (life : World F × LifecycleGuard)
      → (r : Ended F) × (spawn_retry_stream J e reads life ≡ some r) × EndHolds life r
  unfolding spawn_retry_stream
  spawn_retry_stream-holds reads life =
      retry_loop-holds (suc (e.policy.max_retries + e.transient_policy.max_attempts)) reads
        (started J e life) life 0 refl
        (record {
          sound = record {
            once = tt;
            paid = omega arith;
            retries = omega arith;
            transients = omega arith;
            no_failure = refl;
          };
          used = omega arith;
          silent = λ f q. refl;
          uncharged = λ f. refl;
          terminated = λ f. cc f;
        })
        (omega arith)

  -- The task ends, whatever the backend sends and answers and whenever the client leaves, and it
  -- sends the request again at most max_retries + max_attempts times.
  pub spawn_retry_stream-total :
      (reads : List Read) (life : World F × LifecycleGuard)
      → (r : Ended F) × (spawn_retry_stream J e reads life ≡ some r)
        × (resends (task_of r).log ≤ e.policy.max_retries + e.transient_policy.max_attempts)
  spawn_retry_stream-total reads life =
      let (r, p, h) = spawn_retry_stream-holds reads life in (r, p, h.paid)

  -- The task ends, and whenever it sent the request again, no complete frame with content or tool
  -- calls had gone to the client before.
  pub spawn_retry_stream-IsOnce :
      (reads : List Read) (life : World F × LifecycleGuard)
      → (r : Ended F) × (spawn_retry_stream J e reads life ≡ some r) × IsOnce J (task_of r).log
  spawn_retry_stream-IsOnce reads life =
      let (r, p, h) = spawn_retry_stream-holds reads life in (r, p, h.once)

  -- The task ends in one of four ways: completed, with the guard marked completed, a frame with a
  -- finish reason sent to the client and no error item; aborted, with an error item exactly if the
  -- last send finds the client, and the accounting untouched; with the client gone at its last send
  -- and no error item; or by a panic, the accounting untouched.
  pub spawn_retry_stream-EndsRight :
      (reads : List Read) (life : World F × LifecycleGuard)
      → (r : Ended F) × (spawn_retry_stream J e reads life ≡ some r) × EndsRight life r
  spawn_retry_stream-EndsRight reads life =
      let (r, p, h) = spawn_retry_stream-holds reads life in (r, p, h.right)
