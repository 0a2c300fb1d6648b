-- ===== src/Gateway/Stream/Turn.antt =====
-- A turn of the retry loop of spawn_retry_stream (src/gateway/stream.rs) keeps the invariant.
use tinyllb.Prelude.{
  ℕ, suc, ◌≡◌, refl, Bool, true, false, not, ◌&&◌, Option, none, some, List, [], ◌∷◌, ltb, leb,
  arith, inl, inr, Bool-cases, Option-cases, if_elim, is_some,
}
use tinyllb.Prelude.Float.{Float}
use tinyllb.Scheduler.Lifecycle.{World, LifecycleGuard, mark_completed}
use tinyllb.Gateway.Json.{Json}
use tinyllb.Gateway.Classify.{FrameClassification, classify_frame, is_degenerate_reason}
use tinyllb.Gateway.Frames.{SseFrameParser, feed, finish}
use tinyllb.Gateway.Frames
use tinyllb.Gateway.Stream.{
  Read, frame, leftover, counted, Env, Task, Attempt, fresh, failed, done, count, send, reforward,
  premature_stop_exhausted_total, backend_retry_exhausted_total,
}
use tinyllb.Gateway.Stream.Loop.{
  is_quiet, note, can_retry, can_reforward, terminal, pending_frame, handle_frame, handle_frames,
  read_loop, flush, unaccepted, reforward_at_end, conclude, finish_attempt, run_attempt, Outcome,
  eof, deadline, stall,
}
use tinyllb.Gateway.Stream.Invariant.{
  IsGoing, StepHolds, ExitHolds, Going, IsSound-act, IsSound-life, or_exit-holds, if-holds,
  and_then-holds, shows_output, Going-pending, has_terminal_cons, count_and_forward_frame-Going,
}
use tinyllb.Gateway.Stream.Retries.{
  unseen, reforward-IsGoing, reforward_or_abort-Going, retry_bumped-Going,
}

module _ {F : Float} (J : Json F) (e : Env F J) where
  note-IsGoing :
      (life : World F × LifecycleGuard) (n : ℕ) (cls : FrameClassification) (a : Attempt)
      (s : Task F)
      → IsGoing J e life n a s
      → IsGoing J e life n (note cls a) s
  note-IsGoing life n cls a s g = record {
    sound = g.sound;
    used = g.used;
    silent = λ f q. g.silent f (ground (arith, q));
    uncharged = g.uncharged;
    terminated = g.terminated;
  }

  -- A frame that leaves the flags as they were shows no output.
  note-quiet :
      (f : List ℕ) (a : Attempt)
      → is_quiet (note (classify_frame J f) a) ≡ true
      → shows_output J f ≡ false
  note-quiet f a h = ground (arith, h)

  terminal-Going :
      (life : World F × LifecycleGuard) (n : ℕ) (reason : List ℕ) (u : Bool) (f : List ℕ)
      (a : Attempt) (s : Task F)
      → is_some (classify_frame J f).finish_reason ≡ true
      → a.accepted ≡ false
      → IsGoing J e life n a s
      → StepHolds J e life n (Going J e life n) (terminal J e reason u f a s)
  unfolding terminal
  terminal-Going life n reason u f a s t h g =
      elim (Bool-cases (
        is_degenerate_reason reason
        && is_quiet a
        && ltb s.attempt e.policy.max_retries
        && can_retry J e)) [
          | inl y ↦ elim (Option-cases (J.from_slice e.forwarded_body)) [
            | inl z ↦ rw (y, z, terminal) (g.sound, g.uncharged h)
            | inr (value, z) ↦
                rw (y, z, terminal)
                  (retry_bumped-Going J e life n value a s (ground (arith, y)) g.used g.sound
                    (unseen J e life n a s h (ground (arith, y)) g))
          ]
          | inr k ↦
              elim (Bool-cases
                (is_degenerate_reason reason && is_quiet a && leb e.policy.max_retries s.attempt)) [
                  | inl y ↦
                      rw (k, y, terminal)
                        (count_and_forward_frame-Going J e life n f u _ _ refl (ground (arith, t))
                          g.used
                          (IsSound-act J e (counted premature_stop_exhausted_total) s refl g.sound))
                  | inr l ↦
                      rw (k, l, terminal)
                        (count_and_forward_frame-Going J e life n f u _ s refl (ground (arith, t))
                          g.used g.sound)
                ]
        ]

  pending_frame-Going :
      (life : World F × LifecycleGuard) (n : ℕ) (cls : FrameClassification) (f : List ℕ)
      (a : Attempt) (s : Task F)
      → cls ≡ classify_frame J f
      → (is_quiet a ≡ true → shows_output J f ≡ false)
      → a.accepted ≡ false
      → IsGoing J e life n a s
      → StepHolds J e life n (Going J e life n) (pending_frame J e cls f a s)
  unfolding pending_frame
  pending_frame-Going life n cls f a s ce q h g = at (cls.finish_reason) refl
    where
      shown : StepHolds J e life n (Going J e life n) (send J e (frame f) a s)
      shown = Going-pending J e life n (frame f) a s refl (λ k. ground (arith, q k)) g

      at :
          (o : Option (List ℕ))
          → cls.finish_reason ≡ o
          → StepHolds J e life n (Going J e life n) (pending_frame J e cls f a s)
      at (some reason) p =
          rw (p, pending_frame)
            (terminal-Going life n reason cls.has_usage f a s (rw (← ce, p) refl) h g)
      at none p =
          rw (p, pending_frame)
            (if-holds J e life n (Going J e life n) cls.is_done _ _
              (λ y. if-holds J e life n (Going J e life n) a.accepted _ _ (λ z. shown) (λ z. g))
              (λ y.
                if-holds J e life n (Going J e life n) cls.has_usage _ _
                  (λ z.
                    if-holds J e life n (Going J e life n) a.accepted _ _
                      (λ t.
                        count_and_forward_frame-Going J e life n f _ a s t
                          (has_terminal_cons J (frame f) s.log (g.terminated t)) g.used g.sound)
                      (λ t. g))
                  (λ z. shown)))

  handle_frame-Going :
      (life : World F × LifecycleGuard) (n : ℕ) (f : List ℕ) (x : Attempt × Task F)
      → Going J e life n x
      → StepHolds J e life n (Going J e life n) (handle_frame J e f x)
  unfolding handle_frame
  handle_frame-Going life n f (a, s) g =
      if-holds J e life n (Going J e life n) a.accepted _ _
        (λ y.
          count_and_forward_frame-Going J e life n f _ a s y
            (has_terminal_cons J (frame f) s.log (g.terminated y)) g.used g.sound)
        (λ k.
          if-holds J e life n (Going J e life n) _ _ _
            (λ y.
              reforward_or_abort-Going J e life n f a' s (ground (arith, y)) g.used g.sound
                (unseen J e life n a' s k (ground (arith, y)) g'))
            (λ y.
              pending_frame-Going life n (classify_frame J f) f a' s refl (note-quiet f a) k g'))
    where
      a' : Attempt
      a' = note (classify_frame J f) a

      g' : IsGoing J e life n a' s
      g' = note-IsGoing life n (classify_frame J f) a s g

  handle_frames-Going :
      (life : World F × LifecycleGuard) (n : ℕ) (fs : List (List ℕ)) (x : Attempt × Task F)
      → Going J e life n x
      → StepHolds J e life n (Going J e life n) (handle_frames J e fs x)
  unfolding handle_frames
  handle_frames-Going life n [] x g = g
  handle_frames-Going life n (f ∷ fs) x g =
      and_then-holds J e life n (Going J e life n) (Going J e life n) (handle_frame J e f x) _
        (handle_frame-Going life n f x g) (λ y h. handle_frames-Going life n fs y h)

  abbrev ReadEnds :
      World F × LifecycleGuard → ℕ → Outcome × SseFrameParser × (Attempt × Task F) → Type 0
  ReadEnds life n y = Going J e life n y.2

  read_loop-Going :
      (life : World F × LifecycleGuard) (n : ℕ) (rs : List Read) (p : SseFrameParser)
      (x : Attempt × Task F)
      → Going J e life n x
      → StepHolds J e life n (ReadEnds life n) (read_loop J e rs p x)
  unfolding read_loop
  read_loop-Going life n [] p x g = g
  read_loop-Going life n (r ∷ rs) p x g =
      if-holds J e life n (ReadEnds life n) r.stalled _ _ (λ y. g)
        (λ y. elim (Option-cases (r.next)) [
          | inl q ↦ rw q g
          | inr (chunk, q) ↦ rw q (
              if-holds J e life n (ReadEnds life n) r.expired _ _ (λ z. g)
                (λ z.
                  and_then-holds J e life n (Going J e life n) (ReadEnds life n)
                    (handle_frames J e (feed chunk p).1 x) _
                    (handle_frames-Going life n (feed chunk p).1 x g)
                    (λ x' h. read_loop-Going life n rs (feed chunk p).0 x' h)))
        ])

  flush-Going :
      (life : World F × LifecycleGuard) (n : ℕ) (fs : List (List ℕ)) (x : Attempt × Task F)
      → Going J e life n x
      → StepHolds J e life n (Going J e life n) (flush J e fs x)
  unfolding flush
  flush-Going life n [] x g = g
  flush-Going life n (f ∷ fs) (a, s) g =
      and_then-holds J e life n (Going J e life n) (Going J e life n) (send J e (leftover f) a s) _
        (Going-pending J e life n (leftover f) a s refl (λ q. refl) g)
        (λ y h. flush-Going life n fs y h)

  reforward_at_end-holds :
      (life : World F × LifecycleGuard) (n : ℕ) (r : Option (List Read) × Task F)
      → IsGoing J e life (suc n) fresh r.1
      → ExitHolds J e life n (reforward_at_end J e r)
  reforward_at_end-holds life n (some reads, s) g = g
  reforward_at_end-holds life n (none, s) g =
      (IsSound-act J e (counted backend_retry_exhausted_total) s refl g.sound, g.uncharged refl)

  unaccepted-holds :
      (life : World F × LifecycleGuard) (n : ℕ) (o : Outcome) (a : Attempt) (s : Task F)
      → a.accepted ≡ false
      → IsGoing J e life n a s
      → ExitHolds J e life n (unaccepted J e o a s)
  unfolding unaccepted
  unaccepted-holds life n deadline a s h g = (g.sound, g.uncharged h)
  unaccepted-holds life n stall a s h g = (g.sound, g.uncharged h)
  unaccepted-holds life n eof a s h g =
      if_elim (ExitHolds J e life n) (not (is_quiet a)) (failed s) _ (λ y. (g.sound, g.uncharged h))
        (λ y.
          let q : is_quiet a ≡ true = ground (arith, y) in
          if_elim (ExitHolds J e life n) (can_reforward J e s) _ _
            (λ z.
              reforward_at_end-holds life n (reforward J e s)
                (reforward-IsGoing J e life n s z g.used g.sound (unseen J e life n a s h q g)))
            (λ z.
              if_elim (ExitHolds J e life n) (ltb 0 e.transient_policy.max_attempts)
                (failed (count backend_retry_exhausted_total s)) (failed s)
                (λ t. (
                  IsSound-act J e (counted backend_retry_exhausted_total) s refl g.sound,
                  g.uncharged h,
                ))
                (λ t. (g.sound, g.uncharged h))))

  conclude-holds :
      (life : World F × LifecycleGuard) (n : ℕ) (o : Outcome) (x : Attempt × Task F)
      → Going J e life n x
      → ExitHolds J e life n (conclude J e o x)
  unfolding conclude mark_completed
  conclude-holds life n o (a, s) g =
      if_elim (ExitHolds J e life n) a.accepted
        (done (record s { life = (s.life.0, mark_completed s.life.1) })) _
        (λ y. (IsSound-life J e s _ g.sound, refl, g.terminated y))
        (λ k. unaccepted-holds life n o a s k g)

  -- A turn of the retry loop, from a task on which the invariant holds.
  pub run_attempt-holds :
      (reads : List Read) (s : Task F) (n : ℕ)
      → IsGoing J e s.life n fresh s
      → ExitHolds J e s.life n (run_attempt J e reads s)
  unfolding run_attempt finish_attempt
  run_attempt-holds reads s n g =
      or_exit-holds J e s.life n (ReadEnds s.life n) (read_loop J e reads Frames.new (fresh, s)) _
        (read_loop-Going s.life n reads Frames.new (fresh, s) g)
        (λ y h.
          or_exit-holds J e s.life n (Going J e s.life n) (flush J e (finish y.1) y.2) _
            (flush-Going s.life n (finish y.1) y.2 h) (λ x k. conclude-holds s.life n y.0 x k))
