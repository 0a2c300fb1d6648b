-- ===== src/Gateway/Stream/Invariant.antt =====
-- What holds of the task of spawn_retry_stream (src/gateway/stream.rs) between its acts, and that
-- sending, charging and a new request keep it.
use tinyllb.Prelude.{
  ℕ, suc, ◌+◌, ◌≤◌, ◌≡◌, refl, Bool, true, false, not, ◌&&◌, ◌||◌, List, [], ◌∷◌, if◌then◌else◌,
  arith, inl, inr, Bool-cases, if_elim, is_some,
}
use tinyllb.Prelude.Int.{pos, ltb_ℤ}
use tinyllb.Prelude.Float.{Float}
use tinyllb.Scheduler.Lifecycle.{World, LifecycleGuard}
use tinyllb.Gateway.Json.{Json}
use tinyllb.Gateway.Classify.{classify_frame}
use tinyllb.Gateway.Stream.{
  Act, frame, leftover, notice, failure, slept, resent, counted, Env, Task, Attempt, fresh, Exit,
  gone, panicked, again, failed, done, Step, going, leaves, and_then, or_exit, act, send, charge,
  count_and_forward_frame, completion_tokens_from_frame,
}
use tinyllb.Gateway.Stream.Loop.{is_quiet}

-- The requests that were sent again.
abbrev pub resends : List Act → ℕ
resends [] = 0
resends (resent b ∷ l) = suc (resends l)
resends (frame f ∷ l) = resends l
resends (leftover f ∷ l) = resends l
resends (notice n ∷ l) = resends l
resends (failure ∷ l) = resends l
resends (slept d ∷ l) = resends l
resends (counted c ∷ l) = resends l

abbrev pub has_failure : List Act → Bool
has_failure [] = false
has_failure (failure ∷ l) = true
has_failure (resent b ∷ l) = has_failure l
has_failure (frame f ∷ l) = has_failure l
has_failure (leftover f ∷ l) = has_failure l
has_failure (notice n ∷ l) = has_failure l
has_failure (slept d ∷ l) = has_failure l
has_failure (counted c ∷ l) = has_failure l

module _ {F : Float} (J : Json F) where
  -- A frame with content or with tool calls.
  abbrev pub shows_output : List ℕ → Bool
  shows_output f = (classify_frame J f).has_content || (classify_frame J f).has_tool_calls

  -- No frame with content or tool calls has gone to the client.
  abbrev pub no_output : List Act → Bool
  no_output [] = true
  no_output (frame f ∷ l) = not (shows_output f) && no_output l
  no_output (resent b ∷ l) = no_output l
  no_output (leftover f ∷ l) = no_output l
  no_output (notice n ∷ l) = no_output l
  no_output (failure ∷ l) = no_output l
  no_output (slept d ∷ l) = no_output l
  no_output (counted c ∷ l) = no_output l

  -- A frame with a finish reason has gone to the client.
  abbrev pub has_terminal : List Act → Bool
  has_terminal [] = false
  has_terminal (frame f ∷ l) = is_some (classify_frame J f).finish_reason || has_terminal l
  has_terminal (resent b ∷ l) = has_terminal l
  has_terminal (leftover f ∷ l) = has_terminal l
  has_terminal (notice n ∷ l) = has_terminal l
  has_terminal (failure ∷ l) = has_terminal l
  has_terminal (slept d ∷ l) = has_terminal l
  has_terminal (counted c ∷ l) = has_terminal l

  pub has_terminal_cons :
      (x : Act) (l : List Act) → has_terminal l ≡ true → has_terminal (x ∷ l) ≡ true
  has_terminal_cons (frame f) l h = ground (arith, h)
  has_terminal_cons (resent b) l h = h
  has_terminal_cons (leftover f) l h = h
  has_terminal_cons (notice n) l h = h
  has_terminal_cons failure l h = h
  has_terminal_cons (slept d) l h = h
  has_terminal_cons (counted c) l h = h

  -- Whenever the request was sent again, no frame with output had gone to the client before.
  abbrev pub IsOnce : List Act → Type 0
  IsOnce [] = Unit
  IsOnce (resent b ∷ l) = (no_output l ≡ true) × IsOnce l
  IsOnce (frame f ∷ l) = IsOnce l
  IsOnce (leftover f ∷ l) = IsOnce l
  IsOnce (notice n ∷ l) = IsOnce l
  IsOnce (failure ∷ l) = IsOnce l
  IsOnce (slept d ∷ l) = IsOnce l
  IsOnce (counted c ∷ l) = IsOnce l

  -- Neither a new request nor the error at the end.
  abbrev pub is_plain : Act → Bool
  is_plain (resent b) = false
  is_plain failure = false
  is_plain (frame f) = true
  is_plain (leftover f) = true
  is_plain (notice n) = true
  is_plain (slept d) = true
  is_plain (counted c) = true

  plain-IsOnce : (x : Act) (l : List Act) → is_plain x ≡ true → IsOnce l → IsOnce (x ∷ l)
  plain-IsOnce (resent b) l p h = cc
  plain-IsOnce failure l p h = h
  plain-IsOnce (frame f) l p h = h
  plain-IsOnce (leftover f) l p h = h
  plain-IsOnce (notice n) l p h = h
  plain-IsOnce (slept d) l p h = h
  plain-IsOnce (counted c) l p h = h

  plain-resends : (x : Act) (l : List Act) → is_plain x ≡ true → resends (x ∷ l) ≡ resends l
  plain-resends (resent b) l p = cc
  plain-resends failure l p = refl
  plain-resends (frame f) l p = refl
  plain-resends (leftover f) l p = refl
  plain-resends (notice n) l p = refl
  plain-resends (slept d) l p = refl
  plain-resends (counted c) l p = refl

  plain-has_failure :
      (x : Act) (l : List Act) → is_plain x ≡ true → has_failure (x ∷ l) ≡ has_failure l
  plain-has_failure (resent b) l p = refl
  plain-has_failure failure l p = cc
  plain-has_failure (frame f) l p = refl
  plain-has_failure (leftover f) l p = refl
  plain-has_failure (notice n) l p = refl
  plain-has_failure (slept d) l p = refl
  plain-has_failure (counted c) l p = refl

  no_output_cons :
      (x : Act) (l : List Act)
      → is_plain x ≡ true
      → no_output (x ∷ []) ≡ true
      → no_output l ≡ true
      → no_output (x ∷ l) ≡ true
  no_output_cons (resent b) l p q h = h
  no_output_cons failure l p q h = h
  no_output_cons (frame f) l p q h = ground (arith, q, h)
  no_output_cons (leftover f) l p q h = h
  no_output_cons (notice n) l p q h = h
  no_output_cons (slept d) l p q h = h
  no_output_cons (counted c) l p q h = h

  module _ (e : Env F J) where
    -- The budgets, and no output before a new request.
    pub record IsSound (s : Task F) : Type 0 where
      pub once : IsOnce s.log
      pub paid : resends s.log ≤ s.attempt + s.transient_attempt
      pub retries : s.attempt ≤ e.policy.max_retries
      pub transients : s.transient_attempt ≤ e.transient_policy.max_attempts
      pub no_failure : has_failure s.log ≡ false

    -- Within an attempt that began with `life` and with `n` attempts used up.
    pub record IsGoing (life : World F × LifecycleGuard) (n : ℕ) (a : Attempt) (s : Task F)
        : Type 0 where
      pub sound : IsSound s
      pub used : s.attempt + s.transient_attempt ≡ n
      pub silent : a.accepted ≡ false → is_quiet a ≡ true → no_output s.log ≡ true
      pub uncharged : a.accepted ≡ false → s.life ≡ life
      pub terminated : a.accepted ≡ true → has_terminal s.log ≡ true

    -- The last send did not find the client.
    abbrev pub IsCutOff : Task F → Type 0
    IsCutOff s = (k : ℕ) × (s.sends ≡ suc k) × (e.is_connected k ≡ false)

    abbrev pub ExitHolds : World F × LifecycleGuard → ℕ → Exit F → Type 0
    ExitHolds life n (gone s) = IsSound s × IsCutOff s
    ExitHolds life n (panicked s) = IsSound s × (s.life ≡ life)
    ExitHolds life n (again reads s) = IsGoing life (suc n) fresh s
    ExitHolds life n (failed s) = IsSound s × (s.life ≡ life)
    ExitHolds life n (done s) =
        IsSound s × (s.life.1.completed_normally ≡ true) × (has_terminal s.log ≡ true)

    abbrev pub StepHolds :
        World F × LifecycleGuard → ℕ → {A : Type 0} → (A → Type 0) → Step F A → Type 0
    StepHolds life n P (going x) = P x
    StepHolds life n P (leaves y) = ExitHolds life n y

    abbrev pub Going : World F × LifecycleGuard → ℕ → Attempt × Task F → Type 0
    Going life n x = IsGoing life n x.0 x.1

    pub IsSound-send : (s : Task F) → IsSound s → IsSound (record s { sends = suc s.sends })
    IsSound-send s b = record {
      once = b.once;
      paid = b.paid;
      retries = b.retries;
      transients = b.transients;
      no_failure = b.no_failure;
    }

    pub IsSound-life :
        (s : Task F) (l : World F × LifecycleGuard) → IsSound s → IsSound (record s { life = l })
    IsSound-life s l b = record {
      once = b.once;
      paid = b.paid;
      retries = b.retries;
      transients = b.transients;
      no_failure = b.no_failure;
    }

    pub IsSound-act : (x : Act) (s : Task F) → is_plain x ≡ true → IsSound s → IsSound (act x s)
    IsSound-act x s p b = record {
      once = plain-IsOnce x s.log p b.once;
      paid = rw (plain-resends x s.log p) b.paid;
      retries = b.retries;
      transients = b.transients;
      no_failure = rw (plain-has_failure x s.log p) b.no_failure;
    }

    pub send-holds :
        (life : World F × LifecycleGuard) (n : ℕ) (P : Attempt × Task F → Type 0) (x : Act)
        (a : Attempt) (s : Task F)
        → IsSound s
        → P (a, act x (record s { sends = suc s.sends }))
        → StepHolds life n P (send J e x a s)
    unfolding send
    send-holds life n P x a s b g = elim (Bool-cases (e.is_connected s.sends)) [
      | inl y ↦ rw y g
      | inr k ↦ rw k (IsSound-send s b, (s.sends, refl, k))
    ]

    pub if-holds :
        (life : World F × LifecycleGuard) (n : ℕ) {A : Type 0} (P : A → Type 0) (b : Bool)
        (x y : Step F A)
        → (b ≡ true → StepHolds life n P x)
        → (b ≡ false → StepHolds life n P y)
        → StepHolds life n P (if b then x else y)
    if-holds life n P = if_elim (StepHolds life n P)

    pub and_then-holds :
        (life : World F × LifecycleGuard) (n : ℕ) {A B : Type 0} (P : A → Type 0) (Q : B → Type 0)
        (x : Step F A) (f : A → Step F B)
        → StepHolds life n P x
        → ((a : A) → P a → StepHolds life n Q (f a))
        → StepHolds life n Q (and_then x f)
    and_then-holds life n P Q (going a) f h k = k a h
    and_then-holds life n P Q (leaves y) f h k = h

    -- A plain act of an attempt that has been accepted.
    Going-accepted :
        (life : World F × LifecycleGuard) (n : ℕ) (x : Act) (a : Attempt) (s : Task F)
        → is_plain x ≡ true
        → a.accepted ≡ true
        → has_terminal (x ∷ s.log) ≡ true
        → s.attempt + s.transient_attempt ≡ n
        → IsSound s
        → StepHolds life n (Going life n) (send J e x a s)
    Going-accepted life n x a s p h t u b = send-holds life n (Going life n) x a s b (record {
      sound = IsSound-act x _ p (IsSound-send s b);
      used = u;
      silent = λ f. ground (arith, f, h);
      uncharged = λ f. ground (arith, f, h);
      terminated = λ f. t;
    })

    -- A plain act before that: it is no frame with output, or the flags have seen it.
    pub Going-pending :
        (life : World F × LifecycleGuard) (n : ℕ) (x : Act) (a : Attempt) (s : Task F)
        → is_plain x ≡ true
        → (is_quiet a ≡ true → no_output (x ∷ []) ≡ true)
        → IsGoing life n a s
        → StepHolds life n (Going life n) (send J e x a s)
    Going-pending life n x a s p q g = send-holds life n (Going life n) x a s g.sound (record {
      sound = IsSound-act x _ p (IsSound-send s g.sound);
      used = g.used;
      silent = λ f k. no_output_cons x s.log p (q k) (g.silent f k);
      uncharged = g.uncharged;
      terminated = λ f. has_terminal_cons x s.log (g.terminated f);
    })

    pub count_and_forward_frame-Going :
        (life : World F × LifecycleGuard) (n : ℕ) (f : List ℕ) (has_usage : Bool) (a : Attempt)
        (s : Task F)
        → a.accepted ≡ true
        → has_terminal (frame f ∷ s.log) ≡ true
        → s.attempt + s.transient_attempt ≡ n
        → IsSound s
        → StepHolds life n (Going life n) (count_and_forward_frame J e f has_usage a s)
    unfolding count_and_forward_frame charge
    count_and_forward_frame-Going life n f has_usage a s h t u b =
        elim (Bool-cases (has_usage && ltb_ℤ (pos 0) (completion_tokens_from_frame J f))) [
          | inl y ↦ rw y (
              Going-accepted life n (frame f) a _ refl h t u
                (IsSound-act (counted _) _ refl (IsSound-life s _ b)))
          | inr k ↦ rw k (Going-accepted life n (frame f) a s refl h t u b)
        ]

    pub or_exit-holds :
        (life : World F × LifecycleGuard) (n : ℕ) {A : Type 0} (P : A → Type 0) (x : Step F A)
        (f : A → Exit F)
        → StepHolds life n P x
        → ((a : A) → P a → ExitHolds life n (f a))
        → ExitHolds life n (or_exit x f)
    or_exit-holds life n P (going a) f h k = k a h
    or_exit-holds life n P (leaves y) f h k = h
