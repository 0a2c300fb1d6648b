-- ===== src/Gateway/Forward/Settles.antt =====
-- The retries of a degenerate answer (src/gateway/proxy.rs) stay within their budget.
use tinyllb.Prelude.{
  ℕ, zero, suc, ◌+◌, ◌≤◌, ◌<◌, ◌≡◌, refl, ◌⊎◌, Bool, true, ◌&&◌, Option, some, List, ltb, leb,
  arith, inl, inr, Bool-cases, Option-cases, if_elim,
}
use tinyllb.Prelude.Float.{Float}
use tinyllb.Gateway.Json.{Json}
use tinyllb.Gateway.Classify.{RetryPolicy, bump_temperature}
use tinyllb.Gateway.Stream.{premature_stop_exhausted_total}
use tinyllb.Gateway.Stream.Invariant.{resends}
use tinyllb.Gateway.Forward.{Run, count}
use tinyllb.Gateway.Forward.Degenerate.{
  Round, next, stop, panic, Settled, settled, crashed, is_degenerate, retry_round, retry_rounds,
  note_exhausted, retry_degenerate,
}

abbrev run_of : {F : Float} → Round F → Run F
run_of (next body s) = s
run_of (stop s) = s
run_of (panic s) = s

module _ {F : Float} (J : Json F) (policy : RetryPolicy F) where
  -- Within the budget, and an answer that is not degenerate is left alone.
  abbrev pub Settles : List ℕ → ℕ → ℕ → Settled F → Type 0
  Settles body n sent (crashed s') = resends s'.log ≤ policy.max_retries + sent
  Settles body n sent (settled body' n' s') =
      (n' ≤ policy.max_retries)
      × (resends s'.log ≤ n' + sent)
      × ((is_degenerate J policy body ≡ true) ⊎ ((n' ≡ n) × (body' ≡ body)))

  retry_round-resends :
      (reply : ℕ → Option (List ℕ)) (value : J.Value) (n : ℕ) (s : Run F)
      → resends (run_of (retry_round J policy reply value n s)).log ≤ suc (resends s.log)
  unfolding retry_round
  retry_round-resends reply value n s = elim (Option-cases (bump_temperature J value n policy)) [
    | inl x ↦ rw (x, retry_round) (omega arith)
    | inr (v, x) ↦ elim (Option-cases (J.to_vec v)) [
      | inl y ↦ rw (x, y, retry_round) (omega arith)
      | inr (b, y) ↦ elim (Option-cases (reply n)) [
        | inl z ↦ rw (x, y, z, retry_round) (omega arith)
        | inr (body, z) ↦ rw (x, y, z, retry_round) (omega arith)
      ]
    ]
  ]

  retry_rounds-Settles :
      (fuel : ℕ) (reply : ℕ → Option (List ℕ)) (value : J.Value) (body : List ℕ) (n sent : ℕ)
      (s : Run F)
      → n ≤ policy.max_retries
      → policy.max_retries < fuel + n
      → resends s.log ≤ n + sent
      → (r : Settled F) × (retry_rounds J policy fuel reply value body n s ≡ some r)
        × Settles body n sent r
  unfolding retry_rounds
  retry_rounds-Settles zero reply value body n sent s l f h = absurd (omega arith)
  retry_rounds-Settles (suc fuel) reply value body n sent s l f h =
      elim (Bool-cases (is_degenerate J policy body && ltb n policy.max_retries)) [
        | inr k ↦ (settled body n s, rw (k, retry_rounds) refl, (l, h, inr (refl, refl)))
        | inl y ↦
            on_round (retry_round J policy reply value (suc n) s) refl
              (retry_round-resends reply value (suc n) s) (ground (arith, y)) (ground (arith, y)) y
              (λ body' s' q.
                retry_rounds-Settles fuel reply value body' (suc n) sent s' (ground (arith, y))
                  (omega arith) q)
      ]
    where
      widen :
          (body' : List ℕ) (r : Settled F)
          → is_degenerate J policy body ≡ true
          → Settles body' (suc n) sent r
          → Settles body n sent r
      widen body' (settled body'' n' s') d c = (c.0, c.1, inl d)
      widen body' (crashed s') d c = c

      on_round :
          (x : Round F)
          → retry_round J policy reply value (suc n) s ≡ x
          → resends (run_of x).log ≤ suc (resends s.log)
          → is_degenerate J policy body ≡ true
          → n < policy.max_retries
          → (is_degenerate J policy body && ltb n policy.max_retries) ≡ true
          → ((body' : List ℕ) (s' : Run F)
              → resends s'.log ≤ suc n + sent
              → (r : Settled F) × (retry_rounds J policy fuel reply value body' (suc n) s' ≡ some r)
                × Settles body' (suc n) sent r)
          → (r : Settled F) × (retry_rounds J policy (suc fuel) reply value body n s ≡ some r)
            × Settles body n sent r
      on_round (next body' s') p q d b y ih =
          let (r, e, c) = ih body' s' (omega (arith, q, h)) in
          (r, rw (y, p, retry_rounds) e, widen body' r d c)
      on_round (stop s') p q d b y ih = (
        settled body (suc n) s',
        rw (y, p, retry_rounds) refl,
        (omega arith, omega (arith, q, h), inl d),
      )
      on_round (panic s') p q d b y ih =
          (crashed s', rw (y, p, retry_rounds) refl, omega (arith, q, h, b))

  note_exhausted-Settles :
      (body : List ℕ) (sent : ℕ) (r : Settled F)
      → Settles body 0 sent r
      → Settles body 0 sent (note_exhausted J policy r)
  note_exhausted-Settles body sent (crashed s) c = c
  note_exhausted-Settles body sent (settled body' n s) c =
      if_elim (Settles body 0 sent) (leb policy.max_retries n && is_degenerate J policy body')
        (settled body' n (count premature_stop_exhausted_total s)) (settled body' n s) (λ y. c)
        (λ k. c)

  -- The retries of an answer end, with at most max_retries new requests and no more than the retries
  -- counted, and an answer that is not degenerate is passed on as it is, with no retry.
  pub retry_degenerate-Settles :
      (reply : ℕ → Option (List ℕ)) (is_chat : Bool) (request body : List ℕ) (s : Run F)
      → (r : Settled F) × (retry_degenerate J policy reply is_chat request body s ≡ some r)
        × Settles body 0 (resends s.log) r
  unfolding retry_degenerate
  retry_degenerate-Settles reply is_chat request body s =
      elim (Bool-cases (policy.enabled && ltb 0 policy.max_retries && is_chat)) [
        | inr k ↦ (settled body 0 s, rw (k, retry_degenerate) refl, unchanged)
        | inl y ↦ elim (Option-cases (J.from_slice request)) [
          | inl x ↦ (settled body 0 s, rw (y, x, retry_degenerate) refl, unchanged)
          | inr (value, x) ↦
              let (r, p, c) = rounds value in
              (
                note_exhausted J policy r,
                rw (y, x, p, retry_degenerate) refl,
                note_exhausted-Settles body (resends s.log) r c,
              )
        ]
      ]
    where
      unchanged : Settles body 0 (resends s.log) (settled body 0 s)
      unchanged = (omega arith, omega arith, inr (refl, refl))

      rounds :
          (value : J.Value)
          → (r : Settled F) × (retry_rounds J policy (suc policy.max_retries) reply value body 0 s
              ≡ some r)
            × Settles body 0 (resends s.log) r
      rounds value =
          retry_rounds-Settles (suc policy.max_retries) reply value body 0 (resends s.log) s
            (omega arith) (omega arith) (omega arith)
