-- ===== src/Gateway/Handler/Completion.antt =====
-- What an admitted request comes to, and whether it counts as completed (src/gateway/proxy.rs).
use tinyllb.Prelude.{
  ℕ, zero, suc, ◌≡◌, refl, ap, sym, ◌∙◌, Bool, true, ◌&&◌, Option, some, List, ltb, leb, inl, inr,
  Bool-cases, Option-cases, if_elim, bytes_eq,
}
use tinyllb.Prelude.Float.{Float}
use tinyllb.Scheduler.Lifecycle.{World, LifecycleGuard}
use tinyllb.Gateway.Json.{Json}
use tinyllb.Gateway.Classify.{RetryPolicy, bump_temperature}
use tinyllb.Gateway.Forward.{Run}
use tinyllb.Gateway.Forward.Degenerate.{
  Round, next, stop, panic, Settled, settled, crashed, is_degenerate, retry_round, retry_rounds,
  note_exhausted, retry_degenerate,
}

module _ {F : Float} where
  abbrev pub life_of_run : Settled F → World F × LifecycleGuard
  life_of_run (settled body n s) = s.life
  life_of_run (crashed s) = s.life

  abbrev run_of : Round F → Run F
  run_of (next body s) = s
  run_of (stop s) = s
  run_of (panic s) = s

module _ {F : Float} (J : Json F) (policy : RetryPolicy F) where
  retry_round-life :
      (reply : ℕ → Option (List ℕ)) (value : J.Value) (n : ℕ) (s : Run F)
      → (run_of (retry_round J policy reply value n s)).life ≡ s.life
  unfolding retry_round
  retry_round-life reply value n s = elim (Option-cases (bump_temperature J value n policy)) [
    | inl x ↦ rw (x, retry_round) refl
    | inr (v, x) ↦ elim (Option-cases (J.to_vec v)) [
      | inl y ↦ rw (x, y, retry_round) refl
      | inr (b, y) ↦ elim (Option-cases (reply n)) [
        | inl z ↦ rw (x, y, z, retry_round) refl
        | inr (body, z) ↦ rw (x, y, z, retry_round) refl
      ]
    ]
  ]

  retry_rounds-life :
      (fuel : ℕ) (reply : ℕ → Option (List ℕ)) (value : J.Value) (body : List ℕ) (n : ℕ) (s : Run F)
      (r : Settled F)
      → retry_rounds J policy fuel reply value body n s ≡ some r
      → life_of_run r ≡ s.life
  unfolding retry_rounds
  retry_rounds-life zero reply value body n s r h = cc
  retry_rounds-life (suc fuel) reply value body n s r h =
      elim (Bool-cases (is_degenerate J policy body && ltb n policy.max_retries)) [
        | inr k ↦
            let e : some (settled body n s) ≡ some r = rw (k, retry_rounds) at h in
            let q : settled body n s ≡ r = cc in ap life_of_run (sym q)
        | inl y ↦
            on_round (retry_round J policy reply value (suc n) s) refl
              (retry_round-life reply value (suc n) s)
              (λ body' s' q. retry_rounds-life fuel reply value body' (suc n) s' r q) y
      ]
    where
      on_round :
          (x : Round F)
          → retry_round J policy reply value (suc n) s ≡ x
          → (run_of x).life ≡ s.life
          → ((body' : List ℕ) (s' : Run F)
              → retry_rounds J policy fuel reply value body' (suc n) s' ≡ some r
              → life_of_run r ≡ s'.life)
          → (is_degenerate J policy body && ltb n policy.max_retries) ≡ true
          → life_of_run r ≡ s.life
      on_round (next body' s') p l ih y = ih body' s' (rw (y, p, retry_rounds) at h) ∙ l
      on_round (stop s') p l ih y =
          let e : some (settled body (suc n) s') ≡ some r = rw (y, p, retry_rounds) at h in
          let q : settled body (suc n) s' ≡ r = cc in ap life_of_run (sym q) ∙ l
      on_round (panic s') p l ih y =
          let e : some (crashed s') ≡ some r = rw (y, p, retry_rounds) at h in
          let q : crashed s' ≡ r = cc in ap life_of_run (sym q) ∙ l

  note_exhausted-life : (r : Settled F) → life_of_run (note_exhausted J policy r) ≡ life_of_run r
  note_exhausted-life (crashed s) = refl
  note_exhausted-life (settled body n s) =
      if_elim (λ r. life_of_run r ≡ s.life)
        (leb policy.max_retries n && is_degenerate J policy body) _ _ (λ y. refl) (λ k. refl)

  -- The retries of an answer leave the accounting alone.
  pub retry_degenerate-life :
      (reply : ℕ → Option (List ℕ)) (is_chat : Bool) (request body : List ℕ) (s : Run F)
      (r : Settled F)
      → retry_degenerate J policy reply is_chat request body s ≡ some r
      → life_of_run r ≡ s.life
  unfolding retry_degenerate
  retry_degenerate-life reply is_chat request body s r h =
      elim (Bool-cases (policy.enabled && ltb 0 policy.max_retries && is_chat)) [
        | inr k ↦ untouched (rw (k, retry_degenerate) at h)
        | inl y ↦ elim (Option-cases (J.from_slice request)) [
          | inl x ↦ untouched (rw (y, x, retry_degenerate) at h)
          | inr (value, x) ↦
              elim (Option-cases
                (retry_rounds J policy (suc policy.max_retries) reply value body 0 s)) [
                  | inl z ↦ cc (rw (y, x, z, retry_degenerate) at h)
                  | inr (r', z) ↦
                      let e : some (note_exhausted J policy r') ≡ some r =
                        rw (y, x, z, retry_degenerate) at h in
                      let q : note_exhausted J policy r' ≡ r = cc in
                      ap life_of_run (sym q)
                      ∙ note_exhausted-life r'
                      ∙ retry_rounds-life (suc policy.max_retries) reply value body 0 s r' z
                ]
        ]
      ]
    where
      untouched : some (settled body 0 s) ≡ some r → life_of_run r ≡ s.life
      untouched e = let q : settled body 0 s ≡ r = cc in ap life_of_run (sym q)
