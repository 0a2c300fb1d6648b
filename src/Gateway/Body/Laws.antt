-- ===== src/Gateway/Body/Laws.antt =====
-- What the proxy's rewriting of a request's body (src/gateway/proxy.rs) achieves.
use tinyllb.Prelude.{
  ℕ, ◌≡◌, refl, sym, ap, ◌∙◌, ◌⊎◌, ◌≢◌, Bool, true, false, Option, none, some, List, [], is_some,
  bytes_eq, inl, inr, Bool-cases,
}
use tinyllb.Prelude.Float.{Float}
use tinyllb.Prelude.Text.{bytes}
use tinyllb.Prelude.Table.{lookup, insert, lookup-insert_self, lookup-insert_ne}
use tinyllb.Gateway.Json.{boolean, object, Json, IsLawful, get, field, as_object}
use tinyllb.Gateway.Body.{is_true, asks_usage, json_true, with_usage, inject_include_usage}

module _ {F : Float} (J : Json F) (w : IsLawful J) where
  get-object :
      (k : List ℕ) (v : J.Value) (m : List (List ℕ × J.Value))
      → J.shape v ≡ object m
      → get J k v ≡ lookup k m
  unfolding get
  get-object k v m h = rw (h, get) refl

  as_object-shape :
      (v : J.Value) (m : List (List ℕ × J.Value)) → J.shape v ≡ object m → as_object J v ≡ some m
  unfolding as_object
  as_object-shape v m h = rw (h, as_object) refl

  -- The options are absent or an object.
  unfoldable pub has_usable_options : List (List ℕ × J.Value) → Bool
  has_usable_options m = elim (lookup (bytes "stream_options") m) [
    | none ↦ true
    | some o ↦ is_some (as_object J o)
  ]

  is_true-get :
      (k : List ℕ) (v x : J.Value) (b : Bool)
      → get J k v ≡ some x
      → J.shape x ≡ boolean b
      → is_true J k v ≡ b
  unfolding is_true field
  is_true-get k v x b h e = rw (h, e, is_true, field) refl

  is_true-insert :
      (m : List (List ℕ × J.Value))
      → is_true J
          (bytes "include_usage")
          (J.of_shape (object (insert (bytes "include_usage") (json_true J) m)))
        ≡ true
  is_true-insert m =
      is_true-get (bytes "include_usage") _ (json_true J) true
        (rw
          (get-object (bytes "include_usage") _ _
            (w.shape-of_shape (object (insert (bytes "include_usage") (json_true J) m))))
          (lookup-insert_self (bytes "include_usage") (json_true J) m))
        (w.shape-of_shape (boolean true))

  asks_usage-insert :
      (v : J.Value) (m mo : List (List ℕ × J.Value))
      → J.shape v
        ≡ object (
            insert
              (bytes "stream_options")
              (J.of_shape (object (insert (bytes "include_usage") (json_true J) mo)))
              m)
      → asks_usage J v ≡ true
  unfolding asks_usage
  asks_usage-insert v m mo h =
      rw
        (
          asks_usage,
          get-object (bytes "stream_options") v _ h,
          lookup-insert_self (bytes "stream_options")
              (J.of_shape (object (insert (bytes "include_usage") (json_true J) mo))) m,
        )
        (is_true-insert mo)

  -- What `with_usage` does to options that it can use.
  with_usage-insert :
      (m : List (List ℕ × J.Value))
      → has_usable_options m ≡ true
      → (mo : List (List ℕ × J.Value)) × (with_usage J m
          ≡ insert
              (bytes "stream_options")
              (J.of_shape (object (insert (bytes "include_usage") (json_true J) mo)))
              m)
  unfolding with_usage insert has_usable_options
  with_usage-insert m h = at (lookup (bytes "stream_options") m) refl
    where
      Goal : Type 0
      Goal =
          (mo : List (List ℕ × J.Value)) × (with_usage J m
            ≡ insert (bytes "stream_options")
                (J.of_shape (object (insert (bytes "include_usage") (json_true J) mo))) m)

      on_options :
          (o : J.Value) (x : Option (List (List ℕ × J.Value)))
          → lookup (bytes "stream_options") m ≡ some o
          → as_object J o ≡ x
          → Goal
      on_options o (some mo) p q = (mo, rw (p, q, with_usage) refl)
      on_options o none p q = let f : false ≡ true = rw (p, q, has_usable_options) at h in cc f

      at : (r : Option J.Value) → lookup (bytes "stream_options") m ≡ r → Goal
      at none p = ([], rw (p, with_usage) refl)
      at (some o) p = on_options o (as_object J o) p refl

  -- A streaming request whose options are absent or an object is forwarded as a value that asks for
  -- usage, either the request itself or one that is printed in its place; its members apart from the
  -- options are those of the request.
  pub inject_include_usage-asks :
      (body : List ℕ) (v : J.Value) (m : List (List ℕ × J.Value)) (k : List ℕ)
      → J.from_slice body ≡ some v
      → J.shape v ≡ object m
      → is_true J (bytes "stream") v ≡ true
      → has_usable_options m ≡ true
      → bytes "stream_options" ≢ k
      → (u : J.Value) × (asks_usage J u ≡ true)
        × (get J k u ≡ get J k v)
        × (((inject_include_usage J body ≡ none) × (u ≡ v))
            ⊎ (inject_include_usage J body ≡ J.to_vec u))
  unfolding inject_include_usage
  inject_include_usage-asks body v m k p q t h n = elim (Bool-cases (asks_usage J v)) [
    | inl y ↦
        (v, y, refl, inl (rw (p, as_object-shape v m q, t, y, inject_include_usage) refl, refl))
    | inr l ↦
        let (mo, c) = with_usage-insert m h in
        let u : J.Value = J.of_shape (object (with_usage J m)) in
        let s : J.shape u ≡ object (with_usage J m) = w.shape-of_shape (object (with_usage J m)) in
        (
          u,
          asks_usage-insert u m mo (s ∙ ap (λ x. object x) c),
          get-object k u _ s
              ∙ ap (λ x. lookup k x) c
              ∙ lookup-insert_ne (bytes "stream_options") k _ m n
              ∙ sym (get-object k v m q),
          inr (rw (p, as_object-shape v m q, t, l, inject_include_usage) refl),
        )
  ]
