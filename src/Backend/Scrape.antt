-- ===== src/Backend/Scrape.antt =====
-- The parsers of the backend monitor (src/backend/mod.rs) and the pressure that it derives.
use tinyllb.Prelude.{
  ℕ, ◌+◌, ◌%◌, Bool, true, false, not, ◌&&◌, Option, none, some, List, [], ◌∷◌, if◌then◌else◌, ◌==◌,
  same, bytes_eq,
}
use tinyllb.Prelude.Words.{u64_mod}
use tinyllb.Prelude.Float.{Float, IsOrdered}
use tinyllb.Prelude.Float
use tinyllb.Prelude.Text.{bytes, split_at_byte}
use tinyllb.Backend.{BackendSnapshot, default_snapshot}

-- What the parser uses of the standard library: `char::is_whitespace`, `parse::<f64>` and the
-- saturating `as u64`.
pub record Scan (F : Float) : Type 0 where
  pub is_whitespace : ℕ → Bool
  pub parse_f64 : List ℕ → Option F.Carrier
  pub to_u64 : F.Carrier → ℕ

pub record ParseSnapshotResult (F : Float) : Type 0 where
  pub snapshot : BackendSnapshot F
  pub found_usage : Bool
  pub found_free : Bool
  pub found_llamacpp : Bool

pub record SlotKv : Type 0 where
  pub n_ctx : ℕ
  pub n_prompt_tokens : ℕ

-- `&line[..line.find(c)?]`
unfoldable pub before : ℕ → List ℕ → Option (List ℕ)
before c [] = none
before c (x ∷ s) =
    let rest = before c s in
    if x == c then some [] else elim rest [ none ↦ none | some t ↦ some (x ∷ t) ]

module _ {F : Float} (scan : Scan F) where
  unfoldable pub trim_left : List ℕ → List ℕ
  trim_left [] = []
  trim_left (x ∷ s) = let rest = trim_left s in if scan.is_whitespace x then rest else x ∷ s

  unfoldable pub trim_right : List ℕ → List ℕ
  trim_right [] = []
  trim_right (x ∷ s) = elim (trim_right s) [
    | [] ↦ if scan.is_whitespace x then [] else x ∷ []
    | y ∷ t ↦ x ∷ y ∷ t
  ]

  -- `split_whitespace().last()` of a trimmed line: what follows its last whitespace.
  unfoldable pub last_token : List ℕ → List ℕ
  last_token [] = []
  last_token (x ∷ s) = let rest = last_token s in if has_whitespace (x ∷ s) then rest else x ∷ s
    where
      has_whitespace : List ℕ → Bool
      has_whitespace [] = false
      has_whitespace (y ∷ t) =
          let rest = has_whitespace t in if scan.is_whitespace y then true else rest

  unfoldable pub parse_prometheus_line : List ℕ → Option (List ℕ × F.Carrier)
  parse_prometheus_line raw = elim (trim_right (trim_left raw)) [
    | [] ↦ none
    | x ∷ s ↦
        if x == 35
        then none
        else named (x ∷ s)
            (elim (before 123 (x ∷ s)) [ some name ↦ some name | none ↦ before 32 (x ∷ s) ])
  ]
    where
      named : List ℕ → Option (List ℕ) → Option (List ℕ × F.Carrier)
      named line none = none
      named line (some name) = elim (scan.parse_f64 (last_token line)) [
        | none ↦ none
        | some v ↦ some (name, v)
      ]

  abbrev snap : ParseSnapshotResult F → BackendSnapshot F → ParseSnapshotResult F
  snap r s = record r { snapshot = s }

  abbrev llamacpp : ParseSnapshotResult F → BackendSnapshot F → ParseSnapshotResult F
  llamacpp r s = record r { snapshot = s; found_llamacpp = true }

  unfoldable pub apply_metric : List ℕ → F.Carrier → ParseSnapshotResult F → ParseSnapshotResult F
  apply_metric name value r =
      let s = r.snapshot in
      if same name (bytes "vllm:gpu_cache_usage_perc")
      then record r { snapshot = record s { kv_usage = value }; found_usage = true }
      else if same name (bytes "vllm:kv_cache_usage_perc")
      then record r { snapshot = record s { kv_usage = value }; found_usage = true }
      else if same name (bytes "vllm:gpu_cache_free_perc")
      then record r { snapshot = record s { kv_free = value }; found_free = true }
      else if same name (bytes "vllm:num_preemptions_total")
      then snap r (record s { preemptions = scan.to_u64 value })
      else if same name (bytes "vllm:generation_tokens_total")
      then snap r (record s { generation_tokens = value })
      else if same name (bytes "vllm:prompt_tokens_total")
      then snap r (record s { prompt_tokens = value })
      else if same name (bytes "vllm:num_requests_running")
      then snap r (record s { requests_running = value })
      else if same name (bytes "vllm:num_requests_waiting")
      then snap r (record s { requests_waiting = value })
      else if same name (bytes "llamacpp:requests_processing")
      then llamacpp r (record s { requests_running = value })
      else if same name (bytes "llamacpp:requests_deferred")
      then llamacpp r (record s { requests_waiting = value })
      else if same name (bytes "llamacpp:prompt_tokens_total")
      then llamacpp r (record s { prompt_tokens = value })
      else if same name (bytes "llamacpp:tokens_predicted_total")
      then llamacpp r (record s { generation_tokens = value })
      else if same name (bytes "llamacpp:prompt_tokens_cached_total")
      then llamacpp r (record s { cached_prompt_tokens = value })
      else if same name (bytes "llamacpp:n_decode_total")
      then llamacpp r (record s { decode_calls = value })
      else r

  unfoldable pub apply_lines : List (List ℕ) → ParseSnapshotResult F → ParseSnapshotResult F
  apply_lines [] r = r
  apply_lines (line ∷ lines) r = elim (parse_prometheus_line line) [
    | none ↦ apply_lines lines r
    | some m ↦ apply_lines lines (apply_metric m.0 m.1 r)
  ]

  -- The free share follows from the usage where the backend gives only that.
  unfoldable pub derive_free : ParseSnapshotResult F → ParseSnapshotResult F
  derive_free r =
      if r.found_usage && not r.found_free && F.lt r.snapshot.kv_usage F.one
      then record r { snapshot = record (r.snapshot) { kv_free = F.sub F.one r.snapshot.kv_usage } }
      else r

  -- The carriage return that `lines` drops is trimmed with the line.
  unfoldable pub parse_snapshot : List ℕ → ParseSnapshotResult F
  parse_snapshot body = derive_free (
      apply_lines (split_at_byte 10 body) (record {
        snapshot = default_snapshot F;
        found_usage = false;
        found_free = false;
        found_llamacpp = false;
      }))

-- A slot that gives no n_ctx is skipped. The entries are those of serde's parser.
unfoldable pub parse_slots : Option (List (Option ℕ × ℕ)) → Option (List SlotKv)
parse_slots none = none
parse_slots (some []) = none
parse_slots (some (w ∷ ws)) = some (known (w ∷ ws))
  where
    known : List (Option ℕ × ℕ) → List SlotKv
    known [] = []
    known ((none, n) ∷ ws) = known ws
    known ((some n_ctx, n) ∷ ws) = record { n_ctx = n_ctx; n_prompt_tokens = n } ∷ known ws

abbrev pub sum_u64 : List ℕ → ℕ
sum_u64 [] = 0
sum_u64 (n ∷ ns) = (n + sum_u64 ns) % u64_mod

abbrev first_ctx : List SlotKv → Option ℕ
first_ctx [] = none
first_ctx (s ∷ ss) = some s.n_ctx

abbrev prompt_tokens_of : List SlotKv → List ℕ
prompt_tokens_of [] = []
prompt_tokens_of (s ∷ ss) = s.n_prompt_tokens ∷ prompt_tokens_of ss

abbrev ctx_of : List SlotKv → List ℕ
ctx_of [] = []
ctx_of (s ∷ ss) = s.n_ctx ∷ ctx_of ss

-- The share of the pool that is in use, within 0 and 1.
unfoldable pub slots_kv_usage : (F : Float) → List SlotKv → Bool → Option F.Carrier
slots_kv_usage F slots kv_unified =
    let used = sum_u64 (prompt_tokens_of slots) in
    let pool : Option ℕ = if kv_unified then first_ctx slots else some (sum_u64 (ctx_of slots)) in
    elim pool [
      | none ↦ none
      | some p ↦
          if p == 0
          then none
          else some (Float.clamp F F.zero F.one (F.div (F.of_ℕ used) (F.of_ℕ p)))
    ]
