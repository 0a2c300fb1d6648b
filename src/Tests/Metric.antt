-- ===== src/Tests/Metric.antt =====
-- Concrete runs of the token accumulator (src/gateway/stream.rs), on a count that is cut.
use tinyllb.Prelude.{ℕ, ◌+◌, ◌-◌, ◌*◌, ◌≡◌, refl, Option, some, none, List, [], ◌∷◌, ◌++◌}
use tinyllb.Prelude.Int.{ℤ, pos, ◌+ℤ◌}
use tinyllb.Prelude.Words.{add_i64, wrap_i64}
use tinyllb.Prelude.Text.{bytes}
use tinyllb.Gateway.Metric.{
  new, token_key, after_key, after_colon, skip_blanks, value_text, count_after, extract_loop, feed,
}

-- The decimal number of some digits.
abbrev value_of : ℕ → List ℕ → ℕ
value_of n [] = n
value_of n (d ∷ ds) = value_of (10 * n + (d - 48)) ds

abbrev decimal : List ℕ → Option ℤ
decimal [] = none
decimal (d ∷ ds) = some (pos (value_of 0 (d ∷ ds)))

whole_count : (feed decimal (token_key ++ bytes ":123}") new).1 ≡ pos 123
unfolding feed extract_loop after_key count_after after_colon skip_blanks value_text add_i64
    wrap_i64 ◌+ℤ◌
whole_count = refl

-- Digits that a chunk cuts off are lost.
cut_count :
    ((feed decimal (token_key ++ bytes ":12") new).1 ≡ pos 12)
    × ((feed decimal (bytes "3}") (feed decimal (token_key ++ bytes ":12") new).0).1 ≡ pos 0)
unfolding feed extract_loop after_key count_after after_colon skip_blanks value_text add_i64
    wrap_i64 ◌+ℤ◌
cut_count = (refl, refl)

-- So is the whole count if the chunk ends with the key.
lost_count : (feed decimal (bytes ":123}") (feed decimal token_key new).0).1 ≡ pos 0
unfolding feed extract_loop after_key count_after after_colon skip_blanks value_text add_i64
    wrap_i64 ◌+ℤ◌
lost_count = refl
