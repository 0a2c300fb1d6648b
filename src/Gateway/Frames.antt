-- ===== src/Gateway/Frames.antt =====
-- The framing of a backend's event stream: SseFrameParser of src/gateway/retry.rs.
pub mod Delimiter
pub mod Laws
use tinyllb.Prelude.{
  ℕ, zero, suc, ◌+◌, Bool, ◌&&◌, List, [], ◌∷◌, ◌++◌, Option, none, some, ◌==◌, if◌then◌else◌,
  length, take, drop,
}

pub record SseFrameParser : Type 0 where
  pub buffer : List ℕ

abbrev pub new : SseFrameParser
new = record { buffer = [] }

abbrev pub cr : ℕ
cr = 13

abbrev pub lf : ℕ
lf = 10

-- `buf.get(search_start + 2) == Some('\r')` and the byte after it.
abbrev pub is_crlf : List ℕ → Bool
is_crlf [] = Bool.false
is_crlf (x ∷ []) = Bool.false
is_crlf (x ∷ y ∷ s) = (x == cr) && (y == lf)

abbrev pub bump : Option ℕ → Option ℕ
bump none = none
bump (some n) = some (suc n)

-- The loop of `find_delimiter` over the buffer from `search_start` on; the offset is from there.
unfoldable pub find_delimiter : List ℕ → Option ℕ
find_delimiter [] = none
find_delimiter (a ∷ []) = none
find_delimiter (a ∷ b ∷ s) =
    let later = find_delimiter (b ∷ s) in
    if (a == cr) && (b == lf) && is_crlf s
    then some 4
    else if (a == lf) && (b == lf)
    then some 2
    else bump later

-- The rounds of the loop: the events in order and what the buffer keeps.
unfoldable pub extract_loop : ℕ → List ℕ → List (List ℕ) × List ℕ
extract_loop zero buf = ([], buf)
extract_loop (suc fuel) buf = elim (find_delimiter buf) [
  | none ↦ ([], buf)
  | some end ↦
      let (events, rest) = extract_loop fuel (drop end buf) in (take end buf ∷ events, rest)
]

-- Every event takes two bytes at least, so a round for each byte is enough.
unfoldable pub extract_events : SseFrameParser → SseFrameParser × List (List ℕ)
extract_events p =
    let (events, rest) = extract_loop (length p.buffer) p.buffer in
    (record { buffer = rest }, events)

unfoldable pub feed : List ℕ → SseFrameParser → SseFrameParser × List (List ℕ)
unfolding extract_events
feed chunk p = extract_events (record { buffer = p.buffer ++ chunk })

unfoldable pub finish : SseFrameParser → List (List ℕ)
finish p = elim (p.buffer) [ [] ↦ [] | b ∷ bs ↦ (b ∷ bs) ∷ [] ]

-- A stream that arrives in chunks.
unfoldable pub feed_all : List (List ℕ) → SseFrameParser → SseFrameParser × List (List ℕ)
feed_all [] p = (p, [])
feed_all (c ∷ cs) p =
    let (p', events) = feed c p in let (q, later) = feed_all cs p' in (q, events ++ later)
