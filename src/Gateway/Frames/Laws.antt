-- ===== src/Gateway/Frames/Laws.antt =====
-- What the frame parser of src/gateway/retry.rs keeps and where it cuts.
use tinyllb.Prelude.{
  ℕ, zero, suc, ◌≤◌, ◌≡◌, refl, sym, ap, List, [], ◌∷◌, ◌++◌, none, some, length, take, drop, arith,
  inl, inr, Option-cases, take-append-drop, length-drop, length-append,
}
use tinyllb.Prelude.Text.{concat, append_assoc, append_nil, concat-append}
use tinyllb.Gateway.Frames.Delimiter.{
  find_delimiter_bound, find_delimiter-append, find_delimiter-take,
}
use tinyllb.Gateway.Frames.{
  SseFrameParser, new, find_delimiter, extract_loop, extract_events, feed, finish, feed_all,
}

-- Each event ends with its first delimiter, and what follows them has none.
abbrev pub IsFramed : List (List ℕ) → List ℕ → Type 0
IsFramed [] rest = find_delimiter rest ≡ none
IsFramed (e ∷ es) rest = (find_delimiter e ≡ some (length e)) × IsFramed es rest

pub IsFramed-append :
    (es fs : List (List ℕ)) (r s : List ℕ) → IsFramed es r → IsFramed fs s → IsFramed (es ++ fs) s
IsFramed-append [] fs r s h k = k
IsFramed-append (e ∷ es) fs r s h k = (h.0, IsFramed-append es fs r s h.1 k)

length-take_min : (n : ℕ) (s : List ℕ) → n ≤ length s → length (take n s) ≡ n
length-take_min zero s h = refl
length-take_min (suc n) [] h = absurd (omega arith)
length-take_min (suc n) (x ∷ s) h = ap suc (length-take_min n s (omega arith))

extract_loop-none :
    (fuel : ℕ) (s : List ℕ) → find_delimiter s ≡ none → extract_loop fuel s ≡ ([], s)
unfolding extract_loop
extract_loop-none zero s h = refl
extract_loop-none (suc fuel) s h = rw (h, extract_loop) refl

extract_loop-some :
    (fuel : ℕ) (s : List ℕ) (n : ℕ)
    → find_delimiter s ≡ some n
    → extract_loop (suc fuel) s
      ≡ (take n s ∷ (extract_loop fuel (drop n s)).0, (extract_loop fuel (drop n s)).1)
unfolding extract_loop
extract_loop-some fuel s n h = rw (h, extract_loop) refl

-- The loop loses no byte, whatever its fuel.
pub extract_loop-concat :
    (fuel : ℕ) (s : List ℕ) → concat (extract_loop fuel s).0 ++ (extract_loop fuel s).1 ≡ s
extract_loop-concat zero s = unfold extract_loop in refl
extract_loop-concat (suc fuel) s = elim (Option-cases (find_delimiter s)) [
  | inl e ↦ rw (extract_loop-none (suc fuel) s e) refl
  | inr (n, e) ↦
      rw
        (
          extract_loop-some fuel s n e,
          append_assoc (take n s) (concat (extract_loop fuel (drop n s)).0)
              (extract_loop fuel (drop n s)).1,
          extract_loop-concat fuel (drop n s),
        )
        (take-append-drop n s)
]

pub extract_loop-IsFramed :
    (fuel : ℕ) (s : List ℕ)
    → length s ≤ fuel
    → IsFramed (extract_loop fuel s).0 (extract_loop fuel s).1
extract_loop-IsFramed zero [] h = unfold extract_loop find_delimiter in refl
extract_loop-IsFramed zero (x ∷ s) h = absurd (omega arith)
extract_loop-IsFramed (suc fuel) s h = elim (Option-cases (find_delimiter s)) [
  | inl e ↦ rw (extract_loop-none (suc fuel) s e) e
  | inr (n, e) ↦
      let b : (2 ≤ n) × (n ≤ length s) = find_delimiter_bound s n e in
      let l : length (take n s) ≡ n = length-take_min n s b.1 in
      rw (extract_loop-some fuel s n e) (
        rw l (find_delimiter-take s n e),
        extract_loop-IsFramed fuel (drop n s) (omega (arith, length-drop n s, b.0, b.1)),
      )
]

take-append_length : (xs ys : List ℕ) → take (length xs) (xs ++ ys) ≡ xs
take-append_length [] ys = refl
take-append_length (x ∷ xs) ys = ap (λ t. x ∷ t) (take-append_length xs ys)

drop-append_length : (xs ys : List ℕ) → drop (length xs) (xs ++ ys) ≡ ys
drop-append_length [] ys = refl
drop-append_length (x ∷ xs) ys = drop-append_length xs ys

-- A framed text is cut into its events.
pub extract_loop-framed :
    (fuel : ℕ) (es : List (List ℕ)) (r : List ℕ)
    → IsFramed es r
    → length (concat es ++ r) ≤ fuel
    → extract_loop fuel (concat es ++ r) ≡ (es, r)
extract_loop-framed fuel [] r h l = extract_loop-none fuel r h
extract_loop-framed zero (e ∷ es) r h l = absurd (
    omega (
      arith,
      find_delimiter_bound e (length e) h.0,
      length-append e (concat es),
      length-append (e ++ concat es) r,
    ))
extract_loop-framed (suc fuel) (e ∷ es) r h l =
    let a : (e ++ concat es) ++ r ≡ e ++ (concat es ++ r) = append_assoc e (concat es) r in
    let f : find_delimiter (e ++ (concat es ++ r)) ≡ some (length e) =
      find_delimiter-append e (concat es ++ r) (length e) h.0 in
    let b : (2 ≤ length e) × (length e ≤ length e) = find_delimiter_bound e (length e) h.0 in
    let m : length (concat es ++ r) ≤ fuel =
      (omega (
        arith,
        b.0,
        length-append e (concat es),
        length-append (e ++ concat es) r,
        length-append (concat es) r,
      )) in
    rw
      (
        a,
        extract_loop-some fuel (e ++ (concat es ++ r)) (length e) f,
        take-append_length e (concat es ++ r),
        drop-append_length e (concat es ++ r),
        extract_loop-framed fuel es r h.1 m,
      )
      refl

-- Feeding a chunk loses no byte, and cuts at every delimiter and nowhere else.
pub feed-concat :
    (chunk : List ℕ) (p : SseFrameParser)
    → concat (feed chunk p).1 ++ (feed chunk p).0.buffer ≡ p.buffer ++ chunk
unfolding feed extract_events
feed-concat chunk p = extract_loop-concat (length (p.buffer ++ chunk)) (p.buffer ++ chunk)

pub feed-IsFramed :
    (chunk : List ℕ) (p : SseFrameParser) → IsFramed (feed chunk p).1 (feed chunk p).0.buffer
unfolding feed extract_events
feed-IsFramed chunk p =
    extract_loop-IsFramed (length (p.buffer ++ chunk)) (p.buffer ++ chunk) (omega arith)

pub feed_all-concat :
    (chunks : List (List ℕ)) (p : SseFrameParser)
    → concat (feed_all chunks p).1 ++ (feed_all chunks p).0.buffer ≡ p.buffer ++ concat chunks
unfolding feed_all
feed_all-concat [] p = rw (append_nil (p.buffer)) refl
feed_all-concat (c ∷ cs) p =
    rw
      (
        concat-append (feed c p).1 (feed_all cs (feed c p).0).1,
        append_assoc (concat (feed c p).1) (concat (feed_all cs (feed c p).0).1)
            (feed_all cs (feed c p).0).0.buffer,
        feed_all-concat cs (feed c p).0,
        ← append_assoc (concat (feed c p).1) (feed c p).0.buffer (concat cs),
        feed-concat c p,
      )
      (append_assoc (p.buffer) c (concat cs))

pub framed_rest : (es : List (List ℕ)) (r : List ℕ) → IsFramed es r → find_delimiter r ≡ none
framed_rest [] r h = h
framed_rest (e ∷ es) r h = framed_rest es r h.1

pub feed_all-IsFramed :
    (chunks : List (List ℕ)) (p : SseFrameParser)
    → find_delimiter (p.buffer) ≡ none
    → IsFramed (feed_all chunks p).1 (feed_all chunks p).0.buffer
unfolding feed_all
feed_all-IsFramed [] p h = h
feed_all-IsFramed (c ∷ cs) p h =
    IsFramed-append (feed c p).1 (feed_all cs (feed c p).0).1 (feed c p).0.buffer
      (feed_all cs (feed c p).0).0.buffer (feed-IsFramed c p)
      (feed_all-IsFramed cs (feed c p).0
        (framed_rest (feed c p).1 (feed c p).0.buffer (feed-IsFramed c p)))

pub feed_of_framed :
    (chunk : List ℕ) (p : SseFrameParser) (es : List (List ℕ)) (r : List ℕ)
    → IsFramed es r
    → concat es ++ r ≡ p.buffer ++ chunk
    → feed chunk p ≡ (record { buffer = r }, es)
unfolding feed extract_events
feed_of_framed chunk p es r h e =
    rw (← e, extract_loop-framed (length (concat es ++ r)) es r h (omega arith)) refl

concat-finish : (p : SseFrameParser) → concat (finish p) ≡ p.buffer
unfolding finish
concat-finish p = at (p.buffer) refl
  where
    at : (b : List ℕ) → p.buffer ≡ b → concat (finish p) ≡ p.buffer
    at [] e = rw (e, finish) refl
    at (x ∷ xs) e = rw (e, finish) (append_nil (x ∷ xs))

-- If the buffer holds no whole delimiter, a stream gives the same events and the same rest however
-- it is cut into chunks.
pub feed_all-feed :
    (chunks : List (List ℕ)) (p : SseFrameParser)
    → find_delimiter (p.buffer) ≡ none
    → feed_all chunks p ≡ feed (concat chunks) p
feed_all-feed chunks p h = sym (
    feed_of_framed (concat chunks) p (feed_all chunks p).1 (feed_all chunks p).0.buffer
      (feed_all-IsFramed chunks p h) (feed_all-concat chunks p))

-- Any events that each end with their first delimiter, sent one after the other and followed by
-- bytes without a delimiter, come out of a new parser as they were, and the bytes stay behind.
pub feed-framed :
    (es : List (List ℕ)) (r : List ℕ)
    → IsFramed es r
    → feed (concat es ++ r) new ≡ (record { buffer = r }, es)
feed-framed es r h = feed_of_framed (concat es ++ r) new es r h refl

-- A stream's events and what finish gives make up the bytes of its chunks, in order, for a new
-- parser; each event ends with its first delimiter, and what finish gives has no delimiter.
pub finish-feed_all :
    (chunks : List (List ℕ))
    → (concat (feed_all chunks new).1 ++ concat (finish (feed_all chunks new).0) ≡ concat chunks)
      × IsFramed (feed_all chunks new).1 (concat (finish (feed_all chunks new).0))
finish-feed_all chunks =
    rw (concat-finish (feed_all chunks new).0)
      (feed_all-concat chunks new, feed_all-IsFramed chunks new (unfold find_delimiter in refl))
