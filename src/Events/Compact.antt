-- ===== src/Events/Compact.antt =====
-- What the copy leaves out.
use csharp_llm_benchmark.Prelude.{
  is_empty, ℕ, zero, suc, ◌≡◌, refl, sym, ap, ◌∙◌, ◌<◌, ◌≤◌, Option, some, List, [], ◌∷◌, ◌++◌,
  append-nil, append_assoc, length, take, Bool, true, false, ◌==◌, nat_eq, arith, if◌then◌else◌,
  ◌>>=◌,
}
use csharp_llm_benchmark.Prelude.Text.{Text, text_eq}
use csharp_llm_benchmark.Events.{
  newline, line_at, readline, ends_line, prefix_size, chunk_size, kept, written_first, after_chunk,
  drain, is_kept, copy_compact_events,
}

-- The first line with its end, and what is behind it.
abbrev pub next_line : List ℕ → List ℕ × List ℕ
next_line [] = ([], [])
next_line (c ∷ s) = line_at (c == newline) c s (next_line s)

-- What is left of a line, of which the part before has been read.
abbrev tail_of : Bool → List ℕ → List ℕ × List ℕ
tail_of true s = ([], s)
tail_of false s = next_line s

abbrev joined : List ℕ → List ℕ → List ℕ × List ℕ
joined l r = (l ++ (tail_of (ends_line l) r).0, (tail_of (ends_line l) r).1)

joined-cons :
    (c : ℕ) (l r : List ℕ)
    → (c == newline) ≡ false
    → joined (c ∷ l) r ≡ (c ∷ (joined l r).0, (joined l r).1)
joined-cons c [] r h = rw (h) refl
joined-cons c (d ∷ l) r h = refl

readline-joined : (n : ℕ) (s : List ℕ) → next_line s ≡ joined (readline n s).0 (readline n s).1
readline-joined zero s = refl
readline-joined (suc n) [] = refl
readline-joined (suc n) (c ∷ s) = go (c == newline) refl (readline-joined n s)
  where
    go :
        (b : Bool)
        → (c == newline) ≡ b
        → next_line s ≡ joined (readline n s).0 (readline n s).1
        → line_at b c s (next_line s)
          ≡ joined (line_at b c s (readline n s)).0 (line_at b c s (readline n s)).1
    go true e ih = rw (e) refl
    go false e ih =
        rw (joined-cons c (readline n s).0 (readline n s).1 e)
          (ap (λ (p : List ℕ × List ℕ). (c ∷ p.0, p.1)) ih)

take-readline :
    (n : ℕ) (s : List ℕ) → take n (joined (readline n s).0 (readline n s).1).0 ≡ (readline n s).0
take-readline zero s = refl
take-readline (suc n) [] = refl
take-readline (suc n) (c ∷ s) = go (c == newline) refl (take-readline n s)
  where
    go :
        (b : Bool)
        → (c == newline) ≡ b
        → take n (joined (readline n s).0 (readline n s).1).0 ≡ (readline n s).0
        → take (suc n) (joined (line_at b c s (readline n s)).0 (line_at b c s (readline n s)).1).0
          ≡ (line_at b c s (readline n s)).0
    go true e ih = rw (e) (take_nil n)
      where
        take_nil : (k : ℕ) → c ∷ take k [] ≡ c ∷ []
        take_nil zero = refl
        take_nil (suc k) = refl
    go false e ih =
        ap (λ (p : List ℕ × List ℕ). take (suc n) p.0)
          (joined-cons c (readline n s).0 (readline n s).1 e)
        ∙ ap (λ (l : List ℕ). c ∷ l) ih

readline-length : (n : ℕ) (s : List ℕ) → length (readline n s).1 ≤ length s
readline-length zero s = omega arith
readline-length (suc n) [] = omega arith
readline-length (suc n) (c ∷ s) = go (c == newline) (readline-length n s)
  where
    go :
        (b : Bool)
        → length (readline n s).1 ≤ length s
        → length (line_at b c s (readline n s)).1 ≤ suc (length s)
    go true ih = omega arith
    go false ih = omega (arith, ih)

next_line-length : (s : List ℕ) → length (next_line s).1 ≤ length s
next_line-length [] = omega arith
next_line-length (c ∷ s) = go (c == newline) (next_line-length s)
  where
    go :
        (b : Bool)
        → length (next_line s).1 ≤ length s
        → length (line_at b c s (next_line s)).1 ≤ suc (length s)
    go true ih = omega arith
    go false ih = omega (arith, ih)

next_line-shorter : (c : ℕ) (s : List ℕ) → length (next_line (c ∷ s)).1 ≤ length s
next_line-shorter c s = go (c == newline) (next_line-length s)
  where
    go :
        (b : Bool)
        → length (next_line s).1 ≤ length s
        → length (line_at b c s (next_line s)).1 ≤ length s
    go true less = omega arith
    go false less = less

-- The first read of a source that is not at its end reads something, and the source gets shorter.
read_some :
    (n c : ℕ) (s : List ℕ)
    → (d : ℕ) × (l : List ℕ) × ((readline (suc n) (c ∷ s)).0 ≡ d ∷ l)
      × (length (readline (suc n) (c ∷ s)).1 ≤ length s)
read_some n c s = go (c == newline) (readline-length n s)
  where
    go :
        (b : Bool)
        → length (readline n s).1 ≤ length s
        → (d : ℕ) × (l : List ℕ) × ((line_at b c s (readline n s)).0 ≡ d ∷ l)
          × (length (line_at b c s (readline n s)).1 ≤ length s)
    go true less = (c, [], refl, omega arith)
    go false less = (c, (readline n s).0, refl, less)

kept-append : (keep : Bool) (a b : List ℕ) → kept keep a ++ kept keep b ≡ kept keep (a ++ b)
kept-append true a b = refl
kept-append false a b = refl

-- What comes of a chunk that is not empty.
chunk_read :
    (keep : Bool) (chunk : List ℕ) (read line : List ℕ × List ℕ) (rest : Option (List ℕ × List ℕ))
    (d : ℕ) (l : List ℕ)
    → read.0 ≡ d ∷ l
    → line ≡ joined read.0 read.1
    → rest ≡ some (kept keep (joined read.0 read.1).0, (joined read.0 read.1).1)
    → after_chunk (kept keep chunk) read rest ≡ some (kept keep (chunk ++ line.0), line.1)
chunk_read keep chunk ([], r) line rest d l e same h = absurd (cc)
chunk_read keep chunk (x ∷ xs, r) line rest d l e same h =
    let whole = joined (x ∷ xs) r in
    ap (written_first (kept keep chunk)) h
    ∙ ap (λ (w : List ℕ). some (w, whole.1)) (kept-append keep chunk whole.0)
    ∙ ap (λ (p : List ℕ × List ℕ). some (kept keep (chunk ++ p.0), p.1)) (sym same)

-- The inner loop writes the rest of the line or nothing, and leaves what is behind it.
drain_lem :
    (fuel : ℕ) (keep : Bool) (chunk s : List ℕ)
    → length s < fuel
    → drain fuel keep chunk s ≡ some (kept keep (joined chunk s).0, (joined chunk s).1)
unfolding drain
drain_lem zero keep chunk s less = absurd (omega (arith, less))
drain_lem (suc fuel) keep chunk s less =
    go (ends_line chunk) s less
      (λ t shorter. drain_lem fuel keep (readline chunk_size t).0 (readline chunk_size t).1 shorter)
  where
    go :
        (b : Bool) (t : List ℕ)
        → length t < suc fuel
        → ((u : List ℕ)
            → length (readline chunk_size u).1 < fuel
            → drain fuel keep (readline chunk_size u).0 (readline chunk_size u).1
              ≡ some (
                kept keep (joined (readline chunk_size u).0 (readline chunk_size u).1).0,
                (joined (readline chunk_size u).0 (readline chunk_size u).1).1,
              ))
        → (if b
            then some (kept keep chunk, t)
            else after_chunk
                (kept keep chunk)
                (readline chunk_size t)
                (drain fuel keep (readline chunk_size t).0 (readline chunk_size t).1))
          ≡ some (kept keep (chunk ++ (tail_of b t).0), (tail_of b t).1)
    go true t less ih = rw (append-nil chunk) refl
    go false [] less ih = rw (append-nil chunk) refl
    go false (c ∷ t) less ih =
        let (d, l, e, shorter) = read_some 65535 c t in
        chunk_read keep chunk (readline chunk_size (c ∷ t)) (next_line (c ∷ t)) _ d l e
          (readline-joined chunk_size (c ∷ t)) (ih (c ∷ t) (omega (arith, shorter, less)))

module _ (event_type : List ℕ → Option Text) where
  -- A line as a whole, by its first bytes.
  abbrev pub compact_line : List ℕ → List ℕ
  compact_line line = kept (is_kept event_type (take prefix_size line)) line

  -- The lines that are kept, one after another; `line` is what has been seen of the current one.
  abbrev pub compact : List ℕ → List ℕ → List ℕ
  compact line [] = compact_line line
  compact line (c ∷ s) =
      if c == newline
      then compact_line (line ++ c ∷ []) ++ compact [] s
      else compact (line ++ c ∷ []) s

  compact_line_nil : compact_line [] ≡ []
  compact_line_nil = go (is_kept event_type [])
    where
      go : (keep : Bool) → kept keep [] ≡ []
      go true = refl
      go false = refl

  compact-next_line :
      (line s : List ℕ)
      → compact line s ≡ compact_line (line ++ (next_line s).0) ++ compact [] (next_line s).1
  compact-next_line line [] =
      ap compact_line (sym (append-nil line))
      ∙ sym (append-nil (compact_line (line ++ [])))
      ∙ ap (λ (l : List ℕ). compact_line (line ++ []) ++ l) (sym compact_line_nil)
  compact-next_line line (c ∷ s) = go (c == newline) (compact-next_line (line ++ c ∷ []) s)
    where
      go :
          (b : Bool)
          → compact (line ++ c ∷ []) s
            ≡ compact_line ((line ++ c ∷ []) ++ (next_line s).0) ++ compact [] (next_line s).1
          → (if b
              then compact_line (line ++ c ∷ []) ++ compact [] s
              else compact (line ++ c ∷ []) s)
            ≡ compact_line (line ++ (line_at b c s (next_line s)).0)
              ++ compact [] (line_at b c s (next_line s)).1
      go true ih = refl
      go false ih =
          ih
          ∙ ap (λ (l : List ℕ). compact_line l ++ compact [] (next_line s).1)
              (append_assoc line (c ∷ []) (next_line s).0)

  -- With fuel for each byte and one more, the copy ends, and it has written the lines of the source
  -- in their order, but for those whose first 4096 bytes name one of the two streaming updates: how
  -- the lines are cut into chunks makes no difference.
  pub copy_compact_events-compact :
      (fuel : ℕ) (s : List ℕ)
      → length s < fuel
      → copy_compact_events event_type fuel s ≡ some (compact [] s)
  unfolding copy_compact_events
  copy_compact_events-compact zero s less = absurd (omega (arith, less))
  copy_compact_events-compact (suc fuel) [] less = ap some (sym compact_line_nil)
  copy_compact_events-compact (suc fuel) (c ∷ s) less =
      let (d, l, e, shorter) = read_some 4095 c s in
      one_line (readline prefix_size (c ∷ s)).0 (readline prefix_size (c ∷ s)).1 (next_line (c ∷ s))
        d l e (readline-joined prefix_size (c ∷ s)) (take-readline prefix_size (c ∷ s))
        (copy_compact_events-compact fuel (next_line (c ∷ s)).1
          (omega (arith, next_line-shorter c s, less)))
      ∙ sym (ap some (compact-next_line [] (c ∷ s)))
    where
      one_line :
          (prefix after : List ℕ) (line : List ℕ × List ℕ) (d : ℕ) (l : List ℕ)
          → prefix ≡ d ∷ l
          → line ≡ joined prefix after
          → take prefix_size (joined prefix after).0 ≡ prefix
          → copy_compact_events event_type fuel line.1 ≡ some (compact [] line.1)
          → (if is_empty prefix then some [] else do
            (out, rest) ← drain (suc (length after)) (is_kept event_type prefix) prefix after
            more ← copy_compact_events event_type fuel rest
            some (out ++ more))
            ≡ some (compact_line line.0 ++ compact [] line.1)
      one_line [] after line d l e same cut ih = absurd (cc)
      one_line (x ∷ xs) after line d l e same cut ih =
          let whole = joined (x ∷ xs) after in
          let ih' : copy_compact_events event_type fuel whole.1 ≡ some (compact [] whole.1) =
            (rw same at ih) in
          rw
            (
              drain_lem (suc (length after)) (is_kept event_type (x ∷ xs)) (x ∷ xs) after
                  (omega arith),
              ◌>>=◌,
            )
            (ap (λ o. o >>= (λ more. some (kept (is_kept event_type (x ∷ xs)) whole.0 ++ more))) ih'
              ∙ ap (λ p. some (kept (is_kept event_type p) whole.0 ++ compact [] whole.1)) (sym cut)
              ∙ ap (λ (p : List ℕ × List ℕ). some (compact_line p.0 ++ compact [] p.1)) (sym same))
