-- ===== src/Events.antt =====
-- benchmark/agent_events.py: `copy_compact_events`, on lists of bytes.
pub mod Compact
use csharp_llm_benchmark.Prelude.{
  is_empty, ℕ, zero, suc, Option, none, some, List, [], ◌∷◌, ◌++◌, length, Bool, true, false, not,
  ◌||◌, ◌==◌, nat_eq, ◌>>=◌, if◌then◌else◌,
}
use csharp_llm_benchmark.Prelude.Text.{Text, codes, text_eq}

abbrev pub newline : ℕ
newline = 10

-- A line that begins with a byte, which may be its end.
abbrev pub line_at : Bool → ℕ → List ℕ → List ℕ × List ℕ → List ℕ × List ℕ
line_at true c s later = (c ∷ [], s)
line_at false c s later = (c ∷ later.0, later.1)

-- `readline(n)`: what is read, and what is left of the source.
abbrev pub readline : ℕ → List ℕ → List ℕ × List ℕ
readline zero s = ([], s)
readline (suc n) [] = ([], [])
readline (suc n) (c ∷ s) = line_at (c == newline) c s (readline n s)

-- `chunk.endswith(b"\n")`
abbrev pub ends_line : List ℕ → Bool
ends_line [] = false
ends_line (c ∷ []) = c == newline
ends_line (c ∷ d ∷ l) = ends_line (d ∷ l)

abbrev pub prefix_size : ℕ
prefix_size = 4096

abbrev pub chunk_size : ℕ
chunk_size = 65536

-- What is written of a chunk.
abbrev pub kept : Bool → List ℕ → List ℕ
kept true chunk = chunk
kept false chunk = []

abbrev pub written_first : List ℕ → Option (List ℕ × List ℕ) → Option (List ℕ × List ℕ)
written_first out none = none
written_first out (some (more, rest)) = some (out ++ more, rest)

-- After a chunk that ends no line: the next one was read, and `rest` is what comes of it.
abbrev pub after_chunk :
    List ℕ → List ℕ × List ℕ → Option (List ℕ × List ℕ) → Option (List ℕ × List ℕ)
after_chunk out ([], s) rest = some (out, s)
after_chunk out (c ∷ l, s) rest = written_first out rest

-- The inner loop, on fuel: what is written, and what is left of the source.
unfoldable pub drain : ℕ → Bool → List ℕ → List ℕ → Option (List ℕ × List ℕ)
drain zero keep chunk s = none
drain (suc fuel) keep chunk s =
    let read = readline chunk_size s in
    let rest = drain fuel keep read.0 read.1 in
    if ends_line chunk then some (kept keep chunk, s) else after_chunk (kept keep chunk) read rest

module _ (event_type : List ℕ → Option Text) where
  -- The regular expression gives the type of the event, if it matches.
  abbrev pub is_kept : List ℕ → Bool
  is_kept prefix = elim (event_type prefix) [
    | none ↦ true
    | some t ↦ not (t == codes "message_update" || t == codes "tool_execution_update")
  ]

  unfoldable pub copy_compact_events : ℕ → List ℕ → Option (List ℕ)
  unfolding drain
  copy_compact_events zero s = none
  copy_compact_events (suc fuel) s =
      let (prefix, after) = readline prefix_size s in
      if is_empty prefix then some [] else do
        (out, rest) ← drain (suc (length after)) (is_kept prefix) prefix after
        more ← copy_compact_events fuel rest
        some (out ++ more)
