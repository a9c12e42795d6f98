-- ===== src/Jsonl/Framing.antt =====
-- JsonlParser and the loops that take lines from it.
use stdiolink.Prelude.{
  ℕ, zero, suc, ◌+◌, Option, none, some, List, [], ◌∷◌, ◌++◌, length, take, drop, ◌==◌,
  if◌then◌else◌,
}

abbrev pub newline : ℕ
newline = 10

unfoldable pub one_later : Option ℕ → Option ℕ
one_later none = none
one_later (some i) = some (suc i)

-- QByteArray::indexOf of one byte, with none for -1.
unfoldable pub index_of : ℕ → List ℕ → Option ℕ
index_of b [] = none
index_of b (x ∷ xs) = let later = one_later (index_of b xs) in if x == b then some 0 else later

-- JsonlParser: its buffer.
pub record JsonlParser : Type 0 where
  pub buffer : List ℕ

unfoldable pub append : JsonlParser → List ℕ → JsonlParser
append parser bytes = record { buffer = parser.buffer ++ bytes }

-- Whether there was a line, with the line, and the parser afterwards.
unfoldable pub cut_at : List ℕ → Option ℕ → Option (List ℕ) × JsonlParser
cut_at buffer none = (none, record { buffer = buffer })
cut_at buffer (some i) = (some (take i buffer), record { buffer = drop (i + 1) buffer })

unfoldable pub try_read_line : JsonlParser → Option (List ℕ) × JsonlParser
try_read_line parser = cut_at parser.buffer (index_of newline parser.buffer)

unfoldable pub clear : JsonlParser → JsonlParser
clear parser = record { buffer = [] }

unfoldable pub buffer_size : JsonlParser → ℕ
buffer_size parser = length parser.buffer

-- `while (tryReadLine(line))`, with fuel: the lines and the parser afterwards.
unfoldable pub drain_step :
    (JsonlParser → List (List ℕ) × JsonlParser)
    → Option (List ℕ) × JsonlParser
    → List (List ℕ) × JsonlParser
drain_step rest (none, parser) = ([], parser)
drain_step rest (some line, parser) = (line ∷ (rest parser).0, (rest parser).1)

unfoldable pub drain : ℕ → JsonlParser → List (List ℕ) × JsonlParser
drain zero parser = ([], parser)
drain (suc fuel) parser = drain_step (drain fuel) (try_read_line parser)

-- A reader that appends each chunk as it comes and then takes all lines, with one round more than there
-- are bytes.
unfoldable pub feed : JsonlParser → List (List ℕ) → List (List ℕ) × JsonlParser
feed parser [] = ([], parser)
feed parser (chunk ∷ chunks) =
    let filled = append parser chunk in
    let (lines, left) = drain (suc (buffer_size filled)) filled in
    let (more, last) = feed left chunks in (lines ++ more, last)
