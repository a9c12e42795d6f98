-- ===== src/Jsonl/Tests.antt =====
-- Concrete runs of the line framing.
use stdiolink.Prelude.{ℕ, ◌≡◌, List, [], ◌∷◌, All}
use mathlib.Core.List.{flatten}
use stdiolink.Jsonl.Framing.{feed}
use stdiolink.Jsonl.Chunks.{IsText, unlines, feed-flatten, feed-unlines}

-- `{}` and a newline, cut in two, then the start of the next line.
abbrev two_chunks : List (List ℕ)
two_chunks = (123 ∷ []) ∷ (125 ∷ 10 ∷ 123 ∷ []) ∷ []

feed-flatten_example :
    feed (record { buffer = [] }) two_chunks
    ≡ feed (record { buffer = [] }) (flatten two_chunks ∷ [])
feed-flatten_example = feed-flatten two_chunks

feed-unlines_example :
    (let result = feed (record { buffer = [] }) two_chunks in
      All (All IsText) result.0
      × All IsText result.1.buffer
      × (unlines result.0 result.1.buffer ≡ flatten two_chunks))
feed-unlines_example = feed-unlines two_chunks
