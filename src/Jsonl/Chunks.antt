-- ===== src/Jsonl/Chunks.antt =====
-- Texts that arrive in chunks.
use stdiolink.Prelude.{
  ℕ, zero, suc, ◌+◌, ◌<◌, ◌≡◌, inl, inr, refl, sym, ap, ap₂, ◌∙◌, true, false, Bool-cases, none,
  some, List, [], ◌∷◌, ◌++◌, append-nil, append_assoc, length, length-append, take, drop, All,
  All-append, ◌==◌, if◌then◌else◌, arith,
}
use mathlib.Core.List.{flatten}
use stdiolink.Jsonl.Framing.{
  newline, one_later, index_of, JsonlParser, append, cut_at, try_read_line, buffer_size, drain_step,
  drain, feed,
}

abbrev pub IsText : ℕ → Type 0
IsText b = (b == newline) ≡ false

abbrev pub parser_of : List ℕ → JsonlParser
parser_of bytes = record { buffer = bytes }

-- The lines of a text, and what follows its last newline, byte by byte behind `held`.
unfoldable pub scan : List ℕ → List ℕ → List (List ℕ) × List ℕ
scan held [] = ([], held)
scan held (b ∷ bs) =
    let ended = scan [] bs in
    let more = scan (held ++ (b ∷ [])) bs in
    if b == newline then (held ∷ ended.0, ended.1) else more

pub index_of-text : (held : List ℕ) → All IsText held → index_of newline held ≡ none
unfolding index_of one_later
index_of-text [] h = refl
index_of-text (x ∷ xs) h = rw (h.0, index_of-text xs h.1) refl

index_of-newline :
    (held : List ℕ) (b : ℕ) (bs : List ℕ)
    → All IsText held
    → (b == newline) ≡ true
    → index_of newline (held ++ (b ∷ bs)) ≡ some (length held)
unfolding index_of one_later
index_of-newline [] b bs h e = rw e refl
index_of-newline (x ∷ xs) b bs h e = rw (h.0, index_of-newline xs b bs h.1 e) refl

take-held : (held tail : List ℕ) → take (length held) (held ++ tail) ≡ held
take-held [] tail = refl
take-held (x ∷ xs) tail = ap (λ t. x ∷ t) (take-held xs tail)

drop-held : (held : List ℕ) (b : ℕ) (bs : List ℕ) → drop (suc (length held)) (held ++ (b ∷ bs)) ≡ bs
drop-held [] b bs = refl
drop-held (x ∷ xs) b bs = drop-held xs b bs

-- What a parser gives for a line and a newline, and for a text without one.
pub try_read_line-held :
    (held : List ℕ) (b : ℕ) (bs : List ℕ)
    → All IsText held
    → (b == newline) ≡ true
    → try_read_line (parser_of (held ++ (b ∷ bs))) ≡ (some held, parser_of bs)
unfolding try_read_line cut_at
try_read_line-held held b bs h e =
    let next : length held + 1 ≡ suc (length held) = omega arith in
    rw (index_of-newline held b bs h e, take-held held (b ∷ bs), next, drop-held held b bs) refl

pub try_read_line-text :
    (held : List ℕ) → All IsText held → try_read_line (parser_of held) ≡ (none, parser_of held)
unfolding try_read_line cut_at
try_read_line-text held h = rw (index_of-text held h) refl

drain-scan :
    (fuel : ℕ) (held bytes : List ℕ)
    → All IsText held
    → length (held ++ bytes) < fuel
    → drain fuel (parser_of (held ++ bytes)) ≡ ((scan held bytes).0, parser_of (scan held bytes).1)
unfolding drain try_read_line scan drain_step cut_at
drain-scan zero held bytes h enough = absurd (omega arith)
drain-scan (suc fuel) held [] h enough = rw (append-nil held, index_of-text held h) refl
drain-scan (suc fuel) held (b ∷ bs) h enough = elim (Bool-cases (b == newline)) [
  | inl e ↦
      let next : length held + 1 ≡ suc (length held) = omega arith in
      rw (index_of-newline held b bs h e, take-held held (b ∷ bs), next, drop-held held b bs, e)
        (rw (drain-scan fuel [] bs tt (omega (arith, length-append held (b ∷ bs)))) refl)
  | inr e ↦ rw e (
      rw (append_assoc held (b ∷ []) bs) at (
        drain-scan (suc fuel) (held ++ (b ∷ [])) bs (All-append IsText held (b ∷ []) h (e, tt)) (
          omega (
            arith,
            enough,
            length-append held (b ∷ bs),
            length-append (held ++ (b ∷ [])) bs,
            length-append held (b ∷ []),
          ))))
]

pub scan-append :
    (held front back : List ℕ)
    → scan held (front ++ back) ≡ (
      (scan held front).0 ++ (scan (scan held front).1 back).0,
      (scan (scan held front).1 back).1,
    )
unfolding scan
scan-append held [] back = refl
scan-append held (b ∷ bs) back = elim (Bool-cases (b == newline)) [
  | inl e ↦ rw e (ap (λ (r : List (List ℕ) × List ℕ). (held ∷ r.0, r.1)) (scan-append [] bs back))
  | inr e ↦ rw e (scan-append (held ++ (b ∷ [])) bs back)
]

pub scan-IsText : (held bytes : List ℕ) → All IsText held → All IsText (scan held bytes).1
unfolding scan
scan-IsText held [] h = h
scan-IsText held (b ∷ bs) h = elim (Bool-cases (b == newline)) [
  | inl e ↦ rw e (scan-IsText [] bs tt)
  | inr e ↦ rw e (scan-IsText (held ++ (b ∷ [])) bs (All-append IsText held (b ∷ []) h (e, tt)))
]

feed-scan :
    (held : List ℕ) (chunks : List (List ℕ))
    → All IsText held
    → feed (parser_of held) chunks
      ≡ ((scan held (flatten chunks)).0, parser_of (scan held (flatten chunks)).1)
unfolding feed append buffer_size flatten scan
feed-scan held [] h = refl
feed-scan held (chunk ∷ chunks) h =
    let last = (scan held chunk).1 in
    ap (λ (r : List (List ℕ) × JsonlParser). (r.0 ++ (feed r.1 chunks).0, (feed r.1 chunks).1))
      (drain-scan (suc (length (held ++ chunk))) held chunk h (omega arith))
    ∙ ap (λ (r : List (List ℕ) × JsonlParser). ((scan held chunk).0 ++ r.0, r.1))
        (feed-scan last chunks (scan-IsText held chunk h))
    ∙ ap (λ (r : List (List ℕ) × List ℕ). (r.0, parser_of r.1))
        (sym (scan-append held chunk (flatten chunks)))

-- Lines and a remainder, written out again.
unfoldable pub unlines : List (List ℕ) → List ℕ → List ℕ
unlines [] rest = rest
unlines (line ∷ lines) rest = line ++ (newline ∷ unlines lines rest)

unlines-scan :
    (held bytes : List ℕ) → unlines (scan held bytes).0 (scan held bytes).1 ≡ held ++ bytes
unfolding unlines scan
unlines-scan held [] = sym (append-nil held)
unlines-scan held (b ∷ bs) = elim (Bool-cases (b == newline)) [
  | inl e ↦
      let same : b ≡ newline = ground arith in
      rw e (ap₂ (λ c t. held ++ (c ∷ t)) (sym same) (unlines-scan [] bs))
  | inr e ↦ rw e (unlines-scan (held ++ (b ∷ [])) bs ∙ append_assoc held (b ∷ []) bs)
]

scan-lines-IsText : (held bytes : List ℕ) → All IsText held → All (All IsText) (scan held bytes).0
unfolding scan
scan-lines-IsText held [] h = tt
scan-lines-IsText held (b ∷ bs) h = elim (Bool-cases (b == newline)) [
  | inl e ↦ rw e (h, scan-lines-IsText [] bs tt)
  | inr e ↦
      rw e (scan-lines-IsText (held ++ (b ∷ [])) bs (All-append IsText held (b ∷ []) h (e, tt)))
]

-- A parser that starts empty gives the same lines and the same rest for a text in any chunks as for the
-- text in one piece.
pub feed-flatten :
    (chunks : List (List ℕ))
    → feed (parser_of []) chunks ≡ feed (parser_of []) (flatten chunks ∷ [])
unfolding flatten
feed-flatten chunks =
    feed-scan [] chunks tt
    ∙ ap (λ t. ((scan [] t).0, parser_of (scan [] t).1)) (sym (append-nil (flatten chunks)))
    ∙ sym (feed-scan [] (flatten chunks ∷ []) tt)

-- No line that a parser gives has a newline in it, nor has the rest, and the lines, each with a newline
-- behind it, and the rest make up the bytes that came.
pub feed-unlines :
    (chunks : List (List ℕ))
    → (let result = feed (parser_of []) chunks in
        All (All IsText) result.0
        × All IsText result.1.buffer
        × (unlines result.0 result.1.buffer ≡ flatten chunks))
feed-unlines chunks = rw (feed-scan [] chunks tt) (
  scan-lines-IsText [] (flatten chunks) tt,
  scan-IsText [] (flatten chunks) tt,
  unlines-scan [] (flatten chunks),
)
