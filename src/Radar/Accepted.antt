-- ===== src/Radar/Accepted.antt =====
-- The buffers that tryDecodeFrame delivers a frame from.
use stdiolink.Prelude.{
  ℕ, zero, suc, ◌+◌, ◌-◌, ◌*◌, ◌/◌, ◌%◌, ◌^◌, ◌≤◌, ◌<◌, ◌≡◌, refl, sym, subst, ap, ap₂, ◌∙◌, Bool,
  true, false, ◌||◌, ◌&&◌, Bool-cases, inl, inr, some, List, [], ◌∷◌, ◌++◌, length, get_or, take,
  drop, length-take, length-drop, All, All-get_or, ltb, ◌==◌, ==_iff, arith,
}
use mathlib.Core.Bool.{false≢true}
use mathlib.Core.Option.{none-ne-some, some-injective}
use native.Mathlib.Nat.{suc-add}
use stdiolink.Prelude.Int.{ℤ}
use stdiolink.Modbus.Crc.{IsByte}
use stdiolink.Radar.Checksum.{crc32_stm32}
use stdiolink.Radar.Codec.{
  LaserFrame, u16_bytes, u32_bytes, u16_at, u32_at, frame_body, encode_frame, ok, fixed, refuse,
  is_mismatch, has_magic, decode_fields, decode_whole, try_decode_frame,
}

module _ {ℓ} {A : Type ℓ} where
  cons_at :
      (d : A) (k : ℕ) (xs : List A) → k < length xs → drop k xs ≡ get_or xs k d ∷ drop (suc k) xs
  cons_at d k [] h = elim h [ ]
  cons_at d zero (x ∷ xs) h = refl
  cons_at d (suc k) (x ∷ xs) h = cons_at d k xs (omega arith)

  take-nil : (k : ℕ) → take {A = A} k [] ≡ []
  take-nil zero = refl
  take-nil (suc k) = refl

  take_add : (n k : ℕ) (xs : List A) → take (n + k) xs ≡ take n xs ++ take k (drop n xs)
  take_add zero k xs = ap (λ t. take t xs) (let e : 0 + k ≡ k = omega arith in e)
  take_add (suc n) k [] = rw suc-add (sym (take-nil k))
  take_add (suc n) k (x ∷ xs) = rw suc-add (ap (λ t. x ∷ t) (take_add n k xs))

four_at :
    (xs : List ℕ) (k : ℕ)
    → k + 4 ≤ length xs
    → take 4 (drop k xs)
      ≡ get_or xs k 0 ∷ get_or xs (k + 1) 0 ∷ get_or xs (k + 2) 0 ∷ get_or xs (k + 3) 0 ∷ []
four_at xs k h =
    ap (take 4) (cons_at 0 k xs (omega arith))
    ∙ ap (λ t. get_or xs k 0 ∷ take 3 t) (after k (k + 1) (omega arith) (omega arith))
    ∙ ap (λ t. get_or xs k 0 ∷ get_or xs (k + 1) 0 ∷ take 2 t)
        (after (k + 1) (k + 2) (omega arith) (omega arith))
    ∙ ap (λ t. get_or xs k 0 ∷ get_or xs (k + 1) 0 ∷ get_or xs (k + 2) 0 ∷ take 1 t)
        (after (k + 2) (k + 3) (omega arith) (omega arith))
  where
    after :
        (m j : ℕ) → suc m ≡ j → j < length xs → drop (suc m) xs ≡ get_or xs j 0 ∷ drop (suc j) xs
    after m j e h = ap (λ t. drop t xs) e ∙ cons_at 0 j xs h

ten_at :
    (xs : List ℕ)
    → 10 ≤ length xs
    → take 10 xs
      ≡ get_or xs 0 0
        ∷ get_or xs 1 0
        ∷ get_or xs 2 0
        ∷ get_or xs 3 0
        ∷ get_or xs 4 0
        ∷ get_or xs 5 0
        ∷ get_or xs 6 0
        ∷ get_or xs 7 0
        ∷ get_or xs 8 0
        ∷ get_or xs 9 0
        ∷ []
ten_at xs h =
    more 9 0 (omega arith)
    ∙ ap (λ t. get_or xs 0 0 ∷ t)
        (more 8 1 (omega arith)
          ∙ ap (λ t. get_or xs 1 0 ∷ t)
              (more 7 2 (omega arith)
                ∙ ap (λ t. get_or xs 2 0 ∷ t)
                    (more 6 3 (omega arith)
                      ∙ ap (λ t. get_or xs 3 0 ∷ t)
                          (more 5 4 (omega arith)
                            ∙ ap (λ t. get_or xs 4 0 ∷ t)
                                (more 4 5 (omega arith)
                                  ∙ ap (λ t. get_or xs 5 0 ∷ t)
                                      (more 3 6 (omega arith)
                                        ∙ ap (λ t. get_or xs 6 0 ∷ t)
                                            (more 2 7 (omega arith)
                                              ∙ ap (λ t. get_or xs 7 0 ∷ t)
                                                  (more 1 8 (omega arith)
                                                    ∙ ap (λ t. get_or xs 8 0 ∷ t)
                                                        (more 0 9 (omega arith))))))))))
  where
    more :
        (n k : ℕ)
        → k < length xs
        → take (suc n) (drop k xs) ≡ get_or xs k 0 ∷ take n (drop (suc k) xs)
    more n k h = ap (take (suc n)) (cons_at 0 k xs h)

or_false_left : (a b : Bool) → (a || b) ≡ false → a ≡ false
or_false_left true b h = h
or_false_left false b h = refl

-- The tests that a delivered frame has passed.
module _ (buffer : List ℕ) (expect_addr expect_cmd : ℤ) (final_chunk : Bool) (f : LaserFrame) where
  abbrev len : ℕ
  len = u16_at buffer 4

  abbrev at_crc : ℕ
  at_crc = 6 + len - 4

  passed :
      (try_decode_frame buffer expect_addr expect_cmd final_chunk).frame ≡ some f
      → (ltb (length buffer) 18 ≡ false)
        × (has_magic buffer ≡ true)
        × (ltb len 12 ≡ false)
        × (ltb (length buffer) (6 + len) ≡ false)
        × ((decode_whole buffer expect_addr expect_cmd final_chunk len).frame ≡ some f)
        × (try_decode_frame buffer expect_addr expect_cmd final_chunk
            ≡ decode_whole buffer expect_addr expect_cmd final_chunk len)
  unfolding try_decode_frame refuse
  passed h = elim (Bool-cases (ltb (length buffer) 18)) [
    | inl e ↦ absurd (none-ne-some f (rw e at h))
    | inr long ↦ elim (Bool-cases (has_magic buffer)) [
      | inr e ↦ absurd (none-ne-some f (rw (long, e) at h))
      | inl lida ↦ elim (Bool-cases (ltb len 12 || (ltb (6 + len) 18 || ltb 65541 (6 + len)))) [
        | inl e ↦ absurd (none-ne-some f (rw (long, lida, e) at h))
        | inr fits ↦ elim (Bool-cases (ltb (length buffer) (6 + len))) [
          | inl e ↦ absurd (none-ne-some f (rw (long, lida, fits, e) at h))
          | inr all ↦ (
            long,
            lida,
            or_false_left _ _ fits,
            all,
            rw (long, lida, fits, all) at h,
            rw (long, lida, fits, all) refl,
          )
        ]
      ]
    ]
  ]

  passed_crc :
      (decode_whole buffer expect_addr expect_cmd final_chunk len).frame ≡ some f
      → (crc32_stm32 (take at_crc buffer) ≡ u32_at buffer at_crc)
        × ((decode_fields buffer expect_addr expect_cmd len (u32_at buffer at_crc)).frame ≡ some f)
        × (decode_whole buffer expect_addr expect_cmd final_chunk len
            ≡ decode_fields buffer expect_addr expect_cmd len (u32_at buffer at_crc))
  unfolding decode_whole refuse
  passed_crc h = elim (Bool-cases (crc32_stm32 (take at_crc buffer) == u32_at buffer at_crc)) [
    | inl same ↦ ((==_iff _ _).0 same, rw same at h, rw same refl)
    | inr e ↦ elim (Bool-cases final_chunk) [
      | inl last ↦ absurd (none-ne-some f (rw (e, last) at h))
      | inr more ↦ absurd (none-ne-some f (rw (e, more) at h))
    ]
  ]

  abbrev read_frame : LaserFrame
  read_frame = record {
    counter = u16_at buffer 6;
    addr = get_or buffer 8 0;
    command = get_or buffer 9 0;
    frame_length = len;
    payload = take (len - 8) (drop 10 buffer);
    crc32 = u32_at buffer at_crc;
  }

  passed_fields :
      (decode_fields buffer expect_addr expect_cmd len (u32_at buffer at_crc)).frame ≡ some f
      → (is_mismatch expect_addr (get_or buffer 8 0) ≡ false)
        × (is_mismatch expect_cmd (get_or buffer 9 0) ≡ false)
        × (read_frame ≡ f)
        × (decode_fields buffer expect_addr expect_cmd len (u32_at buffer at_crc)
            ≡ record { status = ok; error_message = fixed ""; consumed = 6 + len; frame = some f })
  unfolding decode_fields refuse
  passed_fields h = elim (Bool-cases (ltb (len - 8) 4)) [
    | inl e ↦ absurd (none-ne-some f (rw e at h))
    | inr long ↦ elim (Bool-cases (is_mismatch expect_addr (get_or buffer 8 0))) [
      | inl e ↦ absurd (none-ne-some f (rw (long, e) at h))
      | inr same_addr ↦ elim (Bool-cases (is_mismatch expect_cmd (get_or buffer 9 0))) [
        | inl e ↦ absurd (none-ne-some f (rw (long, same_addr, e) at h))
        | inr same_cmd ↦
            let same = some-injective read_frame f (rw (long, same_addr, same_cmd) at h) in
            (
              same_addr,
              same_cmd,
              same,
              rw (long, same_addr, same_cmd)
                  (ap
                    (λ g. record {
                      status = ok;
                      error_message = fixed "";
                      consumed = 6 + len;
                      frame = some g;
                    })
                    same),
            )
      ]
    ]
  ]

and_true : (a b : Bool) → (a && b) ≡ true → (a ≡ true) × (b ≡ true)
and_true true b h = (refl, h)
and_true false b h = absurd (false≢true h)

abbrev MagicBytes : List ℕ → Type 0
MagicBytes xs =
    (get_or xs 0 0 ≡ 76) × (get_or xs 1 0 ≡ 73) × (get_or xs 2 0 ≡ 68) × (get_or xs 3 0 ≡ 65)

has_magic-MagicBytes : (xs : List ℕ) → has_magic xs ≡ true → MagicBytes xs
unfolding has_magic
has_magic-MagicBytes xs h =
    let (h0, r0) = and_true _ _ h in
    let (h1, r1) = and_true _ _ r0 in
    let (h2, h3) = and_true _ _ r1 in
    ((==_iff _ _).0 h0, (==_iff _ _).0 h1, (==_iff _ _).0 h2, (==_iff _ _).0 h3)

-- The bytes up to a frame's checksum are the ones that its fields are encoded to.
header_back :
    (buffer : List ℕ) (payload : List ℕ)
    → All IsByte buffer
    → 10 ≤ length buffer
    → has_magic buffer ≡ true
    → length payload + 8 ≡ u16_at buffer 4
    → frame_body (u16_at buffer 6) (get_or buffer 8 0) (get_or buffer 9 0) payload
      ≡ take 10 buffer ++ payload
unfolding frame_body u16_bytes u16_at
header_back buffer payload bytes long lida size =
    let (m0, m1, m2, m3) = has_magic-MagicBytes buffer lida in
    let byte : (i : ℕ) → get_or buffer i 0 < 256 =
      λ i. All-get_or IsByte buffer i 0 (omega arith) bytes in
    let b4 = byte 4 in
    let b5 = byte 5 in
    let b6 = byte 6 in
    let b7 = byte 7 in
    let heads : (ys : List ℕ)
        → (76 ∷ 73 ∷ 68 ∷ 65 ∷ ys)
          ≡ (get_or buffer 0 0 ∷ get_or buffer 1 0 ∷ get_or buffer 2 0 ∷ get_or buffer 3 0 ∷ ys) =
      λ ys. sym (rw (m0, m1, m2, m3) refl) in
    let l4 : (2 + 1 + 1 + length payload + 4) % 2 ^ 16 / 2 ^ 8 % 2 ^ 8 ≡ get_or buffer 4 0 =
      omega arith in
    let l5 : (2 + 1 + 1 + length payload + 4) % 2 ^ 16 % 2 ^ 8 ≡ get_or buffer 5 0 = omega arith in
    let c6 : (get_or buffer 6 0 * 2 ^ 8 + get_or buffer 7 0) / 2 ^ 8 % 2 ^ 8 ≡ get_or buffer 6 0 =
      omega arith in
    let c7 : (get_or buffer 6 0 * 2 ^ 8 + get_or buffer 7 0) % 2 ^ 8 ≡ get_or buffer 7 0 =
      omega arith in
    heads _ ∙ rw (l4, l5, c6, c7) (ap (λ t. t ++ payload) (sym (ten_at buffer long)))

-- The field that holds the checksum, from its value.
crc_back :
    (bytes : List ℕ) (k : ℕ)
    → All IsByte bytes
    → k + 4 ≤ length bytes
    → u32_bytes (u32_at bytes k) ≡ take 4 (drop k bytes)
unfolding u32_bytes u32_at
crc_back bytes k h fits =
    let byte : (i : ℕ) → get_or bytes i 0 < 256 =
      λ i. All-get_or IsByte bytes i 0 (omega arith) h in
    let a = get_or bytes k 0 in
    let b = get_or bytes (k + 1) 0 in
    let c = get_or bytes (k + 2) 0 in
    let d = get_or bytes (k + 3) 0 in
    let ha : a < 256 = byte k in
    let hb : b < 256 = byte (k + 1) in
    let hc : c < 256 = byte (k + 2) in
    let hd : d < 256 = byte (k + 3) in
    let whole = a * 2 ^ 24 + b * 2 ^ 16 + c * 2 ^ 8 + d in
    let ea : whole / 2 ^ 24 % 2 ^ 8 ≡ a = omega arith in
    let eb : whole / 2 ^ 16 % 2 ^ 8 ≡ b = omega arith in
    let ec : whole / 2 ^ 8 % 2 ^ 8 ≡ c = omega arith in
    let ed : whole % 2 ^ 8 ≡ d = omega arith in rw (ea, eb, ec, ed) (sym (four_at bytes k fits))

-- Whatever bytes the buffer holds: when a frame is delivered, the bytes consumed are what encodeFrame
-- makes of the frame's counter, address, command and payload; they are six more than the frame's
-- length field, and the buffer holds them all; and the frame's address and command are the ones that
-- the caller expects.
pub try_decode_frame-accepted :
    (buffer : List ℕ) (expect_addr expect_cmd : ℤ) (final_chunk : Bool) (f : LaserFrame)
    → All IsByte buffer
    → (try_decode_frame buffer expect_addr expect_cmd final_chunk).frame ≡ some f
    → (take (try_decode_frame buffer expect_addr expect_cmd final_chunk).consumed buffer
        ≡ encode_frame f.counter f.addr f.command f.payload)
      × ((try_decode_frame buffer expect_addr expect_cmd final_chunk).consumed ≡ 6 + f.frame_length)
      × (6 + f.frame_length ≤ length buffer)
      × (is_mismatch expect_addr f.addr ≡ false)
      × (is_mismatch expect_cmd f.command ≡ false)
unfolding encode_frame
try_decode_frame-accepted buffer expect_addr expect_cmd final_chunk f bytes h =
    let (long, lida, fits, all, h1, d1) = passed buffer expect_addr expect_cmd final_chunk f h in
    let (sum, h2, d2) = passed_crc buffer expect_addr expect_cmd final_chunk f h1 in
    let (same_addr, same_cmd, here, d3) =
      passed_fields buffer expect_addr expect_cmd final_chunk f h2 in
    let n = u16_at buffer 4 in
    let p = n - 8 in
    let m = 6 + n - 4 in
    let payload = take p (drop 10 buffer) in
    let n_low : 12 ≤ n = ground arith in
    let whole : 6 + n ≤ length buffer = ground arith in
    let size : length payload + 8 ≡ n =
      omega (arith, length-take p (drop 10 buffer), length-drop 10 buffer) in
    let front : frame_body (u16_at buffer 6) (get_or buffer 8 0) (get_or buffer 9 0) payload
        ≡ take m buffer =
      header_back buffer payload bytes (omega arith) lida size
      ∙ sym (take_add 10 p buffer)
      ∙ ap (λ t. take t buffer) (let e : 10 + p ≡ m = omega arith in e) in
    let taken : (try_decode_frame buffer expect_addr expect_cmd final_chunk).consumed ≡ 6 + n =
      ap (λ r. r.consumed) (d1 ∙ d2 ∙ d3) in
    subst
      (λ (g : LaserFrame).
        (take (try_decode_frame buffer expect_addr expect_cmd final_chunk).consumed buffer
          ≡ encode_frame g.counter g.addr g.command g.payload)
        × ((try_decode_frame buffer expect_addr expect_cmd final_chunk).consumed
            ≡ 6 + g.frame_length)
        × (6 + g.frame_length ≤ length buffer)
        × (is_mismatch expect_addr g.addr ≡ false)
        × (is_mismatch expect_cmd g.command ≡ false))
      here
      (
        ap (λ t. take t buffer) (taken ∙ (let e : 6 + n ≡ m + 4 = omega arith in e))
            ∙ take_add m 4 buffer
            ∙ ap₂ (λ a b. a ++ b) (sym front)
                (sym (crc_back buffer m bytes (omega arith))
                  ∙ ap u32_bytes (sym sum ∙ ap crc32_stm32 (sym front))),
        taken,
        whole,
        same_addr,
        same_cmd,
      )
