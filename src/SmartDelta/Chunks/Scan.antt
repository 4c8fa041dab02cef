-- ===== src/SmartDelta/Chunks/Scan.antt =====
-- What the chunk scan of `encode_chunks` finds: chunks in order, and nothing to write between them.
use delta_stream.Common.{
  ℕ, zero, suc, ◌+◌, ◌-◌, ◌*◌, ◌≤◌, ◌<◌, ◌≡◌, refl, ap, ◌∙◌, subst, List, [], ◌∷◌, min, true, false,
  inl, inr, Bool-cases, length, take, drop, slice?, arith,
}
use delta_stream.SmartDelta.Buffer.{resize, length-resize}
use delta_stream.SmartDelta.Overlay.{overlay, overlay-length, overlay_slice, overlay_clip}
use delta_stream.SmartDelta.Chunks.{is_some_bytes, changed_chunks}
use delta_stream.SmartDelta.Chunks.Resize.{is_some_bytes→eq, slice?-resize}

abbrev pub chunk_end : List ℕ → ℕ → ℕ → ℕ
chunk_end ys d chunk = min (chunk * d + d) (length ys)

-- From chunk `k` and border `pos` on: the chunks stand in order, start inside the state and hold
-- its bytes, and between them the buffer needs no write.
abbrev pub Patches : List ℕ → List ℕ → ℕ → ℕ → ℕ → List (ℕ × List ℕ) → Type 0
Patches xs ys d k pos [] = overlay ys xs pos ≡ ys
Patches xs ys d k pos ((chunk, bytes) ∷ rest) =
    (k ≤ chunk)
    × (chunk * d < length ys)
    × (bytes ≡ take (chunk_end ys d chunk - chunk * d) (drop (chunk * d) ys))
    × (overlay ys xs pos ≡ overlay ys xs (chunk * d))
    × Patches xs ys d chunk (chunk_end ys d chunk) rest

module _ (previous ys : List ℕ) (d : ℕ) where
  abbrev buffer : List ℕ
  buffer = resize previous (length ys)

  buffer-length : length buffer ≡ length ys
  buffer-length = length-resize previous (length ys)

  abbrev chunk_of : ℕ → List ℕ
  chunk_of chunk = take (chunk_end ys d chunk - chunk * d) (drop (chunk * d) ys)

  step_skip :
      (left chunk : ℕ)
      → is_some_bytes (slice? previous (chunk * d) (chunk_end ys d chunk)) (chunk_of chunk) ≡ true
      → changed_chunks (suc left) chunk previous ys d
        ≡ changed_chunks left (chunk + 1) previous ys d
  unfolding changed_chunks
  step_skip left chunk e = rw e refl

  step_take :
      (left chunk : ℕ)
      → is_some_bytes (slice? previous (chunk * d) (chunk_end ys d chunk)) (chunk_of chunk) ≡ false
      → changed_chunks (suc left) chunk previous ys d
        ≡ (chunk, chunk_of chunk) ∷ changed_chunks left (chunk + 1) previous ys d
  unfolding changed_chunks
  step_take left chunk e = rw e refl

  -- The end of one chunk is the start of the next, or the end of the state.
  end-next :
      (chunk : ℕ) → overlay ys buffer (chunk_end ys d chunk) ≡ overlay ys buffer ((chunk + 1) * d)
  end-next chunk =
      overlay_clip ys buffer (chunk * d + d) buffer-length ∙ ap (overlay ys buffer) (omega arith)

  pub changed_chunks-Patches :
      (left chunk k pos : ℕ)
      → length ys ≤ (chunk + left) * d
      → ((c : ℕ) → c < chunk + left → c * d < length ys)
      → k ≤ chunk
      → overlay ys buffer pos ≡ overlay ys buffer (chunk * d)
      → Patches buffer ys d k pos (changed_chunks left chunk previous ys d)
  changed_chunks-Patches zero chunk k pos cover below le at =
      let n = buffer-length in
      let past : length ys ≤ chunk * d = omega arith in
      unfold changed_chunks in at ∙ overlay-length ys buffer (chunk * d) past (omega arith)
  changed_chunks-Patches (suc left) chunk k pos cover below le at =
      let start : chunk * d < length ys = below chunk (omega arith) in
      let cover' : length ys ≤ ((chunk + 1) + left) * d =
        subst (λ t. length ys ≤ t * d)
          (let e : chunk + suc left ≡ (chunk + 1) + left = omega arith in e) cover in
      let below' : (c : ℕ) → c < (chunk + 1) + left → c * d < length ys =
        λ c h. below c (omega arith) in
      elim (Bool-cases
        (is_some_bytes (slice? previous (chunk * d) (chunk_end ys d chunk)) (chunk_of chunk))) [
          | inl same ↦
              let found =
                is_some_bytes→eq (slice? previous (chunk * d) (chunk_end ys d chunk))
                  (chunk_of chunk) same in
              let kept =
                slice?-resize previous (length ys) (chunk * d) (chunk_end ys d chunk)
                  (chunk_of chunk) found (omega arith) (omega arith) in
              rw (step_skip left chunk same) (
                changed_chunks-Patches left (chunk + 1) k pos cover' below' (omega arith) (
                  at
                  ∙ overlay_slice ys buffer (chunk * d) (chunk_end ys d chunk) (omega arith) kept
                  ∙ end-next chunk))
          | inr differ ↦ rw (step_take left chunk differ) (
            le,
            start,
            refl,
            at,
            changed_chunks-Patches left (chunk + 1) chunk (chunk_end ys d chunk) cover' below'
                (omega arith) (end-next chunk),
          )
        ]

pub length-changed_chunks :
    (left chunk : ℕ) (xs ys : List ℕ) (d : ℕ) → length (changed_chunks left chunk xs ys d) ≤ left
unfolding changed_chunks
length-changed_chunks zero chunk xs ys d = omega arith
length-changed_chunks (suc left) chunk xs ys d =
    ground (arith, length-changed_chunks left (chunk + 1) xs ys d)
