-- ===== src/SmartDelta/Chunks/RoundTrip.antt =====
-- `apply_chunks` undoes `encode_chunks`, for states of any lengths and every chunk size.
use delta_stream.Common.{
  ℕ, suc, ◌+◌, ◌-◌, ◌*◌, ◌≤◌, ◌<◌, ◌≡◌, refl, ap, ◌∙◌, sym, subst, List, [], ◌∷◌, ◌++◌, some,
  append_assoc, append-nil, length, length-take, length-drop, take, drop, isize_max, IsU64, At,
  At-start, At-append, length-At, slice?-At, arith, checked_add, checked_add-some, checked_mul-some,
  ==-eq-true, ==-eq-false, ◌==◌, if◌then◌else◌,
}
use delta_stream.Error.{ok}
use delta_stream.Varint.RoundTrip.{var_bytes, put_var_u64_lem, read_var_u64-At, At-var}
use delta_stream.SmartDelta.Kind.{tag_chunks, packet_error, ensure_consumed, Restores}
use delta_stream.SmartDelta.Buffer.{next_index, resize, length-resize}
use delta_stream.SmartDelta.Overlay.{overlay, overlay-zero, copy_into?-overlay}
use delta_stream.SmartDelta.Chunks.{
  div_ceil, changed_chunks, put_chunks, encode_chunks, apply_chunk_loop, apply_chunks,
}
use delta_stream.SmartDelta.Chunks.Resize.{div_ceil_bounds, div_ceil-le}
use delta_stream.SmartDelta.Chunks.Scan.{
  chunk_end, Patches, changed_chunks-Patches, length-changed_chunks,
}

-- The bytes of the chunks, as `put_chunks` appends them.
chunk_bytes : List (ℕ × List ℕ) → ℕ → ℕ → List ℕ
chunk_bytes [] n k = []
chunk_bytes ((chunk, bytes) ∷ rest) n k =
    var_bytes (if n == 0 then chunk else chunk - k)
    ++ (var_bytes (length bytes) ++ (bytes ++ chunk_bytes rest (n + 1) chunk))

put_chunks-chunk_bytes :
    (l : List (ℕ × List ℕ)) (xs ys : List ℕ) (d n k pos : ℕ) (out : List ℕ)
    → 0 < d
    → length ys ≤ isize_max
    → Patches xs ys d k pos l
    → put_chunks l n k out ≡ out ++ chunk_bytes l n k
unfolding put_chunks chunk_bytes
put_chunks-chunk_bytes [] xs ys d n k pos out pd h c = sym (append-nil out)
put_chunks-chunk_bytes ((chunk, bytes) ∷ rest) xs ys d n k pos out pd h c =
    let (le, lt, same, at, later) = c in
    let delta = if n == 0 then chunk else chunk - k in
    let small : chunk ≤ chunk * d = grind arith in
    let fits : IsU64 delta = ground arith in
    let len : length bytes ≤ length ys = omega (
      arith,
      ap length same,
      length-take (chunk_end ys d chunk - chunk * d) (drop (chunk * d) ys),
      length-drop (chunk * d) ys,
    ) in
    let first = put_var_u64_lem out delta fits in
    let second = put_var_u64_lem (out ++ var_bytes delta) (length bytes) (omega arith) in
    rw (first, second)
      (put_chunks-chunk_bytes rest xs ys d (n + 1) chunk (chunk_end ys d chunk)
          (((out ++ var_bytes delta) ++ var_bytes (length bytes)) ++ bytes) pd h later
        ∙ simp append_assoc)

-- One round of the decoder moves the border from `pos` to the end of the chunk.
apply_chunk_step :
    (left n d : ℕ) (bytes : List ℕ) (cursor : ℕ) (xs ys : List ℕ) (k pos chunk : ℕ)
    (copied rest : List ℕ)
    → 0 < d
    → length xs ≡ length ys
    → length bytes ≤ isize_max
    → length ys ≤ isize_max
    → k ≤ chunk
    → chunk * d < length ys
    → copied ≡ take (chunk_end ys d chunk - chunk * d) (drop (chunk * d) ys)
    → overlay ys xs pos ≡ overlay ys xs (chunk * d)
    → At bytes cursor (
        var_bytes (if n == 0 then chunk else chunk - k)
        ++ (var_bytes (length copied) ++ (copied ++ rest)))
    → (cursor' : ℕ) × (apply_chunk_loop (suc left) n d bytes cursor (overlay ys xs pos) k
        ≡ apply_chunk_loop left
            (n + 1)
            d
            bytes
            cursor'
            (overlay ys xs (chunk_end ys d chunk))
            chunk)
      × At bytes cursor' rest
unfolding apply_chunk_loop
apply_chunk_step left n d bytes cursor xs ys k pos chunk copied rest pd l big small p lt same moved
      a =
    let delta = if n == 0 then chunk else chunk - k in
    let start = chunk * d in
    let end = chunk_end ys d chunk in
    let len = length copied in
    let index : chunk ≤ start = grind arith in
    let fits : IsU64 delta = ground arith in
    let n_eq : len ≡ end - start =
      omega
        (arith, ap length same, length-take (end - start) (drop start ys), length-drop start ys) in
    let c1 = cursor + length (var_bytes delta) in
    let c2 = c1 + length (var_bytes len) in
    let c3 = c2 + len in
    let a1 = At-var bytes cursor delta (var_bytes len ++ (copied ++ rest)) a in
    let a2 = At-var bytes c1 len (copied ++ rest) a1 in
    let a3 = At-append bytes c2 c3 copied rest a2 refl in
    let whole = length-At bytes c3 rest a3 in
    let to : checked_add start len ≡ some end =
      checked_add-some start len (omega arith) ∙ ap some (omega arith) in
    (
      c3,
      rw
          (
            read_var_u64-At bytes cursor delta (var_bytes len ++ (copied ++ rest)) fits a,
            next_index n k chunk (packet_error "chunk index overflow") p (omega arith),
            read_var_u64-At bytes c1 len (copied ++ rest) (omega arith) a1,
            checked_mul-some chunk d (omega arith),
            to,
            checked_add-some c2 len (omega arith),
            slice?-At bytes c2 c3 copied rest a2 refl,
            moved,
            same,
            copy_into?-overlay ys xs start end l (omega arith) (omega arith),
          )
          refl,
      a3,
    )

apply_chunk_loop-Patches :
    (l : List (ℕ × List ℕ)) (n d : ℕ) (bytes : List ℕ) (cursor : ℕ) (xs ys : List ℕ) (k pos : ℕ)
    (rest : List ℕ)
    → 0 < d
    → length xs ≡ length ys
    → length bytes ≤ isize_max
    → length ys ≤ isize_max
    → Patches xs ys d k pos l
    → At bytes cursor (chunk_bytes l n k ++ rest)
    → (cursor' : ℕ) × (apply_chunk_loop (length l) n d bytes cursor (overlay ys xs pos) k
        ≡ ok (ys, cursor'))
      × At bytes cursor' rest
unfolding apply_chunk_loop chunk_bytes
apply_chunk_loop-Patches [] n d bytes cursor xs ys k pos rest pd l big small c a =
    (cursor, ap (λ o. ok (o, cursor)) c, a)
apply_chunk_loop-Patches ((chunk, copied) ∷ more) n d bytes cursor xs ys k pos rest pd l big small c
      a =
    let (p, lt, same, moved, later) = c in
    let delta = if n == 0 then chunk else chunk - k in
    let tail = chunk_bytes more (n + 1) chunk in
    let (c1, stepped, a1) =
      apply_chunk_step (length more) n d bytes cursor xs ys k pos chunk copied (tail ++ rest) pd l
        big small p lt same moved
        (subst (At bytes cursor)
          (append_assoc (var_bytes delta) (var_bytes (length copied) ++ (copied ++ tail)) rest
            ∙ ap (λ t. var_bytes delta ++ t)
                (append_assoc (var_bytes (length copied)) (copied ++ tail) rest)
            ∙ ap (λ t. var_bytes delta ++ (var_bytes (length copied) ++ t))
                (append_assoc copied tail rest))
          a) in
    let (c2, done, a2) =
      apply_chunk_loop-Patches more (n + 1) d bytes c1 xs ys chunk (chunk_end ys d chunk) rest pd l
        big small later a1 in
    (c2, stepped ∙ done, a2)

-- The body behind the tag.
chunk_body : ℕ → ℕ → List (ℕ × List ℕ) → List ℕ
chunk_body n d l = var_bytes n ++ (var_bytes d ++ (var_bytes (length l) ++ chunk_bytes l 0 0))

module _ (previous current : List ℕ) (d : ℕ) (pd : 0 < d) (hd : IsU64 d)
    (h : length current ≤ isize_max) where
  abbrev found : List (ℕ × List ℕ)
  found = changed_chunks (div_ceil (length current) d) 0 previous current d

  few : IsU64 (length found)
  few = omega (
    arith,
    length-changed_chunks (div_ceil (length current) d) 0 previous current d,
    div_ceil-le (length current) d pd,
  )

  patches : Patches (resize previous (length current)) current d 0 0 found
  patches =
      let (cover, below) = div_ceil_bounds (length current) d pd in
      changed_chunks-Patches previous current d (div_ceil (length current) d) 0 0 0
        (subst (λ t. length current ≤ t * d) (omega arith) cover) (λ c k. below c (omega arith))
        (omega arith) (ap (overlay current (resize previous (length current))) (omega arith))

  encode_chunks-chunk_body :
      encode_chunks previous current d ≡ tag_chunks ∷ chunk_body (length current) d found
  unfolding encode_chunks chunk_body
  encode_chunks-chunk_body =
      let n = length current in
      rw
        (
          put_var_u64_lem (tag_chunks ∷ []) n (omega arith),
          put_var_u64_lem (tag_chunks ∷ var_bytes n) d hd,
          put_var_u64_lem (tag_chunks ∷ (var_bytes n ++ var_bytes d)) (length found) few,
          put_chunks-chunk_bytes found (resize previous n) current d 0 0 0
              (tag_chunks ∷ ((var_bytes n ++ var_bytes d) ++ var_bytes (length found))) pd h
              patches,
        )
        (ap (λ r. tag_chunks ∷ r) (simp append_assoc))

  apply_chunks-chunk_body :
      length (chunk_body (length current) d found) ≤ isize_max
      → apply_chunks previous (chunk_body (length current) d found) ≡ ok current
  unfolding apply_chunks ensure_consumed chunk_body
  apply_chunks-chunk_body short =
      let n = length current in
      let base = resize previous n in
      let l = found in
      let count = length l in
      let written = chunk_bytes l 0 0 in
      let r2 = var_bytes count ++ written in
      let body = chunk_body n d l in
      let a0 : At body 0 (var_bytes n ++ (var_bytes d ++ r2)) = At-start body in
      let c1 = 0 + length (var_bytes n) in
      let c2 = c1 + length (var_bytes d) in
      let c3 = c2 + length (var_bytes count) in
      let a1 = At-var body 0 n (var_bytes d ++ r2) a0 in
      let a2 = At-var body c1 d r2 a1 in
      let a3 = At-var body c2 count written a2 in
      let (c4, done, a4) =
        apply_chunk_loop-Patches l 0 d body c3 base current 0 0 [] pd (length-resize previous n)
          short h patches (subst (At body c3) (sym (append-nil written)) a3) in
      let done' : apply_chunk_loop count 0 d body c3 base 0 ≡ ok (current, c4) =
        ap (λ o. apply_chunk_loop count 0 d body c3 o 0) (sym (overlay-zero current base)) ∙ done in
      let whole : c4 ≡ length body = omega (arith, length-At body c4 [] a4) in
      rw
        (
          read_var_u64-At body 0 n (var_bytes d ++ r2) (omega arith) a0,
          read_var_u64-At body c1 d r2 hd a1,
          ==-eq-false d 0 (λ e. omega arith),
          read_var_u64-At body c2 count written few a2,
          done',
          ==-eq-true c4 (length body) whole,
        )
        refl

  -- A chunk delta with a positive `u64` chunk size, on states of any two lengths, starts with its
  -- tag and `apply_chunks` turns the previous state into the current one, if the current state and
  -- the payload fit `isize`.
  pub chunks-Restores :
      length (encode_chunks previous current d) ≤ isize_max
      → Restores tag_chunks (apply_chunks previous) (encode_chunks previous current d) current
  chunks-Restores big =
      let payload = encode_chunks-chunk_body in
      (
        chunk_body (length current) d found,
        payload,
        apply_chunks-chunk_body (omega (arith, ap length payload)),
      )
