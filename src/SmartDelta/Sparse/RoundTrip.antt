-- ===== src/SmartDelta/Sparse/RoundTrip.antt =====
-- `apply_sparse` undoes `encode_sparse` on states of one length.
use delta_stream.Common.{
  ℕ, true, false, subst, subst₂, suc, ◌+◌, ◌-◌, ◌≤◌, ◌≡◌, refl, ap, ◌∙◌, sym, List, [], ◌∷◌, ◌++◌,
  append_assoc, length, length-append, isize_max, append-nil, inl, inr, Bool-cases, ◌==◌, ==_iff,
  if◌then◌else◌, IsU64, At, At-start, At-append, length-At, get_elem?-At, arith, ==-eq-true,
}
use delta_stream.Error.{ok}
use delta_stream.Varint.{put_var_u64}
use delta_stream.Varint.RoundTrip.{var_bytes, put_var_u64_lem, read_var_u64-At, At-var}
use delta_stream.SmartDelta.Kind.{tag_sparse, packet_error, ensure_consumed, Restores}
use delta_stream.SmartDelta.Buffer.{set?-border, next_index}
use delta_stream.SmartDelta.Sparse.{
  changes, put_changes, encode_sparse, apply_changes, apply_sparse,
}

-- The bytes of the changes, as `put_changes` appends them.
change_bytes : List (ℕ × ℕ) → ℕ → ℕ → List ℕ
change_bytes [] n previous_index = []
change_bytes ((index, value) ∷ rest) n previous_index =
    var_bytes (if n == 0 then index else index - previous_index)
    ++ (value ∷ change_bytes rest (n + 1) index)

change_bytes-cons :
    (i v : ℕ) (later : List (ℕ × ℕ)) (n p : ℕ) (rest : List ℕ)
    → change_bytes ((i, v) ∷ later) n p ++ rest
      ≡ var_bytes (if n == 0 then i else i - p) ++ (v ∷ (change_bytes later (n + 1) i ++ rest))
unfolding change_bytes
change_bytes-cons i v later n p rest =
    append_assoc (var_bytes (if n == 0 then i else i - p)) (v ∷ change_bytes later (n + 1) i) rest

-- Every index is a `u64`.
abbrev Indexed : List (ℕ × ℕ) → Type 0
Indexed [] = Unit
Indexed ((index, value) ∷ rest) = IsU64 index × Indexed rest

put_changes-change_bytes :
    (l : List (ℕ × ℕ)) (n previous_index : ℕ) (out : List ℕ)
    → Indexed l
    → put_changes l n previous_index out ≡ out ++ change_bytes l n previous_index
unfolding put_changes change_bytes
put_changes-change_bytes [] n p out h = sym (append-nil out)
put_changes-change_bytes ((index, value) ∷ rest) n p out h =
    let delta = if n == 0 then index else index - p in
    let small : IsU64 delta = ground arith in
    put_changes-change_bytes rest (n + 1) index (put_var_u64 out delta ++ (value ∷ [])) h.1
    ∙ ap (λ o. (o ++ (value ∷ [])) ++ change_bytes rest (n + 1) index)
        (put_var_u64_lem out delta small)
    ∙ simp append_assoc

changes-Indexed : (i : ℕ) (xs ys : List ℕ) → i + length xs ≤ isize_max → Indexed (changes i xs ys)
unfolding changes
changes-Indexed i [] ys h = omega arith
changes-Indexed i (x ∷ xs) [] h = omega arith
changes-Indexed i (x ∷ xs) (y ∷ ys) h = ground (arith, changes-Indexed (i + 1) xs ys (omega arith))

length-changes : (i : ℕ) (xs ys : List ℕ) → length (changes i xs ys) ≤ length xs
unfolding changes
length-changes i [] ys = omega arith
length-changes i (x ∷ xs) [] = omega arith
length-changes i (x ∷ xs) (y ∷ ys) = ground (arith, length-changes (i + 1) xs ys)

-- One round of the decoder, in front of the bytes of a change at the border.
apply_changes_step :
    (left n : ℕ) (bytes : List ℕ) (cursor : ℕ) (front : List ℕ) (x : ℕ) (back : List ℕ) (p i v : ℕ)
    (rest : List ℕ)
    → p ≤ i
    → i ≡ length front
    → i ≤ isize_max
    → At bytes cursor (var_bytes (if n == 0 then i else i - p) ++ (v ∷ rest))
    → let cursor' = cursor + length (var_bytes (if n == 0 then i else i - p)) + 1 in
      (apply_changes (suc left) n bytes cursor (front ++ (x ∷ back)) p
        ≡ apply_changes left (n + 1) bytes cursor' ((front ++ (v ∷ [])) ++ back) i)
      × At bytes cursor' rest
unfolding apply_changes
apply_changes_step left n bytes cursor front x back p i v rest le e small a =
    let delta = if n == 0 then i else i - p in
    let fits : IsU64 delta = ground arith in
    let read = read_var_u64-At bytes cursor delta (v ∷ rest) fits a in
    let a1 = At-var bytes cursor delta (v ∷ rest) a in
    let value = get_elem?-At bytes (cursor + length (var_bytes delta)) v rest a1 in
    let written = set?-border front x v back i e in
    let next =
      At-append bytes (cursor + length (var_bytes delta)) (cursor + length (var_bytes delta) + 1)
        (v ∷ []) rest a1 (omega arith) in
    let joined : front ++ (v ∷ back) ≡ (front ++ (v ∷ [])) ++ back =
      sym (append_assoc front (v ∷ []) back) in
    (
      rw
          (
            read,
            next_index n p i (packet_error "sparse index overflow") le (omega arith),
            value,
            written,
            joined,
          )
          refl,
      next,
    )

-- The decoder applies the changes `l` to `out`, which becomes `target`, and stops before `rest`.
abbrev Rebuilds : List (ℕ × ℕ) → ℕ → List ℕ → ℕ → List ℕ → ℕ → List ℕ → List ℕ → Type 0
Rebuilds l n bytes cursor out p target rest =
    (cursor' : ℕ) × (apply_changes (length l) n bytes cursor out p ≡ ok (target, cursor'))
    × At bytes cursor' rest

changes_same :
    (i x y : ℕ) (xs ys : List ℕ)
    → (x == y) ≡ true
    → changes i (x ∷ xs) (y ∷ ys) ≡ changes (i + 1) xs ys
unfolding changes
changes_same i x y xs ys e = rw e refl

changes_differ :
    (i x y : ℕ) (xs ys : List ℕ)
    → (x == y) ≡ false
    → changes i (x ∷ xs) (y ∷ ys) ≡ (i, y) ∷ changes (i + 1) xs ys
unfolding changes
changes_differ i x y xs ys e = rw e refl

-- From index `i` on the decoder rebuilds the current state behind the part already rebuilt.
apply_changes-changes :
    (n : ℕ) (bytes : List ℕ) (cursor : ℕ) (front xs ys : List ℕ) (p i : ℕ) (rest : List ℕ)
    (l : List (ℕ × ℕ))
    → l ≡ changes i xs ys
    → p ≤ i
    → i ≡ length front
    → i + length xs ≤ isize_max
    → length xs ≡ length ys
    → At bytes cursor (change_bytes l n p ++ rest)
    → Rebuilds l n bytes cursor (front ++ xs) p (front ++ ys) rest
apply_changes-changes n bytes cursor front [] [] p i rest l el le e small same =
    subst
      (λ l.
        At bytes cursor (change_bytes l n p ++ rest)
        → Rebuilds l n bytes cursor (front ++ []) p (front ++ []) rest)
      (sym el) (unfold changes apply_changes change_bytes in λ a. (cursor, refl, a))
apply_changes-changes n bytes cursor front [] (y ∷ ys) p i rest l el le e small same =
    λ a. absurd (omega arith)
apply_changes-changes n bytes cursor front (x ∷ xs) [] p i rest l el le e small same =
    λ a. absurd (omega arith)
apply_changes-changes n bytes cursor front (x ∷ xs) (y ∷ ys) p i rest l el le e small same =
    let grown : (z : ℕ) → i + 1 ≡ length (front ++ (z ∷ [])) =
      λ z. omega (arith, length-append front (z ∷ [])) in
    elim (Bool-cases (x == y)) [
      | inl equal ↦ λ a.
          subst₂ (λ out target. Rebuilds l n bytes cursor out p target rest)
            (append_assoc front (x ∷ []) xs)
            (append_assoc front (x ∷ []) ys ∙ ap (λ z. front ++ (z ∷ ys)) ((==_iff x y).0 equal))
            (apply_changes-changes n bytes cursor (front ++ (x ∷ [])) xs ys p (i + 1) rest l
              (el ∙ changes_same i x y xs ys equal) (omega arith) (grown x) (omega arith)
              (omega arith) a)
      | inr differ ↦
          let later = changes (i + 1) xs ys in
          subst
            (λ l.
              At bytes cursor (change_bytes l n p ++ rest)
              → Rebuilds l n bytes cursor (front ++ (x ∷ xs)) p (front ++ (y ∷ ys)) rest)
            (sym (el ∙ changes_differ i x y xs ys differ))
            λ a.
              let delta = if n == 0 then i else i - p in
              let a0 : At bytes cursor
                  (var_bytes delta ++ (y ∷ (change_bytes later (n + 1) i ++ rest))) =
                subst (At bytes cursor) (change_bytes-cons i y later n p rest) a in
              let (stepped, a1) =
                apply_changes_step (length later) n bytes cursor front x xs p i y
                  (change_bytes later (n + 1) i ++ rest) le e (omega arith) a0 in
              let (cursor', done, a2) =
                apply_changes-changes (n + 1) bytes (cursor + length (var_bytes delta) + 1)
                  (front ++ (y ∷ [])) xs ys i (i + 1) rest later refl (omega arith) (grown y)
                  (omega arith) (omega arith) a1 in
              (
                cursor',
                stepped ∙ done ∙ ap (λ t. ok (t, cursor')) (append_assoc front (y ∷ []) ys),
                a2,
              )
    ]

-- A sparse delta between states of equal length that fits `isize` starts with its tag, and
-- `apply_sparse` turns the previous state into the current one.
pub sparse-Restores :
    (previous current : List ℕ)
    → length previous ≡ length current
    → length current ≤ isize_max
    → Restores tag_sparse (apply_sparse previous) (encode_sparse previous current) current
unfolding encode_sparse apply_sparse ensure_consumed
sparse-Restores previous current same h =
    let n = length current in
    let l = changes 0 previous current in
    let count = length l in
    let fits : IsU64 count = omega (arith, length-changes 0 previous current) in
    let written = change_bytes l 0 0 in
    let body = var_bytes n ++ (var_bytes count ++ written) in
    let a0 = At-start body in
    let a1 = At-var body 0 n (var_bytes count ++ written) a0 in
    let c1 = 0 + length (var_bytes n) in
    let a2 = At-var body c1 count written a1 in
    let c2 = c1 + length (var_bytes count) in
    let (c3, done, a3) =
      apply_changes-changes 0 body c2 [] previous current 0 0 [] l refl (omega arith) refl
        (omega arith) same (subst (At body c2) (sym (append-nil written)) a2) in
    let whole : c3 ≡ length body = omega (arith, length-At body c3 [] a3) in
    (
      body,
      rw
          (
            put_var_u64_lem (tag_sparse ∷ []) n (omega arith),
            put_var_u64_lem (tag_sparse ∷ var_bytes n) count fits,
            put_changes-change_bytes l 0 0 (tag_sparse ∷ (var_bytes n ++ var_bytes count))
                (changes-Indexed 0 previous current (omega arith)),
          )
          (ap (λ r. tag_sparse ∷ r) (append_assoc (var_bytes n) (var_bytes count) written)),
      rw
          (
            read_var_u64-At body 0 n (var_bytes count ++ written) (omega arith) a0,
            ==-eq-true n (length previous) (sym same),
            read_var_u64-At body c1 count written fits a1,
            done,
            ==-eq-true c3 (length body) whole,
          )
          refl,
    )
