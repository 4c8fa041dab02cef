-- ===== src/Recovery/Window.antt =====
-- `ReplayWindow` of src/replay.rs: the sequences that were seen last.
use delta_stream.Common.{
  ℕ, ◌≤◌, ◌<◌, All, All-append, ◌≡◌, refl, inl, inr, Bool, true, false, ◌||◌, max, List, [], ◌∷◌,
  ◌++◌, length, ltb, ◌==◌, if◌then◌else◌, Bool-cases, arith,
}

pub record ReplayWindow : Type 0 where
  pub capacity : ℕ
  pub seen : List ℕ

unfoldable pub new_window : ℕ → ReplayWindow
new_window capacity_ = record { capacity = max capacity_ 1; seen = [] }

-- `VecDeque::contains`
unfoldable pub is_in : ℕ → List ℕ → Bool
is_in sequence [] = false
is_in sequence (s ∷ ss) = (s == sequence) || is_in sequence ss

unfoldable pub contains : ReplayWindow → ℕ → Bool
unfolding is_in
contains self sequence = is_in sequence self.seen

unfoldable pub clear : ReplayWindow → ReplayWindow
clear self = record self { seen = [] }

-- The loop that drops sequences from the front.
unfoldable pub trim : ℕ → List ℕ → List ℕ
trim capacity_ [] = []
trim capacity_ (s ∷ ss) =
    let rest = trim capacity_ ss in if ltb capacity_ (length (s ∷ ss)) then rest else s ∷ ss

-- `record`
unfoldable pub record_sequence : ReplayWindow → ℕ → ReplayWindow
unfolding contains trim
record_sequence self sequence =
    if contains self sequence
    then self
    else record self { seen = trim self.capacity (self.seen ++ (sequence ∷ [])) }

-- No sequence twice, and no more than the capacity.
abbrev pub IsAbsent : ℕ → List ℕ → Type 0
IsAbsent s l = is_in s l ≡ false

abbrev pub IsNodup : List ℕ → Type 0
IsNodup [] = Unit
IsNodup (s ∷ ss) = IsAbsent s ss × IsNodup ss

pub record IsWindow (w : ReplayWindow) : Type 0 where
  pub positive : 1 ≤ w.capacity
  pub bounded : length w.seen ≤ w.capacity
  pub nodup : IsNodup w.seen

trim-length : (n : ℕ) (l : List ℕ) → length (trim n l) ≤ n
unfolding trim
trim-length n [] = omega arith
trim-length n (s ∷ ss) = ground (arith, trim-length n ss)

trim-IsNodup : (n : ℕ) (l : List ℕ) → IsNodup l → IsNodup (trim n l)
unfolding trim
trim-IsNodup n [] h = tt
trim-IsNodup n (s ∷ ss) h = elim (Bool-cases (ltb n (length (s ∷ ss)))) [
  | inl e ↦ rw e (trim-IsNodup n ss h.1)
  | inr e ↦ rw e h
]

is_in-append : (s t : ℕ) (l : List ℕ) → is_in s (l ++ (t ∷ [])) ≡ is_in s l || (t == s)
unfolding is_in
is_in-append s t [] = ground arith
is_in-append s t (x ∷ xs) = ground (arith, is_in-append s t xs)

append-IsNodup : (s : ℕ) (l : List ℕ) → is_in s l ≡ false → IsNodup l → IsNodup (l ++ (s ∷ []))
unfolding is_in
append-IsNodup s [] a h = (refl, tt)
append-IsNodup s (x ∷ xs) a h = ground (arith, is_in-append x s xs, append-IsNodup s xs)

trim-last : (n s : ℕ) (l : List ℕ) → 1 ≤ n → is_in s (trim n (l ++ (s ∷ []))) ≡ true
unfolding trim is_in
trim-last n s [] h = ground arith
trim-last n s (x ∷ xs) h = ground (arith, trim-last n s xs h, is_in-append s s xs)

-- No sequence of the list lies above `n`.
abbrev pub IsAtMost : ℕ → List ℕ → Type 0
IsAtMost n l = All (λ m. m ≤ n) l

trim-IsAtMost : (n capacity : ℕ) (l : List ℕ) → IsAtMost n l → IsAtMost n (trim capacity l)
unfolding trim
trim-IsAtMost n capacity [] h = tt
trim-IsAtMost n capacity (s ∷ ss) h = elim (Bool-cases (ltb capacity (length (s ∷ ss)))) [
  | inl e ↦ rw e (trim-IsAtMost n capacity ss h.1)
  | inr e ↦ rw e h
]

pub record_sequence-IsAtMost :
    (n : ℕ) (w : ReplayWindow) (s : ℕ)
    → IsAtMost n w.seen
    → s ≤ n
    → IsAtMost n (record_sequence w s).seen
unfolding record_sequence
record_sequence-IsAtMost n w s h k = elim (Bool-cases (contains w s)) [
  | inl e ↦ rw e h
  | inr e ↦ rw e (
      trim-IsAtMost n w.capacity (w.seen ++ (s ∷ []))
        (All-append (λ m. m ≤ n) w.seen (s ∷ []) h (k, tt)))
]

-- A sequence above all that were seen is new.
is_in-above : (n s : ℕ) (l : List ℕ) → IsAtMost n l → n < s → is_in s l ≡ false
unfolding is_in
is_in-above n s [] h lt = refl
is_in-above n s (x ∷ xs) h lt = ground (arith, h.0, is_in-above n s xs h.1 lt)

pub contains-above : (w : ReplayWindow) (n s : ℕ) → IsAtMost n w.seen → n < s → contains w s ≡ false
unfolding contains is_in
contains-above w n s h lt = is_in-above n s w.seen h lt

-- Recording a sequence keeps a replay window within its positive capacity and free of duplicates,
-- and the window then contains that sequence.
pub record_sequence-IsWindow :
    (w : ReplayWindow) (s : ℕ)
    → IsWindow w
    → IsWindow (record_sequence w s) × (contains (record_sequence w s) s ≡ true)
unfolding record_sequence
record_sequence-IsWindow w s h = elim (Bool-cases (contains w s)) [
  | inl e ↦ rw e (h, e)
  | inr e ↦ rw e (
    record {
      positive = h.positive;
      bounded = trim-length w.capacity (w.seen ++ (s ∷ []));
      nodup = trim-IsNodup w.capacity (w.seen ++ (s ∷ [])) (append-IsNodup s w.seen e h.nodup);
    },
    trim-last w.capacity s w.seen h.positive,
  )
]
