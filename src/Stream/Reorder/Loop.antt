-- ===== src/Stream/Reorder/Loop.antt =====
-- The loop that drains the waiting packets runs the plain decoder on some of them.
use delta_stream.Common.{
  ℕ, zero, suc, ◌+◌, ◌≤◌, ◌<◌, ◌≡◌, refl, sym, subst, ◌∙◌, inl, inr, false, Bool-cases,
  Option-cases, List, [], ◌∷◌, Option, none, some, length, ◌==◌, All, saturating_add, ==_iff, arith,
}
use delta_stream.Error.{Result, ok, err}
use delta_stream.Libraries.{Libraries}
use delta_stream.Packet.{Packet}
use delta_stream.Stream.{StateCodec}
use delta_stream.Stream.Decoder as Plain
use delta_stream.Stream.Decoder.{Decoder, ApplyResult, apply_packet}
use delta_stream.Stream.Reorder.{
  Pending, or_insert, find, without, Drained, stopped, recover, failed, Rest, after_apply,
  take_next, round, drain,
}

-- A packet that waits.
abbrev pub IsHeld : Pending → Packet → Type 0
IsHeld pending p = (k : ℕ) × (find k pending ≡ some p)

find-without_self : (j : ℕ) (pending : Pending) → find j (without j pending) ≡ none
unfolding find without
find-without_self j [] = refl
find-without_self j ((i, q) ∷ rest) = ground (arith, find-without_self j rest)

find-without_ne :
    (k j : ℕ) (pending : Pending) → (k == j) ≡ false → find k (without j pending) ≡ find k pending
unfolding find without
find-without_ne k j [] h = refl
find-without_ne k j ((i, q) ∷ rest) h = ground (arith, find-without_ne k j rest h)

-- What waits after a removal waited before.
find-without :
    (k j : ℕ) (pending : Pending) (p : Packet)
    → find k (without j pending) ≡ some p
    → find k pending ≡ some p
find-without k j pending p h = elim (Bool-cases (k == j)) [
  | inl same ↦
      let e : find j (without j pending) ≡ some p =
        subst (λ i. find i (without j pending) ≡ some p) ((==_iff k j).0 same) h in
      absurd (cc (find-without_self j pending))
  | inr differ ↦ sym (find-without_ne k j pending differ) ∙ h
]

length-without : (j : ℕ) (pending : Pending) → length (without j pending) ≤ length pending
unfolding without
length-without j [] = omega arith
length-without j ((i, q) ∷ rest) = ground (arith, length-without j rest)

length-without_found :
    (j : ℕ) (pending : Pending) (p : Packet)
    → find j pending ≡ some p
    → length (without j pending) < length pending
unfolding find without
length-without_found j [] p h = cc
length-without_found j ((i, q) ∷ rest) p h =
    ground (arith, length-without j rest, length-without_found j rest p)

pub length-or_insert :
    (k : ℕ) (p : Packet) (pending : Pending) → length (or_insert k p pending) ≤ length pending + 1
unfolding or_insert
length-or_insert k p pending = ground arith

-- A plain decoder on packets in a given order.
unfoldable pub run : {T : Type 0} → StateCodec T → Libraries → Decoder T → List Packet → Decoder T
run codec lib d [] = d
run codec lib d (p ∷ ps) = run codec lib (apply_packet codec lib d p).0 ps

-- Nothing waits at the sequence behind the decoder's.
abbrev pub IsDry : Option ℕ → Pending → Type 0
IsDry none pending = Unit
IsDry (some local) pending = find (saturating_add local 1) pending ≡ none

empty-IsDry : (o : Option ℕ) (pending : Pending) → length pending ≤ 0 → IsDry o pending
unfolding find
empty-IsDry none pending h = tt
empty-IsDry (some local) [] h = refl
empty-IsDry (some local) (e ∷ rest) h = absurd (omega arith)

abbrev pub EndsDry : {T : Type 0} → Decoder T × Pending × Drained T → Type 0
EndsDry (d, pending, stopped s n) = IsDry d.sequence pending
EndsDry (d, pending, recover l r) = Unit
EndsDry (d, pending, failed e) = Unit

-- What a loop that starts at a decoder with what waits ends with.
pub record Runs {T : Type 0} (codec : StateCodec T) (lib : Libraries) (d : Decoder T)
    (pending : Pending) (out : Decoder T × Pending × Drained T) : Type 0 where
  pub order : List Packet
  pub from_pending : All (IsHeld pending) order
  pub same : out.0 ≡ run codec lib d order
  pub shrinks : length out.1 ≤ length pending
  pub dry : EndsDry out

All-IsHeld :
    (j : ℕ) (pending : Pending) (ps : List Packet)
    → All (IsHeld (without j pending)) ps
    → All (IsHeld pending) ps
All-IsHeld j pending [] h = tt
All-IsHeld j pending (p ∷ ps) h =
    ((h.0.0, find-without h.0.0 j pending p h.0.1), All-IsHeld j pending ps h.1)

module _ {T : Type 0} (codec : StateCodec T) (lib : Libraries) where
  abbrev pub Loops : Rest T → ℕ → Type 0
  Loops rest fuel =
      (d : Decoder T) (pending : Pending) (s : T) (n : ℕ)
      → length pending ≤ fuel
      → Runs codec lib d pending (rest d pending s n)

  after_apply-Runs :
      (rest : Rest T) (fuel j : ℕ) (d : Decoder T) (q : Packet) (pending : Pending) (s : T) (n : ℕ)
      (r : Result (ApplyResult T))
      → Loops rest fuel
      → length (without j pending) ≤ fuel
      → find j pending ≡ some q
      → (apply_packet codec lib d q).1 ≡ r
      → Runs codec lib d pending
          (after_apply ((apply_packet codec lib d q).0, r) (without j pending) s n rest)
  unfolding after_apply run
  after_apply-Runs rest fuel j d q pending s n (err e) loops enough found a = record {
    order = q ∷ [];
    from_pending = ((j, found), tt);
    same = refl;
    shrinks = length-without j pending;
    dry = tt;
  }
  after_apply-Runs rest fuel j d q pending s n (ok (Plain.need_snapshot l r)) loops enough found a =
      record {
        order = q ∷ [];
        from_pending = ((j, found), tt);
        same = refl;
        shrinks = length-without j pending;
        dry = tt;
      }
  after_apply-Runs rest fuel j d q pending s n (ok (Plain.duplicate m)) loops enough found a =
      let later = loops (apply_packet codec lib d q).0 (without j pending) s n enough in
      record {
        order = q ∷ later.order;
        from_pending = ((j, found), All-IsHeld j pending later.order later.from_pending);
        same = later.same;
        shrinks = omega (arith, later.shrinks, length-without j pending);
        dry = later.dry;
      }
  after_apply-Runs rest fuel j d q pending s n (ok (Plain.applied m s')) loops enough found a =
      let later = loops (apply_packet codec lib d q).0 (without j pending) s' (n + 1) enough in
      record {
        order = q ∷ later.order;
        from_pending = ((j, found), All-IsHeld j pending later.order later.from_pending);
        same = later.same;
        shrinks = omega (arith, later.shrinks, length-without j pending);
        dry = later.dry;
      }

  stays :
      (d : Decoder T) (pending : Pending) (s : T) (n : ℕ)
      → IsDry d.sequence pending
      → Runs codec lib d pending (d, pending, stopped s n)
  unfolding run
  stays d pending s n dry = record {
    order = [];
    from_pending = tt;
    same = refl;
    shrinks = omega arith;
    dry = dry;
  }

  round-Runs :
      (rest : Rest T) (fuel : ℕ) (d : Decoder T) (pending : Pending) (s : T) (n : ℕ) (o : Option ℕ)
      → d.sequence ≡ o
      → Loops rest fuel
      → length pending ≤ suc fuel
      → Runs codec lib d pending (round codec lib o d pending s n rest)
  unfolding round take_next
  round-Runs rest fuel d pending s n none at loops enough =
      stays d pending s n (subst (λ o. IsDry o pending) (sym at) tt)
  round-Runs rest fuel d pending s n (some local) at loops enough =
      let j = saturating_add local 1 in
      elim (Option-cases (find j pending)) [
        | inl gone ↦ rw gone (stays d pending s n (subst (λ o. IsDry o pending) (sym at) gone))
        | inr (q, found) ↦ rw found (
            after_apply-Runs rest fuel j d q pending s n (apply_packet codec lib d q).1 loops
              (omega (arith, length-without_found j pending q found)) found refl)
      ]

  pub drain-Runs : (fuel : ℕ) → Loops (drain codec lib fuel) fuel
  unfolding drain
  drain-Runs zero d pending s n enough = stays d pending s n (empty-IsDry d.sequence pending enough)
  drain-Runs (suc fuel) d pending s n enough =
      round-Runs (drain codec lib fuel) fuel d pending s n d.sequence refl (drain-Runs fuel) enough
