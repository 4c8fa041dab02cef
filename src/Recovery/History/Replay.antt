-- ===== src/Recovery/History/Replay.antt =====
-- What `plan` returns.
use delta_stream.Common.{
  ℕ, ◌+◌, ◌-◌, ◌≤◌, ◌<◌, ◌≡◌, ◌⊎◌, refl, sym, subst, inl, inr, ◌||◌, ◌&&◌, not, min, List, [], ◌∷◌,
  Option, none, some, length, leb, ◌==◌, Bool-cases, u64_max, saturating_add, checked_add-some, All,
  arith,
}
use delta_stream.Error.{ok}
use delta_stream.Packet.{Packet, encoded_len}
use delta_stream.Recovery.History.{
  RecoveryHistory, replay, snapshot, missing, follow, choose, plan_replay, plan_from, plan,
}
use delta_stream.Recovery.History.Bounds.{total_len}

-- Packets of consecutive sequences from `expected` on, each based on the sequence before its own.
-- They may be of either kind.
abbrev pub Chain : ℕ → List Packet → Type 0
Chain expected [] = Unit
Chain expected (p ∷ ps) =
    (p.sequence ≡ expected) × (p.base_sequence ≡ expected - 1) × Chain (expected + 1) ps

abbrev UpTo : ℕ → List Packet → Type 0
UpTo last = All (λ p. p.sequence ≤ last)

missing-UpTo : (first last : ℕ) (ps : List Packet) → UpTo last (missing first last ps)
unfolding missing
missing-UpTo first last [] = tt
missing-UpTo first last (p ∷ ps) = elim (Bool-cases (leb first p.sequence && leb p.sequence last)) [
  | inl inside ↦ rw inside (ground arith, missing-UpTo first last ps)
  | inr outside ↦ rw outside (missing-UpTo first last ps)
]

-- The loop breaks off exactly on a list that is no chain, and otherwise has counted it.
record IsFollowed (expected bytes : ℕ) (ps : List Packet) (e b : ℕ) : Type 0 where
  done : follow expected bytes ps ≡ some (e, b)
  chain : Chain expected ps
  next : e ≡ expected + length ps
  size : b ≡ min (bytes + total_len ps) u64_max

follow-cases :
    (expected bytes last : ℕ) (ps : List Packet)
    → UpTo last ps
    → last < u64_max
    → bytes ≤ u64_max
    → ((follow expected bytes ps ≡ none) × ¬ Chain expected ps)
      ⊎ ((e b : ℕ) × IsFollowed expected bytes ps e b)
unfolding follow total_len
follow-cases expected bytes last [] up room fits = inr (
  expected,
  bytes,
  record { done = refl; chain = tt; next = omega arith; size = omega (arith, fits) },
)
follow-cases expected bytes last (p ∷ ps) up room fits =
    elim (Bool-cases (not (p.sequence == expected) || not (p.base_sequence == expected - 1))) [
      | inl broken ↦ inl (rw broken refl, λ c. ground arith)
      | inr next ↦
          let at : p.sequence ≡ expected = ground arith in
          let base : p.base_sequence ≡ expected - 1 = ground arith in
          let one : saturating_add expected 1 ≡ expected + 1 = omega (arith, at, up.0, room) in
          elim (follow-cases (saturating_add expected 1) (saturating_add bytes (encoded_len p)) last
            ps up.1 room (omega arith)) [
              | inl (none_, unlinked) ↦
                  inl (rw (next, none_) refl, λ c. unlinked (subst (λ t. Chain t ps) (sym one) c.2))
              | inr (e, b, r) ↦ inr (
                e,
                b,
                record {
                  done = rw next r.done;
                  chain = (at, base, subst (λ t. Chain t ps) one r.chain);
                  next = omega (arith, one, r.next);
                  size = omega (arith, r.size);
                },
              )
            ]
    ]

-- A replay that serves the receiver at `local` in place of the snapshot.
pub record IsReplay (h : RecoveryHistory) (local : ℕ) (s : Packet) (ps : List Packet) : Type 0 where
  pub behind : local < s.sequence
  pub from_history : ps ≡ missing (local + 1) s.sequence h.packets
  pub chain : Chain (local + 1) ps
  pub whole : local + length ps ≡ s.sequence
  pub cheaper : total_len ps < encoded_len s

-- The receiver has a sequence, and a replay serves it.
pub record IsServed (h : RecoveryHistory) (o : Option ℕ) (s : Packet) (ps : List Packet)
    : Type 0 where
  pub local : ℕ
  pub local_eq : o ≡ some local
  pub serves : IsReplay h local s ps

-- What the tests on a replay ask for.
abbrev Serves : Packet → ℕ → List Packet → Type 0
Serves s first ps =
    Chain first ps × (first + length ps ≡ s.sequence + 1) × (total_len ps < encoded_len s)

plan_replay-cases :
    (s : Packet) (first : ℕ) (ps : List Packet)
    → first ≤ s.sequence
    → s.sequence < u64_max
    → encoded_len s ≤ u64_max
    → UpTo s.sequence ps
    → ((plan_replay s first ps ≡ snapshot s) × ¬ Serves s first ps)
      ⊎ ((plan_replay s first ps ≡ replay ps) × Serves s first ps)
unfolding plan_replay choose
plan_replay-cases s first [] late room small up = inl (refl, λ c. omega (arith, c.1, late))
plan_replay-cases s first (p ∷ ps) late room small up =
    elim (follow-cases first 0 s.sequence (p ∷ ps) up room (omega arith)) [
      | inl (broken, unlinked) ↦ inl (rw broken refl, λ c. unlinked c.0)
      | inr (e, b, r) ↦ elim (Bool-cases (not (e - 1 == s.sequence) || leb (encoded_len s) b)) [
        | inl refused ↦
            inl (rw (r.done, refused) refl, λ c. ground (arith, r.next, r.size, c.1, c.2))
        | inr taken ↦ inr (
          rw (r.done, taken) refl,
          (r.chain, ground (arith, r.next, r.size), ground (arith, r.next, r.size)),
        )
      ]
    ]

served-Serves :
    (h : RecoveryHistory) (local : ℕ) (s : Packet) (ps : List Packet)
    → IsServed h (some local) s ps
    → Serves s (local + 1) (missing (local + 1) s.sequence h.packets)
served-Serves h local s ps served =
    let same : served.local ≡ local = cc (sym served.local_eq) in
    let r : IsReplay h local s ps = subst (λ n. IsReplay h n s ps) same served.serves in
    subst (λ qs. Serves s (local + 1) qs) r.from_history
      (r.chain, omega (arith, r.whole), r.cheaper)

-- If the snapshot's sequence lies below `u64::MAX` and its length is a `u64`, `plan` never fails. It
-- returns a replay exactly where one serves the receiver: where the receiver has a sequence, below
-- the snapshot's, and the packets of the history behind it up to the snapshot's sequence are
-- consecutive and gapless, each based on the sequence before its own, and together take fewer bytes
-- than the snapshot. The replay is these packets, and otherwise the plan is the snapshot. The kinds
-- of the packets are not looked at: a snapshot that the history holds may be among them.
pub plan_cases :
    (h : RecoveryHistory) (o : Option ℕ) (s : Packet)
    → s.sequence < u64_max
    → encoded_len s ≤ u64_max
    → ((plan h o s ≡ ok (snapshot s)) × ¬ ((ps : List Packet) × IsServed h o s ps))
      ⊎ ((ps : List Packet) × (plan h o s ≡ ok (replay ps)) × IsServed h o s ps)
unfolding plan plan_from
plan_cases h none s room small = inl (refl, λ (ps, served). cc (served.local_eq))
plan_cases h (some local) s room small = elim (Bool-cases (leb s.sequence local)) [
  | inl ahead ↦
      inl (rw ahead refl, λ (ps, served). ground (arith, served.local_eq, served.serves.behind))
  | inr late ↦
      let behind : local < s.sequence = ground arith in
      let one = checked_add-some local 1 (omega arith) in
      let ps = missing (local + 1) s.sequence h.packets in
      elim (plan_replay-cases s (local + 1) ps (omega arith) room small
        (missing-UpTo (local + 1) s.sequence h.packets)) [
          | inl (e, useless) ↦
              inl (
                rw (late, one, e) refl,
                λ (qs, served). useless (served-Serves h local s qs served),
              )
          | inr (e, (chain, whole, cheaper)) ↦ inr (
            ps,
            rw (late, one, e) refl,
            record {
              local = local;
              local_eq = refl;
              serves = record {
                behind = behind;
                from_history = refl;
                chain = chain;
                whole = omega arith;
                cheaper = cheaper;
              };
            },
          )
        ]
]
