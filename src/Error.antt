-- ===== src/Error.antt =====
-- src/error.rs: the errors, and the results of fallible code. `Io` and `Json` carry values of
-- other libraries, which nothing in the modelled code inspects; they are kept as opaque numbers.
use delta_stream.Common.{
  ℕ, ◌≡◌, refl, ap, ◌∙◌, ◌⊎◌, inl, inr, Option, none, some, Bool, true, false, String,
}

-- A message of `InvalidPacket`: a text, or a text with one formatted number behind it.
pub data Message : Type 0 where
  text : String → Message
  text_num : String → ℕ → Message

pub data DeltaError : Type 0 where
  invalid_state : String → DeltaError
  invalid_packet : Message → DeltaError
  io : ℕ → DeltaError
  json : ℕ → DeltaError
  compression : ℕ → DeltaError
  transport : String → DeltaError
  resource_limit : String → DeltaError
  packet_too_large : ℕ → ℕ → DeltaError
  decompressed_payload_too_large : ℕ → Option ℕ → DeltaError
  checksum_mismatch : ℕ → ℕ → DeltaError
  protocol_version : ℕ → ℕ → DeltaError
  protocol_version_range : ℕ → ℕ → ℕ → DeltaError
  schema_mismatch : ℕ → ℕ → DeltaError
  schema_migration_missing : ℕ → ℕ → DeltaError

pub data Result {ℓ} (A : Type ℓ) : Type ℓ where
  ok : A → Result A
  err : DeltaError → Result A

infixl 5 ◌>>=◌
abbrev pub ◌>>=◌ {ℓ κ} : {A : Type ℓ} {C : Type κ} → Result A → (A → Result C) → Result C
err e >>= next = err e
ok a >>= next = next a

infixl 5 ◌>>◌
abbrev pub ◌>>◌ {ℓ} : {C : Type ℓ} → Result (Unit {0}) → Result C → Result C
first >> second = first >>= λ _. second

-- An early `return Err(e)` where the test holds.
abbrev pub fail_if : Bool → DeltaError → Result (Unit {0})
fail_if true e = err e
fail_if false e = ok tt

-- `ok_or`
abbrev pub ok_or {ℓ} : {A : Type ℓ} → Option A → DeltaError → Result A
ok_or none e = err e
ok_or (some a) e = ok a

-- Inversion of a successful bind.
pub >>=-eq-ok {ℓ κ} :
    {A : Type ℓ} {C : Type κ} (r : Result A) (next : A → Result C) {c : C}
    → (r >>= next) ≡ ok c
    → (a : A) × (r ≡ ok a) × (next a ≡ ok c)
>>=-eq-ok (err e) next h = cc
>>=-eq-ok (ok a) next h = (a, refl, h)

module _ {ℓ} {A : Type ℓ} where
  pub ok_injective : (a b : A) → ok a ≡ ok b → a ≡ b
  ok_injective a b h = cc

  pub err-ne-ok : (e : DeltaError) (a : A) → ¬ (err e ≡ ok a)
  err-ne-ok e a h = cc

  pub Result-cases : (r : Result A) → ((a : A) × (r ≡ ok a)) ⊎ ((e : DeltaError) × (r ≡ err e))
  Result-cases (ok a) = inl (a, refl)
  Result-cases (err e) = inr (e, refl)

-- Inversion of a check that passed.
pub fail_if-eq-ok {ℓ} :
    {A : Type ℓ} (b : Bool) (e : DeltaError) (m : Result A) {a : A}
    → (fail_if b e >> m) ≡ ok a
    → (b ≡ false) × (m ≡ ok a)
fail_if-eq-ok true e m h = absurd (err-ne-ok e _ h)
fail_if-eq-ok false e m h = (refl, h)

-- A successful first step.
pub >>=-ok {ℓ κ} :
    {A : Type ℓ} {C : Type κ} {r : Result A} (next : A → Result C) {c : Result C} {a : A}
    → r ≡ ok a
    → next a ≡ c
    → (r >>= next) ≡ c
>>=-ok next e h = ap (λ r. r >>= next) e ∙ h
