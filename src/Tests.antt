-- ===== src/Tests.antt =====
-- Concrete values: a lawful instance of the parameters, on which the theorems are applied.
mod Deltas
mod Packets
mod Sync
mod Crdts
mod Fast
mod Recoveries
mod Streams
mod Generics
mod Repairs
use delta_stream.Common.{
  ℕ, suc, zero, ◌+◌, ◌≤◌, ◌<◌, ◌^◌, ◌%◌, ◌≡◌, refl, sym, ap, ◌∙◌, Bool, true, false, ◌&&◌, ◌⊎◌, inl,
  inr, List, [], ◌∷◌, length, leb, ◌==◌, if◌then◌else◌, Bool-cases, leb-eq-true, ==_iff, arith,
}
use delta_stream.Hash.{fnv1a64}
use delta_stream.Libraries.{Libraries, IsLawful}
use delta_stream.ByteSync.Total.{Compresses}

unfoldable pub is_zeros : List ℕ → Bool
is_zeros [] = true
is_zeros (b ∷ bs) = (b == 0) && is_zeros bs

unfoldable pub zeros : ℕ → List ℕ
zeros zero = []
zeros (suc n) = 0 ∷ zeros n

-- A run of zeros is kept as its length, all else behind a mark.
unfoldable pub pack : ℕ → List ℕ → ℕ ⊎ List ℕ
pack level bytes = inr (if is_zeros bytes then 1 ∷ length bytes ∷ [] else 0 ∷ bytes)

unfoldable pub within : ℕ → List ℕ → ℕ ⊎ List ℕ
within limit bytes = if leb (length bytes) limit then inr bytes else inl 0

unfoldable pub unpack : List ℕ → ℕ → ℕ ⊎ List ℕ
unpack [] limit = inl 1
unpack (zero ∷ bytes) limit = within limit bytes
unpack (suc mark ∷ []) limit = inl 1
unpack (suc mark ∷ n ∷ rest) limit = within limit (zeros n)

abbrev pub toy : Libraries
toy = record { crc32 = λ bytes. fnv1a64 bytes % 2 ^ 32; compress = pack; decompress = unpack }

zeros_lem : (bytes : List ℕ) → is_zeros bytes ≡ true → zeros (length bytes) ≡ bytes
unfolding is_zeros zeros
zeros_lem [] h = refl
zeros_lem (b ∷ bs) h = ground (arith, zeros_lem bs)

within-fits : (limit : ℕ) (bytes : List ℕ) → length bytes ≤ limit → within limit bytes ≡ inr bytes
unfolding within
within-fits limit bytes h = ground arith

within_limit : (limit : ℕ) (bytes out : List ℕ) → within limit bytes ≡ inr out → length out ≤ limit
unfolding within
within_limit limit bytes out h = ground arith

unpack-pack :
    (level limit : ℕ) (bytes packed : List ℕ)
    → pack level bytes ≡ inr packed
    → length bytes ≤ limit
    → unpack packed limit ≡ inr bytes
unfolding pack unpack
unpack-pack level limit bytes packed e fits = elim (Bool-cases (is_zeros bytes)) [
  | inl yes_ ↦ zero_run yes_ (cc (rw yes_ at e))
  | inr no_ ↦ plain (cc (rw no_ at e))
]
  where
    zero_run :
        is_zeros bytes ≡ true → 1 ∷ length bytes ∷ [] ≡ packed → unpack packed limit ≡ inr bytes
    zero_run z same =
        rw (← same) (ap (within limit) (zeros_lem bytes z) ∙ within-fits limit bytes fits)

    plain : 0 ∷ bytes ≡ packed → unpack packed limit ≡ inr bytes
    plain same = rw (← same) (within-fits limit bytes fits)

unpack_limit :
    (packed bytes : List ℕ) (limit : ℕ) → unpack packed limit ≡ inr bytes → length bytes ≤ limit
unfolding unpack
unpack_limit [] bytes limit h = cc
unpack_limit (zero ∷ rest) bytes limit h = within_limit limit rest bytes h
unpack_limit (suc mark ∷ []) bytes limit h = cc
unpack_limit (suc mark ∷ n ∷ rest) bytes limit h = within_limit limit (zeros n) bytes h

pub toy-IsLawful : IsLawful toy
toy-IsLawful = record {
  crc32_u32 = λ bytes. omega arith;
  decompress-compress = unpack-pack;
  decompress_limit = unpack_limit;
}

pub toy-Compresses : Compresses toy
unfolding pack
toy-Compresses level bytes = (_, refl)
