-- ===== src/Tests/Generics.antt =====
-- A state with one field, as serde_json might represent it.
use delta_stream.Common.{
  ℕ, ◌≡◌, ◌⊎◌, refl, sym, subst, ◌∙◌, inl, inr, Bool, false, ◌&&◌, ◌||◌, Bool-cases, List, [], ◌∷◌,
  Option, none, some, ◌==◌, leb, if◌then◌else◌,
}
use delta_stream.Error.{ok, ok_injective}
use delta_stream.Crdt.ReplicaId.{ReplicaId, cmp}
use delta_stream.Crdt.Components.{Entries, get, put}
use delta_stream.Schema.{
  JsonFieldDelta, Serde, changes, changed_loop, removed_loop, between, apply, as_map, contains_key,
  is_present, remove_all, insert_all, encode_generic_delta, decode_generic_delta,
}
use delta_stream.Stream.Law.{IsCodec}
use delta_stream.Stream.Generic.{
  generic_codec, generic_delta_bytes, apply_generic_delta, IsLawfulSerde, AreTellable,
  generic_codec-IsCodec,
}

data Json : Type 0 where
  number wrapped : ℕ → Json

abbrev key_x : ReplicaId
key_x = b'x' ∷ []

unwrap : Json → ℕ ⊎ ℕ
unwrap (number n) = inl 0
unwrap (wrapped n) = inr n

fields : Json → Option (Entries Json)
fields (number n) = none
fields (wrapped n) = some ((key_x, number n) ∷ [])

wrap : Entries Json → Json
wrap [] = number 0
wrap ((k, number n) ∷ m) = wrapped n
wrap ((k, wrapped n) ∷ m) = number 0

-- Zero and one stand for the floats 0.0 and -0.0, which compare as equal.
same_number : ℕ → ℕ → Bool
same_number a b = a == b || (leb a 1 && leb b 1)

same_json : Json → Json → Bool
unfolding same_number
same_json (number a) (number b) = same_number a b
same_json (number a) (wrapped b) = false
same_json (wrapped a) (number b) = false
same_json (wrapped a) (wrapped b) = same_number a b

one_byte : List ℕ → ℕ ⊎ ℕ
one_byte [] = inl 1
one_byte (n ∷ rest) = inr n

write_delta : Entries Json → ℕ ⊎ List ℕ
write_delta [] = inr []
write_delta ((k, number n) ∷ m) = inr (n ∷ [])
write_delta ((k, wrapped n) ∷ m) = inl 2

read_delta : List ℕ → ℕ ⊎ JsonFieldDelta Json
read_delta [] = inr (record { changed = []; removed = [] })
read_delta (n ∷ rest) = inr (record { changed = (key_x, number n) ∷ []; removed = [] })

abbrev toy_serde : Serde ℕ Json
toy_serde = record {
  to_value = λ n. inr (wrapped n);
  from_value = unwrap;
  to_vec = λ n. inr (n ∷ []);
  from_slice = one_byte;
  delta_to_vec = λ d. write_delta d.changed;
  delta_from_slice = read_delta;
  value_from_slice = λ bytes. inl 3;
  as_object = fields;
  object = wrap;
  same_value = same_json;
}

abbrev IsAny : ℕ → Type 0
IsAny n = Unit

delta_of : ℕ → ℕ → JsonFieldDelta Json
delta_of old new = record {
  changed = if same_number old new then [] else (key_x, number new) ∷ [];
  removed = [];
}

between-delta_of : (old new : ℕ) → between toy_serde old new ≡ ok (delta_of old new)
unfolding between as_map fields delta_of changed_loop removed_loop changes contains_key is_present
    same_json cmp get put
between-delta_of old new = elim (Bool-cases (same_number old new)) [
  | inl e ↦ rw e refl
  | inr e ↦ rw e refl
]

delta_of-read :
    (old new : ℕ)
    → (bytes : List ℕ) × (write_delta (delta_of old new).changed ≡ inr bytes)
      × (read_delta bytes ≡ inr (delta_of old new))
unfolding delta_of write_delta read_delta
delta_of-read old new = elim (Bool-cases (same_number old new)) [
  | inl e ↦ rw e ([], refl, refl)
  | inr e ↦ rw e (new ∷ [], refl, refl)
]

toy_serde-IsLawful : IsLawfulSerde toy_serde IsAny
unfolding unwrap fields wrap one_byte
toy_serde-IsLawful = record {
  objects = λ s h. record {
    value = wrapped s;
    entries = (key_x, number s) ∷ [];
    value_eq = refl;
    entries_eq = refl;
    sorted = (tt, tt);
    back = refl;
  };
  to_vec_ok = λ s h. (s ∷ [], refl);
  from_slice-to_vec =
      λ s bytes h e. let same : s ∷ [] ≡ bytes = cc in subst (λ b. one_byte b ≡ inr s) same refl;
  delta_to_vec_ok = λ old new d h k e.
      subst
        (λ x. (bytes : List ℕ) × (write_delta x.changed ≡ inr bytes) × (read_delta bytes ≡ inr x))
        (ok_injective (delta_of old new) d (sym (between-delta_of old new) ∙ e))
        (delta_of-read old new);
}

generic_codec-IsCodec_example : IsCodec (generic_codec toy_serde 7) IsAny (AreTellable toy_serde)
generic_codec-IsCodec_example = generic_codec-IsCodec toy_serde toy_serde-IsLawful 7

-- The change of a zero's sign does not get into the delta, which leads back to the old state.
sign_lost :
    (bytes : List ℕ) × (generic_delta_bytes toy_serde 0 1 ≡ ok bytes)
    × (apply_generic_delta toy_serde bytes 0 ≡ ok 0)
unfolding generic_delta_bytes apply_generic_delta between encode_generic_delta apply
    decode_generic_delta fields unwrap wrap write_delta read_delta changed_loop removed_loop changes
    contains_key is_present as_map remove_all insert_all same_json cmp get put
sign_lost = ([], refl, refl)
