-- ===== src/Stream/Generic.antt =====
-- `GenericEncoder` and `GenericDecoder` of src/sync.rs on states that serde_json serialises.
use delta_stream.Common.{ℕ, ◌≡◌, refl, sym, subst, ◌∙◌, not, List, some, [], inr, ◌==◌, ==-eq-true}
use delta_stream.Error.{invalid_state, Result, ok, fail_if, ok_injective, ◌>>=◌, ◌>>◌, >>=-ok}
use delta_stream.Hash.{fnv1a64}
use delta_stream.Crdt.Components.{Entries, IsSorted}
use delta_stream.Schema.{
  JsonFieldDelta, Serde, changed_loop, removed_loop, as_map, between, apply,
  encode_generic_snapshot, decode_generic_snapshot, encode_generic_delta, decode_generic_delta,
}
use delta_stream.Schema.Fields.{AreTold, insert_all-changed_loop}
use delta_stream.Stream.{StateCodec}
use delta_stream.Stream.Law.{IsCodec}

module _ {T V : Type 0} (serde : Serde T V) where
  unfoldable pub generic_delta_bytes : T → T → Result (List ℕ)
  unfolding between encode_generic_delta
  generic_delta_bytes old new = do delta ← between serde old new; encode_generic_delta serde delta

  -- What the branches of `apply_packet` do with a payload.
  unfoldable pub open_generic_snapshot : List ℕ → ℕ → Result T
  unfolding decode_generic_snapshot
  open_generic_snapshot payload_ base_hash_ = do
    fail_if (not (fnv1a64 payload_ == base_hash_)) (invalid_state "snapshot hash mismatch")
    decode_generic_snapshot serde payload_

  unfoldable pub apply_generic_delta : List ℕ → T → Result T
  unfolding decode_generic_delta apply
  apply_generic_delta payload_ current = do
    delta ← decode_generic_delta serde payload_
    apply serde delta current

  -- `T::schema_hash()` is given.
  unfoldable pub generic_codec : ℕ → StateCodec T
  unfolding generic_delta_bytes open_generic_snapshot apply_generic_delta encode_generic_snapshot
  generic_codec schema_hash_ = record {
    schema_hash = schema_hash_;
    snapshot_bytes = encode_generic_snapshot serde;
    delta_bytes = generic_delta_bytes;
    open_snapshot = open_generic_snapshot;
    apply_delta = apply_generic_delta;
  }

-- How serde_json represents a state: as an object that gives the state back.
pub record IsObject {T V : Type 0} (serde : Serde T V) (s : T) : Type 0 where
  pub value : V
  pub entries : Entries V
  pub value_eq : serde.to_value s ≡ inr value
  pub entries_eq : serde.as_object value ≡ some entries
  pub sorted : IsSorted entries
  pub back : serde.from_value (serde.object entries) ≡ inr s

-- The documented behaviour of serde_json on the valid states of a type, and on their deltas: what it
-- writes it reads back. `Valid` leaves out the states for which that fails, such as one with a NaN or
-- with a float whose digits are not read back exactly. Nothing is assumed of the comparison of
-- values, which takes the floats 0.0 and -0.0 for equal.
pub record IsLawfulSerde {T V : Type 0} (serde : Serde T V) (Valid : T → Type 0) : Type 0 where
  pub objects : (s : T) → Valid s → IsObject serde s
  pub to_vec_ok : (s : T) → Valid s → (bytes : List ℕ) × (serde.to_vec s ≡ inr bytes)
  pub from_slice-to_vec :
      (s : T) (bytes : List ℕ)
      → Valid s
      → serde.to_vec s ≡ inr bytes
      → serde.from_slice bytes ≡ inr s
  pub delta_to_vec_ok :
      (old new : T) (d : JsonFieldDelta V)
      → Valid old
      → Valid new
      → between serde old new ≡ ok d
      → (bytes : List ℕ) × (serde.delta_to_vec d ≡ inr bytes)
        × (serde.delta_from_slice bytes ≡ inr d)

-- The comparison of values tells the fields of two states apart where they differ, as it does unless
-- two of them differ by the sign of a zero.
pub record AreTellable {T V : Type 0} (serde : Serde T V) (old new : T) : Type 0 where
  pub told :
      (o n : V) (old_map new_map : Entries V)
      → serde.to_value old ≡ inr o
      → serde.to_value new ≡ inr n
      → serde.as_object o ≡ some old_map
      → serde.as_object n ≡ some new_map
      → AreTold serde.same_value old_map new_map

module _ {T V : Type 0} (serde : Serde T V) {Valid : T → Type 0}
    (law : IsLawfulSerde serde Valid) where
  abbrev difference : Entries V → Entries V → JsonFieldDelta V
  difference old new = record {
    changed = changed_loop serde.same_value old new [];
    removed = removed_loop old new;
  }

  between-difference :
      (old new : T) (h : Valid old) (k : Valid new)
      → between serde old new
        ≡ ok (difference (law.objects old h).entries (law.objects new k).entries)
  unfolding between as_map
  between-difference old new h k =
      let o = law.objects old h in
      let n = law.objects new k in rw (o.value_eq, n.value_eq, o.entries_eq, n.entries_eq) refl

  apply-difference :
      (old new : T) (h : Valid old) (k : Valid new)
      → AreTellable serde old new
      → apply serde (difference (law.objects old h).entries (law.objects new k).entries) old
        ≡ ok new
  unfolding apply as_map
  apply-difference old new h k tellable =
      let o = law.objects old h in
      let n = law.objects new k in
      rw
        (
          o.value_eq,
          o.entries_eq,
          insert_all-changed_loop serde.same_value o.entries n.entries
              (tellable.told o.value n.value o.entries n.entries o.value_eq n.value_eq o.entries_eq
                n.entries_eq)
              o.sorted n.sorted,
          n.back,
        )
        refl

  generic_delta_bytes_ok :
      (old new : T) (h : Valid old) (k : Valid new)
      → (bytes : List ℕ) × (generic_delta_bytes serde old new ≡ ok bytes)
        × (serde.delta_from_slice bytes
            ≡ inr (difference (law.objects old h).entries (law.objects new k).entries))
  unfolding generic_delta_bytes encode_generic_delta
  generic_delta_bytes_ok old new h k =
      let d = difference (law.objects old h).entries (law.objects new k).entries in
      let (bytes, written, read) =
        law.delta_to_vec_ok old new d h k (between-difference old new h k) in
      (bytes, rw (between-difference old new h k, written) refl, read)

  snapshot_ok :
      (s : T)
      → Valid s
      → (bytes : List ℕ) × (encode_generic_snapshot serde s ≡ ok bytes)
        × (serde.from_slice bytes ≡ inr s)
  unfolding encode_generic_snapshot
  snapshot_ok s h =
      let (bytes, written) = law.to_vec_ok s h in
      (bytes, rw written refl, law.from_slice-to_vec s bytes h written)

  open_ok :
      (s : T) (bytes : List ℕ)
      → Valid s
      → encode_generic_snapshot serde s ≡ ok bytes
      → open_generic_snapshot serde bytes (fnv1a64 bytes) ≡ ok s
  unfolding open_generic_snapshot decode_generic_snapshot
  open_ok s bytes h e =
      let (written, made, read) = snapshot_ok s h in
      let same : written ≡ bytes = ok_injective written bytes (sym made ∙ e) in
      let read' : serde.from_slice bytes ≡ inr s =
        subst (λ b. serde.from_slice b ≡ inr s) same read in
      rw (==-eq-true (fnv1a64 bytes) (fnv1a64 bytes) refl, read') refl

  apply_ok :
      (old new : T) (bytes : List ℕ)
      → Valid old
      → Valid new
      → AreTellable serde old new
      → generic_delta_bytes serde old new ≡ ok bytes
      → apply_generic_delta serde bytes old ≡ ok new
  unfolding apply_generic_delta decode_generic_delta
  apply_ok old new bytes h k tellable e =
      let (written, made, read) = generic_delta_bytes_ok old new h k in
      let d = difference (law.objects old h).entries (law.objects new k).entries in
      let same : written ≡ bytes = ok_injective written bytes (sym made ∙ e) in
      let read' : serde.delta_from_slice bytes ≡ inr d =
        subst (λ b. serde.delta_from_slice b ≡ inr d) same read in
      let decoded : decode_generic_delta serde bytes ≡ ok d = rw read' refl in
      >>=-ok _ decoded (apply-difference old new h k tellable)

  -- If serde_json represents the valid states of a type as objects that give them back, and reads
  -- back the snapshots and deltas of valid states that it writes, then the generic snapshots and
  -- field deltas are a codec as the streams assume it: every valid state survives its snapshot, any
  -- two valid states have a delta, and the delta applied to the first gives exactly the second, if
  -- serde_json's comparison tells their fields apart where they differ.
  pub generic_codec-IsCodec :
      (schema_hash : ℕ) → IsCodec (generic_codec serde schema_hash) Valid (AreTellable serde)
  unfolding generic_codec
  generic_codec-IsCodec schema_hash = record {
    encodes = λ s h. let (bytes, made, read) = snapshot_ok s h in (bytes, made);
    opens = λ s bytes h e small. open_ok s bytes h e;
    differs = λ old new h k.
        let (bytes, made, read) = generic_delta_bytes_ok old new h k in (bytes, made);
    applies = λ old new bytes h k tellable e small. apply_ok old new bytes h k tellable e;
  }
