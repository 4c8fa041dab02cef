-- ===== src/Schema.antt =====
-- src/schema.rs: the deltas of states that serialise as JSON objects. serde_json is a parameter; a
-- JSON object is its entries in the order of their keys, as `serde_json::Map` keeps them.
pub mod Fields
use Prim.Native.Nat.{lt, eq, gt}
use delta_stream.Common.{
  ℕ, ◌≡◌, ◌⊎◌, inl, inr, Bool, true, false, not, List, [], ◌∷◌, ◌++◌, Option, none, some,
  if◌then◌else◌,
}
use delta_stream.Error.{invalid_state, json, Result, ok, err, ok_or, ◌>>=◌}
use delta_stream.Crdt.ReplicaId.{ReplicaId, cmp}
use delta_stream.Crdt.Components.{Entries, get, put, IsSorted}

-- The order of strings is that of their bytes, as it is of the identifiers.
abbrev pub Key : Type 0
Key = ReplicaId

pub record JsonFieldDelta (V : Type 0) : Type 0 where
  pub changed : Entries V
  pub removed : List Key

-- serde_json for a state type `T`, with its values `V`; a failure carries an opaque number.
pub record Serde (T V : Type 0) : Type 0 where
  pub to_value : T → ℕ ⊎ V
  pub from_value : V → ℕ ⊎ T
  pub to_vec : T → ℕ ⊎ List ℕ
  pub from_slice : List ℕ → ℕ ⊎ T
  pub delta_to_vec : JsonFieldDelta V → ℕ ⊎ List ℕ
  pub delta_from_slice : List ℕ → ℕ ⊎ JsonFieldDelta V
  pub value_from_slice : List ℕ → ℕ ⊎ V
  pub as_object : V → Option (Entries V)
  pub object : Entries V → V
  pub same_value : V → V → Bool

-- `?` on a result of serde_json.
abbrev pub json_result : {A : Type 0} → ℕ ⊎ A → Result A
json_result (inl e) = err (json e)
json_result (inr a) = ok a

-- `Map::remove`
unfoldable pub remove : {V : Type 0} → Key → Entries V → Entries V
remove k [] = []
remove k ((j, v) ∷ m) = let rest = remove k m in elim (cmp k j) [ eq ↦ m | _ ↦ (j, v) ∷ rest ]

unfoldable pub is_present : {V : Type 0} → Option V → Bool
is_present none = false
is_present (some v) = true

unfoldable pub contains_key : {V : Type 0} → Key → Entries V → Bool
unfolding is_present
contains_key k m = is_present (get k m)

module _ {V : Type 0} (same_value : V → V → Bool) where
  -- `old.get(key) != Some(value)`
  unfoldable pub changes : Option V → V → Bool
  changes none value = true
  changes (some v) value = not (same_value v value)

  -- The loop over the new entries.
  unfoldable pub changed_loop : Entries V → Entries V → Entries V → Entries V
  unfolding changes
  changed_loop old [] changed_ = changed_
  changed_loop old ((key, value) ∷ new) changed_ =
      changed_loop old new
        (if changes (get key old) value then put key value changed_ else changed_)

-- The loop over the old keys.
unfoldable pub removed_loop : {V : Type 0} → Entries V → Entries V → List Key
unfolding contains_key
removed_loop [] new = []
removed_loop ((key, value) ∷ old) new =
    let rest = removed_loop old new in if not (contains_key key new) then key ∷ rest else rest

-- The two loops of `apply`.
unfoldable pub remove_all : {V : Type 0} → List Key → Entries V → Entries V
unfolding remove
remove_all [] obj = obj
remove_all (key ∷ keys) obj = remove_all keys (remove key obj)

unfoldable pub insert_all : {V : Type 0} → Entries V → Entries V → Entries V
insert_all [] obj = obj
insert_all ((key, value) ∷ rest) obj = insert_all rest (put key value obj)

module _ {T V : Type 0} (serde : Serde T V) where
  unfoldable pub as_map : V → Result (Entries V)
  as_map value =
      ok_or (serde.as_object value)
        (invalid_state "generic DeltaState must serialize as a JSON object")

  unfoldable pub between : T → T → Result (JsonFieldDelta V)
  unfolding as_map changed_loop removed_loop
  between old new = do
    old_value ← json_result (serde.to_value old)
    new_value ← json_result (serde.to_value new)
    old_map ← as_map old_value
    new_map ← as_map new_value
    ok (record {
      changed = changed_loop serde.same_value old_map new_map [];
      removed = removed_loop old_map new_map;
    })

  unfoldable pub apply : JsonFieldDelta V → T → Result T
  unfolding as_map remove_all insert_all
  apply self base = do
    value ← json_result (serde.to_value base)
    obj ← as_map value
    json_result
        (serde.from_value (serde.object (insert_all self.changed (remove_all self.removed obj))))

  unfoldable pub encode_generic_snapshot : T → Result (List ℕ)
  encode_generic_snapshot state = json_result (serde.to_vec state)

  unfoldable pub decode_generic_snapshot : List ℕ → Result T
  decode_generic_snapshot bytes = json_result (serde.from_slice bytes)

  unfoldable pub encode_generic_delta : JsonFieldDelta V → Result (List ℕ)
  encode_generic_delta delta = json_result (serde.delta_to_vec delta)

  unfoldable pub decode_generic_delta : List ℕ → Result (JsonFieldDelta V)
  decode_generic_delta bytes = json_result (serde.delta_from_slice bytes)
