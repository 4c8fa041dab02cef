-- ===== src/Stream/Migrate.antt =====
-- src/migration.rs, and `apply_packet_with_migrations` of src/sync.rs.
use delta_stream.Common.{
  ℕ, inl, inr, Bool, true, false, not, ◌&&◌, Bool-cases, List, [], ◌∷◌, Option, none, some, ◌==◌,
  if◌then◌else◌,
}
use delta_stream.Error.{
  invalid_state, schema_migration_missing, Result, ok, ok_or, fail_if, ◌>>=◌, ◌>>◌,
}
use delta_stream.Hash.{fnv1a64}
use delta_stream.Libraries.{Libraries}
use delta_stream.Packet.{Packet, PacketKind, logical_payload_with_config}
use delta_stream.Recovery.Window.{contains}
use delta_stream.Schema.{Serde, json_result}
use delta_stream.Stream.Decoder.{
  Decoder, ApplyResult, need_snapshot, duplicate, Next, next, is_behind, commit, apply_packet,
}
use delta_stream.Stream.Generic.{generic_codec}
use delta_stream.Stream.Invariant.{IsDecoder, apply_packet-IsDecoder, commit-IsDecoder}

abbrev pub Migration : Type 0 → Type 0
Migration V = V → Result V

-- The `HashMap` of routes, by the hashes of the two schemas; a later route replaces an earlier one.
pub record MigrationRegistry (V : Type 0) : Type 0 where
  pub routes : List (ℕ × ℕ × Migration V)

unfoldable pub new_registry : {V : Type 0} → MigrationRegistry V
new_registry = record { routes = [] }

unfoldable pub register :
    {V : Type 0} → MigrationRegistry V → ℕ → ℕ → Migration V → MigrationRegistry V
register self from_schema to_schema migration = record {
  routes = (from_schema, to_schema, migration) ∷ self.routes;
}

unfoldable pub route : {V : Type 0} → ℕ → ℕ → List (ℕ × ℕ × Migration V) → Option (Migration V)
route from_schema to_schema [] = none
route from_schema to_schema ((a, b, f) ∷ rest) =
    let later = route from_schema to_schema rest in
    if (a == from_schema) && (b == to_schema) then some f else later

unfoldable pub has_route : {V : Type 0} → MigrationRegistry V → ℕ → ℕ → Bool
unfolding route
has_route self from_schema to_schema = elim (route from_schema to_schema self.routes) [
  | none ↦ false
  | some f ↦ true
]

unfoldable pub migrate : {V : Type 0} → MigrationRegistry V → ℕ → ℕ → V → Result V
unfolding route
migrate self from_schema to_schema value =
    if from_schema == to_schema
    then ok value
    else (ok_or (route from_schema to_schema self.routes)
          (schema_migration_missing from_schema to_schema)
        >>= λ f. f value)

module _ {T V : Type 0} (serde : Serde T V) (schema_hash : ℕ) (lib : Libraries) where
  -- What stands behind the early returns.
  unfoldable pub migrated_state : Decoder T → Packet → MigrationRegistry V → Result (Next T)
  unfolding migrate
  migrated_state self packet migrations = do
    payload_ ← logical_payload_with_config lib packet self.decode_config
    fail_if (not (fnv1a64 payload_ == packet.base_hash)) (invalid_state "snapshot hash mismatch")
    value ← json_result (serde.value_from_slice payload_)
    migrated ← migrate migrations packet.schema_hash schema_hash value
    state ← json_result (serde.from_value migrated)
    ok (next state)

  unfoldable pub is_snapshot : PacketKind → Bool
  is_snapshot PacketKind.snapshot = true
  is_snapshot PacketKind.delta = false

  unfoldable pub apply_packet_with_migrations :
      Decoder T → Packet → MigrationRegistry V → Decoder T × Result (ApplyResult T)
  unfolding migrated_state is_snapshot
  apply_packet_with_migrations self packet migrations =
      if packet.schema_hash == schema_hash
      then apply_packet (generic_codec serde schema_hash) lib self packet
      else if not (is_snapshot packet.kind)
      then (self, ok (need_snapshot self.sequence packet.base_sequence))
      else if contains self.replay packet.sequence
      then (self, ok (duplicate packet.sequence))
      else if is_behind self.sequence packet.sequence
      then (self, ok (duplicate packet.sequence))
      else commit self packet (migrated_state self packet migrations)

  -- Migration keeps the decoder's invariant too.
  pub apply_packet_with_migrations-IsDecoder :
      (d : Decoder T) (p : Packet) (migrations : MigrationRegistry V)
      → IsDecoder d
      → IsDecoder (apply_packet_with_migrations d p migrations).0
  unfolding apply_packet_with_migrations
  apply_packet_with_migrations-IsDecoder d p migrations h =
      elim (Bool-cases (p.schema_hash == schema_hash)) [
        | inl same ↦ rw same (apply_packet-IsDecoder (generic_codec serde schema_hash) lib d p h)
        | inr other ↦ elim (Bool-cases (is_snapshot p.kind)) [
          | inr delta ↦ rw (other, delta) h
          | inl whole ↦ elim (Bool-cases (contains d.replay p.sequence)) [
            | inl known ↦ rw (other, whole, known) h
            | inr new_ ↦ elim (Bool-cases (is_behind d.sequence p.sequence)) [
              | inl old ↦ rw (other, whole, new_, old) h
              | inr fresh ↦
                  rw (other, whole, new_, fresh)
                    (commit-IsDecoder (generic_codec serde schema_hash) lib d p _ h fresh)
            ]
          ]
        ]
      ]
