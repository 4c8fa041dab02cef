-- ===== src/Repair.antt =====
-- src/partial_repair.rs: the chunks in which a receiver's state differs from the authoritative one.
pub mod Apply
pub mod Plan
use delta_stream.Common.{
  ℕ, zero, suc, ◌+◌, ◌-◌, ◌*◌, max, min, Bool, true, false, not, ◌&&◌, List, [], ◌∷◌, ◌++◌, map,
  Option, none, some, length, take, drop, get_elem?, ltb, leb, ◌==◌, if◌then◌else◌, checked_add,
  checked_mul,
}
use delta_stream.Error.{
  invalid_state, invalid_packet, text, Result, ok, err, fail_if, ok_or, ◌>>=◌, ◌>>◌,
}
use delta_stream.Hash.{fnv1a64}
use delta_stream.SmartDelta.Buffer.{resize}
use delta_stream.SmartDelta.Chunks.{div_ceil}

pub record ChunkManifest : Type 0 where
  pub state_len : ℕ
  pub chunk_size : ℕ
  pub hashes : List ℕ

-- `state.chunks(chunk_size)`: `left` chunks, from the chunk `k` on.
unfoldable pub chunk_at : List ℕ → ℕ → ℕ → List ℕ
chunk_at state chunk_size_ k = take chunk_size_ (drop (k * chunk_size_) state)

unfoldable pub chunks_from : ℕ → ℕ → List ℕ → ℕ → List (List ℕ)
unfolding chunk_at
chunks_from zero k state chunk_size_ = []
chunks_from (suc left) k state chunk_size_ =
    chunk_at state chunk_size_ k ∷ chunks_from left (k + 1) state chunk_size_

unfoldable pub chunks : List ℕ → ℕ → List (List ℕ)
unfolding chunks_from
chunks state chunk_size_ = chunks_from (div_ceil (length state) chunk_size_) 0 state chunk_size_

unfoldable pub build_manifest : List ℕ → ℕ → ChunkManifest
unfolding chunks
build_manifest state chunk_size_ =
    let size = max chunk_size_ 1 in
    record { state_len = length state; chunk_size = size; hashes = map fnv1a64 (chunks state size) }

-- `==` on what `hashes.get(i)` returns.
unfoldable pub same_hash : Option ℕ → Option ℕ → Bool
same_hash none none = true
same_hash none (some b) = false
same_hash (some a) none = false
same_hash (some a) (some b) = a == b

-- The filter on the indices, with `left` of them from `i` on.
unfoldable pub differing_from : ℕ → ℕ → List ℕ → List ℕ → List ℕ
unfolding same_hash
differing_from zero i hashes_ others = []
differing_from (suc left) i hashes_ others =
    let rest = differing_from left (i + 1) hashes_ others in
    if not (same_hash (get_elem? hashes_ i) (get_elem? others i)) then i ∷ rest else rest

unfoldable pub differing_chunks : ChunkManifest → ChunkManifest → List ℕ
unfolding differing_from
differing_chunks self other =
    differing_from (max (length self.hashes) (length other.hashes)) 0 self.hashes other.hashes

pub record ChunkPatch : Type 0 where
  pub index : ℕ
  pub bytes : List ℕ

pub record PartialRepair : Type 0 where
  pub target_len : ℕ
  pub chunk_size : ℕ
  pub target_hash : ℕ
  pub patches : List ChunkPatch

-- The patch of one index, whose offset is given; an index whose offset overflows is left out.
unfoldable pub patch_from : List ℕ → ℕ → ℕ → Option ℕ → Option ChunkPatch
patch_from authoritative size index_ none = none
patch_from authoritative size index_ (some start) =
    if leb (length authoritative) start
    then some (record { index = index_; bytes = [] })
    else some (record {
      index = index_;
      bytes = take (min (start + size) (length authoritative) - start) (drop start authoritative);
    })

unfoldable pub make_patch : List ℕ → ℕ → ℕ → Option ChunkPatch
unfolding patch_from
make_patch authoritative size index_ =
    patch_from authoritative size index_ (checked_mul index_ size)

unfoldable pub put_patch : Option ChunkPatch → List ChunkPatch → List ChunkPatch
put_patch none rest = rest
put_patch (some patch) rest = patch ∷ rest

-- The `filter_map` over the indices.
unfoldable pub make_patches : List ℕ → ℕ → List ℕ → List ChunkPatch
unfolding make_patch put_patch
make_patches authoritative size [] = []
make_patches authoritative size (i ∷ is_) =
    put_patch (make_patch authoritative size i) (make_patches authoritative size is_)

unfoldable pub build : List ℕ → List ℕ → ℕ → PartialRepair
unfolding build_manifest differing_chunks make_patches
build receiver_state authoritative chunk_size_ =
    let size = max chunk_size_ 1 in
    record {
      target_len = length authoritative;
      chunk_size = size;
      target_hash = fnv1a64 authoritative;
      patches = make_patches authoritative size (
          differing_chunks (build_manifest receiver_state size)
            (build_manifest authoritative size));
    }

unfoldable pub is_empty : List ℕ → Bool
is_empty [] = true
is_empty (b ∷ bytes_) = false

-- `out[start..end].copy_from_slice(&patch.bytes)`, with the range inside.
unfoldable pub write_range : List ℕ → ℕ → ℕ → List ℕ → List ℕ
write_range out start end bytes_ = take start out ++ (bytes_ ++ drop end out)

-- One round of the loop over the patches.
unfoldable pub apply_patch : ℕ → ChunkPatch → List ℕ → Result (List ℕ)
unfolding is_empty write_range
apply_patch size patch out = do
  start ← ok_or (checked_mul patch.index size) (invalid_state "chunk index overflow")
  if is_empty patch.bytes && leb (length out) start
      then ok out
      else (ok_or (checked_add start (length patch.bytes)) (invalid_state "chunk length overflow")
          >>= λ end.
              if ltb (length out) end
              then err (invalid_packet (text "partial repair chunk out of bounds"))
              else ok (write_range out start end patch.bytes))

unfoldable pub apply_patches : ℕ → List ChunkPatch → List ℕ → Result (List ℕ)
unfolding apply_patch
apply_patches size [] out = ok out
apply_patches size (patch ∷ rest) out = do
  out ← apply_patch size patch out
  apply_patches size rest out

-- `resize` is taken to succeed; the source panics where `target_len` exceeds `isize::MAX`.
unfoldable pub apply : PartialRepair → List ℕ → Result (List ℕ)
unfolding apply_patches
apply self base = do
  out ← apply_patches self.chunk_size self.patches (resize base self.target_len)
  fail_if (not (fnv1a64 out == self.target_hash)) (invalid_state "partial repair hash mismatch")
  ok out

unfoldable pub payload_bytes_from : List ChunkPatch → ℕ
payload_bytes_from [] = 0
payload_bytes_from (p ∷ ps) = length p.bytes + payload_bytes_from ps

unfoldable pub payload_bytes : PartialRepair → ℕ
unfolding payload_bytes_from
payload_bytes self = payload_bytes_from self.patches
