-- ===== src/Installer/BlockDevice/Chunks.antt =====
-- installer/block_device.go `Open`: the size of the chunks.
use ota_pulse.Prelude.{
  ℕ, zero, suc, ◌*◌, ◌^◌, ◌≤◌, ◌<◌, ◌≡◌, refl, ap, ◌⊎◌, inl, inr, ltb, arith, Bool-cases,
}
use ota_pulse.Prelude.Powers.{pow_step}
use ota_pulse.Installer.BlockDevice.{double_to_chunk, chunk_size_for}

-- From 1 MiB on, and less than 2 MiB unless it is the size of a sector; made of whole sectors.
abbrev IsChunk : ℕ → ℕ → Type 0
IsChunk sector chunk =
    (2 ^ 20 ≤ chunk) × ((chunk < 2 ^ 21) ⊎ (chunk ≡ sector)) × ((k : ℕ) × (chunk ≡ sector * 2 ^ k))

module _ (sector : ℕ) where
  double_to_chunk-IsChunk :
      (fuel size k : ℕ)
      → 2 ^ 20 ≤ size * 2 ^ fuel
      → size ≡ sector * 2 ^ k
      → (size < 2 ^ 21) ⊎ (size ≡ sector)
      → IsChunk sector (double_to_chunk fuel size)
  unfolding double_to_chunk
  double_to_chunk-IsChunk zero size k enough e h = (omega arith, h, (k, e))
  double_to_chunk-IsChunk (suc fuel) size k enough e h = elim (Bool-cases (ltb size (2 ^ 20))) [
    | inl small ↦ rw small (
        double_to_chunk-IsChunk fuel (size * 2) (suc k) (rw (← pow_step size fuel) enough)
          (omega (arith, pow_step sector k, ap (λ (t : ℕ). t * 2) e)) (inl (ground arith)))
    | inr large ↦ rw large (ground arith, h, (k, e))
  ]

-- The search for a chunk size, from a sector size that is not 0, ends with one that is at least
-- 1 MiB, less than 2 MiB unless it is that of a sector, and a sector's times a power of two.
pub chunk_size_for_lem :
    (sector : ℕ)
    → 0 < sector
    → (2 ^ 20 ≤ chunk_size_for sector)
      × ((chunk_size_for sector < 2 ^ 21) ⊎ (chunk_size_for sector ≡ sector))
      × ((k : ℕ) × (chunk_size_for sector ≡ sector * 2 ^ k))
unfolding chunk_size_for
chunk_size_for_lem sector h =
    double_to_chunk-IsChunk sector 20 sector 0 (omega arith) (omega arith) (inr refl)
