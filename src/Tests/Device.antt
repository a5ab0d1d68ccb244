-- ===== src/Tests/Device.antt =====
-- Concrete updates of a block device, and the theorems about them at these updates.
use ota_pulse.Prelude.{
  ℕ, ◌*◌, ◌^◌, ◌≤◌, ◌<◌, ◌≡◌, refl, ◌⊎◌, true, false, none, some, List, [], ◌∷◌, ◌++◌, arith,
  length, get_elem?,
}
use ota_pulse.Prelude.Int.{pos}
use ota_pulse.Prelude.Segments.{drop, join, overwrite, equal_bytes}
use ota_pulse.Installer.BlockDevice.{
  chunk_size_for, double_to_chunk, chain, query, open_file, open_sized, open_device, copy,
  store_update,
}
use ota_pulse.Installer.BlockDevice.File.{
  Err, System, Disk, read_full, seek_back_by, write_file, sync_file, close_file,
}
use ota_pulse.Installer.BlockDevice.Flushing
use ota_pulse.Installer.BlockDevice.Optimized
use ota_pulse.Installer.BlockDevice.Framed
use ota_pulse.Installer.BlockDevice.Limited
use ota_pulse.Installer.BlockDevice.Bounded.Updates.{store_update-bounded}
use ota_pulse.Installer.BlockDevice.Stored.Image.{TellsSize, store_update-stores}
use ota_pulse.Installer.BlockDevice.Chunks.{chunk_size_for_lem}

abbrev emmc : System
emmc = record {
  is_mounted = true;
  is_ubi = false;
  fails = λ calls. false;
  size = λ calls. some 5;
  sector_size = λ calls. some 512;
  read_stops = λ calls. none;
  write_stops = λ calls. none;
}

abbrev partition : Disk
partition = record { trace = []; content = 9 ∷ 8 ∷ 7 ∷ 6 ∷ 5 ∷ []; pos = 0 }

abbrev image : List (List ℕ)
image = (1 ∷ 2 ∷ []) ∷ (3 ∷ []) ∷ []

emmc-TellsSize : TellsSize emmc partition
emmc-TellsSize calls n h = ground arith

-- The image stands before the rest of what was there; one that is longer than announced is cut.
updates :
    ((store_update emmc image false (pos 3) partition).1.content ≡ 1 ∷ 2 ∷ 3 ∷ 6 ∷ 5 ∷ [])
    × ((store_update emmc image false (pos 3) partition).0 ≡ none)
    × ((store_update emmc image false (pos 2) partition).0 ≡ some Err.no_space)
unfolding store_update open_device open_sized open_file chain query copy chunk_size_for
    double_to_chunk Limited.write Limited.close Limited.sink_write Limited.sink_close Framed.write
    Framed.close Optimized.write Optimized.write_dirty Optimized.close Flushing.write Flushing.close
    Flushing.sync read_full seek_back_by write_file sync_file close_file overwrite equal_bytes
updates = (refl, refl, refl)

store_update-stores_example :
    ((store_update emmc image false (pos 3) partition).1.content
      ≡ join image ++ drop (length (join image)) partition.content)
    × (length (join image) ≤ 3)
store_update-stores_example =
    store_update-stores emmc image false 3 partition (omega arith) emmc-TellsSize updates.1

store_update-bounded_example :
    get_elem? (store_update emmc image false (pos 3) partition).1.content 3 ≡ some 6
store_update-bounded_example =
    store_update-bounded emmc image false 3 partition 3 (omega arith) (omega arith)

chunk_size_for_lem_example :
    (2 ^ 20 ≤ chunk_size_for 512)
    × ((chunk_size_for 512 < 2 ^ 21) ⊎ (chunk_size_for 512 ≡ 512))
    × ((k : ℕ) × (chunk_size_for 512 ≡ 512 * 2 ^ k))
chunk_size_for_lem_example = chunk_size_for_lem 512 (omega arith)
