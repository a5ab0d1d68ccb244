-- ===== src/Installer/BlockDevice/Bounded/Updates.antt =====
-- installer/block_device.go: what `StoreUpdate` leaves alone, from the opening of the device on.
use ota_pulse.Prelude.{
  ℕ, ◌^◌, ◌≤◌, ◌<◌, ◌≡◌, refl, ap, ◌∙◌, Bool, true, false, Option, none, some, List, [], ltb, arith,
  if◌then◌else◌, get_elem?,
}
use ota_pulse.Prelude.Int.{pos}
use ota_pulse.Installer.BlockDevice.{
  chain, query, open_file, opened_with, after_sector, after_size, open_sized, open_device, closed,
  copy, stored_by, store_update,
}
use ota_pulse.Installer.BlockDevice.File.{
  Call, Err, System, Disk, Did, called, get_size, get_sector_size, open_for_writing,
  set_ubi_update_volume, unmount,
}
use ota_pulse.Installer.BlockDevice.Framed.{BlockFrameWriter}
use ota_pulse.Installer.BlockDevice.Limited
use ota_pulse.Installer.BlockDevice.Limited.{LimitedWriteCloser, framed, raw, disk_of}
use ota_pulse.Installer.BlockDevice.Bounded.{Within}
use ota_pulse.Installer.BlockDevice.Bounded.Stores.{Fits, pending, copy-In, close-In}

-- Asking for a size changes nothing on the device.
pub query-content :
    (sys : System) (c : Call) (answer : List Call → Option ℕ) (d : Disk)
    → (query sys c answer d).1.content ≡ d.content
unfolding query
query-content sys c answer d = ground arith

module _ (sys : System) (size : ℕ) (small : size < 2 ^ 63) (old : List ℕ) where
  -- A device that was not opened is as it was; one that was has room for the update.
  abbrev Opens : Option LimitedWriteCloser → Disk → Type 0
  Opens none d = d.content ≡ old
  Opens (some dev) d = Fits sys size old none dev

  abbrev DidOpen : Did (Option LimitedWriteCloser) Disk → Type 0
  DidOpen r = Opens r.result r.after

  if-DidOpen :
      (b : Bool) (r r' : Did (Option LimitedWriteCloser) Disk)
      → DidOpen r
      → DidOpen r'
      → DidOpen (if b then r else r')
  if-DidOpen true r r' h h' = h
  if-DidOpen false r r' h h' = h'

  sink-Fits :
      (b : Bool) (d : Disk) (bw : BlockFrameWriter)
      → bw.buf ≡ []
      → Limited.disk_of (framed bw) ≡ d
      → Within size old size d
      → Fits sys size old none (record { w = if b then raw d else framed bw; n = size })
  sink-Fits true d bw clean same h =
      (record { kept = h.kept; fits = let f = h.fits in omega arith }, omega arith)
  sink-Fits false d bw clean same h = (
    rw (clean, same) (record { kept = h.kept; fits = let f = h.fits in omega arith }),
    omega arith,
  )

  opened_with-DidOpen :
      (sector : ℕ) (d : Disk)
      → d.content ≡ old
      → d.pos ≡ 0
      → DidOpen (opened_with sys sector size d)
  unfolding chain
  opened_with-DidOpen sector d e start =
      sink-Fits sys.is_ubi d _ refl refl
        (record { kept = λ i far. ap (λ t. get_elem? t i) e; fits = omega arith })

  open_file-DidOpen :
      (sector : ℕ) (d : Disk) → d.content ≡ old → DidOpen (open_file sys sector size d)
  unfolding open_file
  open_file-DidOpen sector d e =
      let opened = called sys open_for_writing (record d { pos = 0 }) in
      let told = called sys (set_ubi_update_volume size) opened in
      if-DidOpen (sys.fails opened.trace) _ _ e (
        if-DidOpen sys.is_ubi _ _
          (if-DidOpen (sys.fails told.trace) _ _ e (opened_with-DidOpen sector told e refl))
          (opened_with-DidOpen sector opened e refl))

  after_sector-DidOpen :
      (r : Option ℕ × Disk) → r.1.content ≡ old → DidOpen (after_sector sys size r)
  after_sector-DidOpen (none, d) e = e
  after_sector-DidOpen (some sector, d) e = open_file-DidOpen sector d e

  after_size-DidOpen : (r : Option ℕ × Disk) → r.1.content ≡ old → DidOpen (after_size sys size r)
  after_size-DidOpen (none, d) e = e
  after_size-DidOpen (some bsz, d) e = if-DidOpen (ltb bsz size) _ _ e (
      after_sector-DidOpen (query sys get_sector_size sys.sector_size d)
        (query-content sys get_sector_size sys.sector_size d ∙ e))

  open_sized-DidOpen : (d : Disk) → d.content ≡ old → DidOpen (open_sized sys size d)
  unfolding open_sized
  open_sized-DidOpen d e =
      let unmounted = called sys unmount d in
      let sized = λ (d' : Disk) (e' : d'.content ≡ old).
        after_size-DidOpen (query sys get_size sys.size d')
          (query-content sys get_size sys.size d' ∙ e') in
      if-DidOpen sys.is_mounted _ _
        (if-DidOpen (sys.fails unmounted.trace) _ _ e (sized unmounted e)) (sized d e)

  closed-kept :
      (r : Option Err × LimitedWriteCloser) (i : ℕ)
      → Within size old (pending r.1.w) (disk_of r.1.w)
      → size ≤ i
      → get_elem? (closed sys r).1.content i ≡ get_elem? old i
  unfolding Limited.close
  closed-kept (e, lw) i h far = let c = close-In sys size old lw.w h in c.kept i far

  stored_by-kept :
      (image : List (List ℕ)) (image_fails : Bool) (opened : Did (Option LimitedWriteCloser) Disk)
      (dev : Option LimitedWriteCloser) (i : ℕ)
      → Opens dev opened.after
      → size ≤ i
      → get_elem? (stored_by sys image image_fails opened dev).1.content i ≡ get_elem? old i
  stored_by-kept image image_fails opened none i h far = ap (λ t. get_elem? t i) h
  stored_by-kept image image_fails opened (some dev) i h far =
      closed-kept (copy sys image image_fails dev) i (copy-In sys size old image image_fails dev h)
        far

-- Whatever fails, and whatever the image is, `StoreUpdate` leaves every byte of the device alone that
-- stands at or past the size of the update, if that is the size of a file (below 2 ^ 63).
pub store_update-bounded :
    (sys : System) (image : List (List ℕ)) (image_fails : Bool) (size : ℕ) (d : Disk) (i : ℕ)
    → size < 2 ^ 63
    → size ≤ i
    → get_elem? (store_update sys image image_fails (pos size) d).1.content i
      ≡ get_elem? d.content i
unfolding store_update
store_update-bounded sys image image_fails size d i small far =
    let opened = open_device sys (pos size) d in
    stored_by-kept sys size small d.content image image_fails opened opened.result i
      (open_sized-DidOpen sys size small d.content d refl) far
