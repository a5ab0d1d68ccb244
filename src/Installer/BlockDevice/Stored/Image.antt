-- ===== src/Installer/BlockDevice/Stored/Image.antt =====
-- installer/block_device.go: the image that a `StoreUpdate` without an error leaves on the device.
use ota_pulse.Prelude.{
  ℕ, ◌^◌, ◌≤◌, ◌<◌, ◌≡◌, refl, ◌∙◌, Bool, true, false, Option, none, some, List, [], ◌∷◌, ◌++◌, ltb,
  arith, if◌then◌else◌, length,
}
use ota_pulse.Prelude.Int.{pos}
use ota_pulse.Prelude.Segments.{drop, join}
use ota_pulse.Installer.BlockDevice.{
  chain, query, open_file, opened_with, after_sector, after_size, open_sized, open_device, copy,
  closed, stored_by, store_update,
}
use ota_pulse.Installer.BlockDevice.File.{
  Call, Err, System, Disk, Did, called, get_size, get_sector_size, open_for_query, open_for_writing,
  set_ubi_update_volume, unmount,
}
use ota_pulse.Installer.BlockDevice.Succeeds.{Good}
use ota_pulse.Installer.BlockDevice.Framed.{BlockFrameWriter}
use ota_pulse.Installer.BlockDevice.Limited
use ota_pulse.Installer.BlockDevice.Limited.{
  LimitedWriteCloser, Sink, framed, raw, sink_close, disk_of,
}
use ota_pulse.Installer.BlockDevice.Bounded.Updates.{query-content}
use ota_pulse.Installer.BlockDevice.Stored.OnDisk.{At}
use ota_pulse.Installer.BlockDevice.Stored.Updates.{Took, Ready, copy-Took, sink_close-At}

-- The system says no more than the device has.
abbrev pub TellsSize : System → Disk → Type 0
TellsSize sys d = (calls : List Call) (n : ℕ) → sys.size calls ≡ some n → n ≤ length d.content

module _ (sys : System) (size : ℕ) (small : size < 2 ^ 64) (old : List ℕ) where
  -- A device that was not opened comes with an error, and one that was is ready for the update.
  abbrev Opens : Option LimitedWriteCloser → Option Err → Type 0
  Opens none e = Good e ⊥
  Opens (some dev) e = Ready sys old [] dev × (dev.n ≡ size)

  abbrev DidOpen : Did (Option LimitedWriteCloser) Disk → Type 0
  DidOpen r = Opens r.result r.error

  if-DidOpen :
      (b : Bool) (r r' : Did (Option LimitedWriteCloser) Disk)
      → DidOpen r
      → (b ≡ false → DidOpen r')
      → DidOpen (if b then r else r')
  if-DidOpen true r r' h h' = h
  if-DidOpen false r r' h h' = h' refl

  either-DidOpen :
      (b : Bool) (r r' : Did (Option LimitedWriteCloser) Disk)
      → DidOpen r
      → DidOpen r'
      → DidOpen (if b then r else r')
  either-DidOpen true r r' h h' = h
  either-DidOpen false r r' h h' = h'

  sink-Ready :
      (b : Bool) (d : Disk) (bw : BlockFrameWriter)
      → bw.buf ≡ []
      → Limited.disk_of (framed bw) ≡ d
      → size ≤ length old
      → At old [] d
      → Ready sys old [] (record { w = if b then raw d else framed bw; n = size })
  sink-Ready true d bw clean same fits h = record { took = h; room = omega arith; small = small }
  sink-Ready false d bw clean same fits h = record {
    took = record { before = []; split = rw clean; on_device = rw same h };
    room = omega arith;
    small = small;
  }

  opened_with-DidOpen :
      (sector : ℕ) (d : Disk)
      → d.content ≡ old
      → d.pos ≡ 0
      → size ≤ length old
      → DidOpen (opened_with sys sector size d)
  unfolding chain
  opened_with-DidOpen sector d e start fits =
      (sink-Ready sys.is_ubi d _ refl refl fits (record { content = e; place = start }), refl)

  open_file-DidOpen :
      (sector : ℕ) (d : Disk)
      → d.content ≡ old
      → size ≤ length old
      → DidOpen (open_file sys sector size d)
  unfolding open_file
  open_file-DidOpen sector d e fits =
      let opened = called sys open_for_writing (record d { pos = 0 }) in
      let told = called sys (set_ubi_update_volume size) opened in
      either-DidOpen (sys.fails opened.trace) _ _ tt (
        either-DidOpen sys.is_ubi _ _
          (either-DidOpen (sys.fails told.trace) _ _ tt
            (opened_with-DidOpen sector told e refl fits))
          (opened_with-DidOpen sector opened e refl fits))

  after_sector-DidOpen :
      (r : Option ℕ × Disk)
      → r.1.content ≡ old
      → size ≤ length old
      → DidOpen (after_sector sys size r)
  after_sector-DidOpen (none, d) e fits = tt
  after_sector-DidOpen (some sector, d) e fits = open_file-DidOpen sector d e fits

  after_size-DidOpen :
      (r : Option ℕ × Disk)
      → r.1.content ≡ old
      → ((n : ℕ) → r.0 ≡ some n → n ≤ length old)
      → DidOpen (after_size sys size r)
  after_size-DidOpen (none, d) e told = tt
  after_size-DidOpen (some bsz, d) e told = if-DidOpen (ltb bsz size) _ _ tt (λ room.
      after_sector-DidOpen (query sys get_sector_size sys.sector_size d)
        (query-content sys get_sector_size sys.sector_size d ∙ e)
        (let all = told bsz refl in ground arith))

  -- The answer of the system is handed on.
  query-le :
      (d : Disk)
      → ((calls : List Call) (n : ℕ) → sys.size calls ≡ some n → n ≤ length old)
      → (n : ℕ) → (query sys get_size sys.size d).0 ≡ some n
      → n ≤ length old
  unfolding query
  query-le d told n h = ground (arith, told (get_size ∷ open_for_query ∷ d.trace) n)

  open_sized-DidOpen :
      (d : Disk)
      → d.content ≡ old
      → ((calls : List Call) (n : ℕ) → sys.size calls ≡ some n → n ≤ length old)
      → DidOpen (open_sized sys size d)
  unfolding open_sized
  open_sized-DidOpen d e told =
      let unmounted = called sys unmount d in
      let sized = λ (d' : Disk) (e' : d'.content ≡ old).
        after_size-DidOpen (query sys get_size sys.size d')
          (query-content sys get_size sys.size d' ∙ e') (query-le d' told) in
      either-DidOpen sys.is_mounted _ _
        (either-DidOpen (sys.fails unmounted.trace) _ _ tt (sized unmounted e)) (sized d e)

  abbrev Holds : List (List ℕ) → Disk → Type 0
  Holds image d =
      (d.content ≡ join image ++ drop (length (join image)) old) × (length (join image) ≤ size)

  closed-Holds :
      (image : List (List ℕ)) (n : ℕ) (r : Option Err × LimitedWriteCloser)
      → n ≡ size
      → size ≤ length old
      → Good r.0 (Took sys old (join image) r.1.w × (length (join image) ≤ n))
      → (closed sys r).0 ≡ none
      → Holds image (closed sys r).1
  unfolding Limited.close
  closed-Holds image n (some e, lw) same fits h ok = absurd (ground arith)
  closed-Holds image n (none, lw) same fits h ok =
      finish (sink_close sys lw.w)
        (sink_close-At sys old (join image) lw.w (let le = h.1 in omega arith) h.0) ok
    where
      finish :
          (r : Option Err × Sink)
          → Good r.0 (At old (join image) (disk_of r.1))
          → r.0 ≡ none
          → Holds image (disk_of r.1)
      finish (none, w) good e = (good.content, let le = h.1 in omega arith)
      finish (some x, w) good e = absurd (ground arith)

  stored_by-Holds :
      (image : List (List ℕ)) (image_fails : Bool) (opened : Did (Option LimitedWriteCloser) Disk)
      (dev : Option LimitedWriteCloser) (e : Option Err)
      → opened.error ≡ e
      → Opens dev e
      → (stored_by sys image image_fails opened dev).0 ≡ none
      → Holds image (stored_by sys image image_fails opened dev).1
  stored_by-Holds image image_fails opened none none same h ok = absurd h
  stored_by-Holds image image_fails opened none (some e) same h ok = absurd (ground arith)
  stored_by-Holds image image_fails opened (some dev) e same (ready, n) ok =
      closed-Holds image dev.n (copy sys image image_fails dev) n
        (let room = ready.room in omega arith) (copy-Took sys old image image_fails [] dev ready) ok

-- Whatever else fails, if `StoreUpdate` returns no error, then the image is no longer than the size of
-- the update and stands at the start of the device, whose other bytes are as before; if the system
-- says no more than the device has when it is asked for its size.
pub store_update-stores :
    (sys : System) (image : List (List ℕ)) (image_fails : Bool) (size : ℕ) (d : Disk)
    → size < 2 ^ 64
    → TellsSize sys d
    → (store_update sys image image_fails (pos size) d).0 ≡ none
    → ((store_update sys image image_fails (pos size) d).1.content
        ≡ join image ++ drop (length (join image)) d.content)
      × (length (join image) ≤ size)
unfolding store_update
store_update-stores sys image image_fails size d small told ok =
    let opened = open_device sys (pos size) d in
    stored_by-Holds sys size small d.content image image_fails opened opened.result opened.error
      refl (open_sized-DidOpen sys size small d.content d refl told) ok
