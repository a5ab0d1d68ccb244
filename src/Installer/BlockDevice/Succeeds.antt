-- ===== src/Installer/BlockDevice/Succeeds.antt =====
-- Results of installer/block_device.go that come with an error.
use ota_pulse.Prelude.{Bool, true, false, Option, none, some, if◌then◌else◌}
use ota_pulse.Installer.BlockDevice.File.{Err, failing}

-- What holds if there is no error; and the end of the device is not met.
abbrev pub Good : Option Err → Type 0 → Type 0
Good none P = P
Good (some Err.eof) P = ⊥
Good (some e) P = Unit

pub Good-error : (P Q : Type 0) (e : Err) → Good (some e) P → Good (some e) Q
Good-error P Q Err.eof h = h
Good-error P Q Err.unexpected_eof h = tt
Good-error P Q Err.no_space h = tt
Good-error P Q Err.short_write h = tt
Good-error P Q Err.other h = tt

pub Good-failing : (b : Bool) {P : Type 0} → P → Good (failing b) P
Good-failing true h = tt
Good-failing false h = h

pub Good-full : (b : Bool) {P : Type 0} → P → Good (if b then none else some Err.no_space) P
Good-full true h = h
Good-full false h = tt
