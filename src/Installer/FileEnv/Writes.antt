-- ===== src/Installer/FileEnv/Writes.antt =====
-- installer/file_bootenv.go: what the writes of the boot environment leave, and what they keep.
use Prim.Native.String.{◌++◌ as ◌++ₛ◌}
use ota_pulse.Prelude.{
  ℕ, zero, suc, String, Bool, true, false, Option, some, ◌∷◌, ◌≡◌, refl, if◌then◌else◌, arith, ◌=ₛ◌,
  eq_refl,
}
use ota_pulse.Installer.World.{
  Call, World, WriteResult, M, ◌>>=◌, ◌>>◌, pure, ask, System, write_data, set_file, left_by,
  is_written, modify,
}
use ota_pulse.Installer.Triple.{
  Triple, After, IsCallFree, IsFileFree, bind-Triple, then-Triple, pure-Triple, gets-Triple,
  modify-Triple, ask-Triple, if-Triple, then_if-Triple, weaken-Triple,
}
use ota_pulse.Installer.FileEnv.Files.{
  read_file, after_write, before_retry, attempts, write_file, max_retries, data_dir,
}

-- The file has this text, with the end of the line.
abbrev pub Has : String → String → World → Type 0
Has path content w = w.files path ≡ some (content ++ₛ "\n")

-- The action succeeds only if the world has a property then.
abbrev pub UnlessFailed : (World → Type 0) → Bool → World → Type 0
UnlessFailed P failed w = failed ≡ false → P w

abbrev pub Anything : World → Type 0
Anything w = Unit

-- An action that runs if there was no error so far.
pub UnlessFailed-Triple :
    {P Q : World → Type 0} {k : M Bool} (failed : Bool)
    → Triple P k (UnlessFailed Q)
    → Triple (UnlessFailed P failed) (if failed then pure true else k) (UnlessFailed Q)
UnlessFailed-Triple true h = pure-Triple true (λ w p e. ground arith)
UnlessFailed-Triple false h = weaken-Triple (λ w p. p refl) (λ a w q. q) h

module _ (sys : System) where
  module _ {P : World → Type 0} (free : IsCallFree P) where
    pub read_file-keeps :
        (path default_val : String) → Triple P (read_file sys path default_val) (After P)
    unfolding read_file
    read_file-keeps path default_val = bind-Triple (After P) (ask-Triple _ _ free) (λ failed.
        bind-Triple (After P) (gets-Triple _ (λ w p. p)) (λ text. pure-Triple _ (λ w p. p)))

    pub before_retry-keeps : (i : ℕ) → Triple P (before_retry sys i) (After P)
    unfolding before_retry
    before_retry-keeps i =
        then_if-Triple _ (then-Triple P (ask-Triple _ _ free) (pure-Triple tt (λ w p. p)))

    module _ (path : String) (kept : IsFileFree path P) where
      write_data-keeps : (content : String) → Triple P (write_data sys path content) (After P)
      unfolding write_data
      write_data-keeps content =
          bind-Triple (After P) (ask-Triple _ _ free)
            (λ r. then-Triple P (modify-Triple _ (λ w p. kept w _ p)) (pure-Triple r (λ w p. p)))

      after_write-keeps :
          {again : M Bool}
          → Triple P again (After P)
          → (r : WriteResult) → Triple P (after_write again r) (After P)
      after_write-keeps h WriteResult.written = pure-Triple false (λ w p. p)
      after_write-keeps h WriteResult.read_only = h
      after_write-keeps h (WriteResult.failed left) = pure-Triple true (λ w p. p)

      attempts-keeps :
          (n i : ℕ) (content : String) → Triple P (attempts sys n i path content) (After P)
      unfolding attempts
      attempts-keeps zero i content = pure-Triple true (λ w p. p)
      attempts-keeps (suc n) i content = then-Triple P (before_retry-keeps i) (
          bind-Triple (After P) (write_data-keeps (content ++ₛ "\n"))
            (after_write-keeps (attempts-keeps n (suc i) content)))

      pub write_file-keeps : (content : String) → Triple P (write_file sys path content) (After P)
      unfolding write_file
      write_file-keeps content = bind-Triple (After P) (ask-Triple _ _ free) (λ no_dir.
          if-Triple no_dir (pure-Triple true (λ w p. p)) (attempts-keeps max_retries 0 content))

  -- The value that a write leaves is read off its result.
  abbrev Leaves : String → String → WriteResult → World → Type 0
  Leaves path content r w = is_written r ≡ true → w.files path ≡ some content

  set_left :
      (path content : String) (files : String → Option String) (old : Option String)
      (r : WriteResult)
      → is_written r ≡ true
      → (if path =ₛ path then left_by r content old else files path) ≡ some content
  set_left path content files old WriteResult.written e = rw (eq_refl path) refl
  set_left path content files old WriteResult.read_only e = ground arith
  set_left path content files old (WriteResult.failed left) e = ground arith

  write_data-Leaves :
      (path content : String) → Triple Anything (write_data sys path content) (Leaves path content)
  unfolding write_data ◌>>=◌ ◌>>◌ ask modify pure set_file
  write_data-Leaves path content = record {
    run = λ w p e.
        set_left path content w.files (w.files path)
          (sys.write_result (Call.write_file path content ∷ w.trace)) e;
  }

  after_write-Leaves :
      (path content : String) {again : M Bool}
      → Triple Anything again (UnlessFailed (Has path content))
      → (r : WriteResult)
      → Triple
          (Leaves path (content ++ₛ "\n") r)
          (after_write again r)
          (UnlessFailed (Has path content))
  after_write-Leaves path content h WriteResult.written = pure-Triple false (λ w p e. p refl)
  after_write-Leaves path content h WriteResult.read_only = weaken-Triple (λ w p. tt) (λ a w q. q) h
  after_write-Leaves path content h (WriteResult.failed left) =
      pure-Triple true (λ w p e. ground arith)

  attempts-Leaves :
      (path content : String) (n i : ℕ)
      → Triple Anything (attempts sys n i path content) (UnlessFailed (Has path content))
  unfolding attempts
  attempts-Leaves path content zero i = pure-Triple true (λ w p e. ground arith)
  attempts-Leaves path content (suc n) i =
      then-Triple Anything (before_retry-keeps (λ w calls p. tt) i) (
        bind-Triple (Leaves path (content ++ₛ "\n")) (write_data-Leaves path (content ++ₛ "\n"))
          (after_write-Leaves path content (attempts-Leaves path content n (suc i))))

  -- A write that succeeds leaves its text in the file.
  pub write_file-Leaves :
      (path content : String)
      → Triple Anything (write_file sys path content) (UnlessFailed (Has path content))
  unfolding write_file
  write_file-Leaves path content =
      bind-Triple (After Anything) (ask-Triple (Call.make_dir data_dir) sys.fails (λ w calls p. p))
        (λ no_dir.
          if-Triple no_dir (pure-Triple true (λ w p e. ground arith))
            (attempts-Leaves path content max_retries 0))
