-- ===== src/Installer/UBootEnv/Lines.antt =====
-- installer/bootenv.go: the text that is written is read back.
use Prim.Native.Char.{Char, code}
use Prim.Native.String.{len, ◌++◌ as ◌++ₛ◌}
use text.Mathlib.TextLemmas.{cons-append, nil-append, append_assoc}
use ota_pulse.Prelude.{
  Bool-cases, inl, inr, ◌<◌, String, Bool, true, false, some, List, [], ◌∷◌, ◌==◌, leb, ◌≡◌, refl,
  ap, ◌∙◌, insert, map, All, arith,
}
use ota_pulse.Installer.Text.{is_empty, split_where}
use ota_pulse.Installer.BootEnv.{BootVars}
use ota_pulse.Installer.UBootEnv.{
  parse_lines, render, standard_separator, max_scan_token_size, drop_cr, scanned, scan_lines,
}

abbrev is_equals : Char → Bool
is_equals c = code c == b'='

abbrev is_line_end : Char → Bool
is_line_end c = code c == 10

abbrev is_cr : Char → Bool
is_cr c = code c == 13

-- A text without the characters that pass a test.
pub data Avoids (p : Char → Bool) : String → Type 0 where
  end : Avoids p ""
  char : {c : Char} {s : String} → p c ≡ false → Avoids p s → Avoids p (String.◌∷◌ c s)

module _ (p : Char → Bool) where
  Avoids-append : {s t : String} → Avoids p s → Avoids p t → Avoids p (s ++ₛ t)
  Avoids-append {t = t} end h = rw (nil-append t) h
  Avoids-append {t = t} (char {c = c} {s = s} e k) h =
      rw (cons-append c s t) (char e (Avoids-append k h))

  split-Avoids : {s : String} → Avoids p s → split_where p s ≡ s ∷ []
  unfolding split_where
  split-Avoids end = refl
  split-Avoids (char e h) = rw (e, split-Avoids h) refl

  -- What stands before a character at which a text is split.
  split-append :
      {s : String} (c : Char) (t : String)
      → Avoids p s
      → p c ≡ true
      → split_where p (s ++ₛ String.◌∷◌ c t) ≡ s ∷ split_where p t
  unfolding split_where
  split-append c t end h = ap (split_where p) (nil-append (String.◌∷◌ c t)) ∙ rw h refl
  split-append c t (char {c = d} {s = s} e k) h =
      rw (cons-append d s (String.◌∷◌ c t), e, split-append c t k h) refl

  split_where-cons : (s : String) → (w : String) × (ws : List String) × (split_where p s ≡ w ∷ ws)
  unfolding split_where
  split_where-cons String.[] = ("", [], refl)
  split_where-cons (String.◌∷◌ c s) =
      let (w, ws, e) = split_where-cons s in
      elim (Bool-cases (p c)) [
        | inl here ↦ ("", split_where p s, rw here refl)
        | inr on ↦ (String.◌∷◌ c w, ws, rw (on, e) refl)
      ]

drop_cr-Avoids : {s : String} → Avoids is_cr s → drop_cr s ≡ s
unfolding drop_cr
drop_cr-Avoids end = refl
drop_cr-Avoids (char {c = c} {s = s} e h) = rw (e, drop_cr-Avoids h) (ground arith)

abbrev line : String × String → String
line (key, value) = key ++ₛ ("=" ++ₛ value)

is_empty-line : (v : String × String) → is_empty (line v) ≡ false
is_empty-line (String.[], value) = rw (nil-append ("=" ++ₛ value), cons-append "=" "" value) refl
is_empty-line (String.◌∷◌ c s, value) = rw (cons-append c s ("=" ++ₛ value)) refl

-- A name or a value: without "=" and the characters at the end of a line.
pub record IsWord (s : String) : Type 0 where
  pub no_equals : Avoids is_equals s
  pub no_line_end : Avoids is_line_end s
  pub no_cr : Avoids is_cr s

-- A variable that is written as one line, which is not too long to be read.
pub record IsLine (v : String × String) : Type 0 where
  pub key_word : IsWord v.0
  pub value_word : IsWord v.1
  pub fits : len (line v) < max_scan_token_size

-- The variables as they are set one after another.
unfoldable pub insert_all : BootVars → BootVars → BootVars
insert_all vars [] = vars
insert_all vars ((key, value) ∷ rest) = insert_all (insert key value vars) rest

-- The text of some lines.
unfoldable pub text_of : List String → String
text_of [] = ""
text_of (l ∷ ls) = l ++ₛ text_of ls

scanned-cons :
    (w : String) {ls : List String} (v : String) (vs : List String)
    → ls ≡ v ∷ vs
    → len w < max_scan_token_size
    → scanned (w ∷ ls) ≡ drop_cr w ∷ scanned ls
unfolding scanned
scanned-cons w v vs e fits =
    let short : leb max_scan_token_size (len w) ≡ false = ground arith in rw e (rw short refl)

scan_lines-append :
    (w t : String)
    → Avoids is_line_end w
    → Avoids is_cr w
    → len w < max_scan_token_size
    → scan_lines ((w ++ₛ "\n") ++ₛ t) ≡ w ∷ scan_lines t
unfolding scan_lines
scan_lines-append w t no_end no_cr fits =
    let (v, vs, more) = split_where-cons is_line_end t in
    rw (append_assoc w "\n" t, cons-append "\n" "" t, nil-append t)
      (ap scanned (split-append is_line_end "\n" t no_end refl)
        ∙ scanned-cons w v vs more fits
        ∙ ap (λ x. x ∷ scanned (split_where is_line_end t)) (drop_cr-Avoids no_cr))

scan_lines-nil : scan_lines "" ≡ []
unfolding scan_lines scanned split_where
scan_lines-nil = refl

Avoids-line :
    (p : Char → Bool) {key value : String}
    → p "=" ≡ false
    → Avoids p key
    → Avoids p value
    → Avoids p (line (key, value))
Avoids-line p {key} {value} e k v =
    Avoids-append p k (rw (cons-append "=" "" value, nil-append value) (char e v))

split-line :
    {key value : String}
    → Avoids is_equals key
    → Avoids is_equals value
    → split_where is_equals (line (key, value)) ≡ key ∷ value ∷ []
split-line {key} {value} k v =
    rw (cons-append "=" "" value, nil-append value)
      (split-append is_equals "=" value k refl ∙ ap (λ ws. key ∷ ws) (split-Avoids is_equals v))

-- The text of the lines that `WriteEnv` writes with "=" is read as the variables, if no name or value
-- has a "=", a line end or a carriage return, and no line is as long as the scanner's limit.
pub parse_lines-render :
    (vars written : BootVars)
    → All IsLine written
    → parse_lines vars (scan_lines (text_of (map (render standard_separator) written)))
      ≡ some (insert_all vars written)
unfolding parse_lines render insert_all text_of
parse_lines-render vars [] h = rw scan_lines-nil refl
parse_lines-render vars ((key, value) ∷ rest) h =
    let k = h.0.key_word in
    let v = h.0.value_word in
    let text = text_of (map (render standard_separator) rest) in
    let scan =
      scan_lines-append (line (key, value)) text
        (Avoids-line is_line_end refl k.no_line_end v.no_line_end)
        (Avoids-line is_cr refl k.no_cr v.no_cr) h.0.fits in
    rw scan (
      rw (is_empty-line (key, value), split-line k.no_equals v.no_equals)
        (parse_lines-render (insert key value vars) rest h.1))
