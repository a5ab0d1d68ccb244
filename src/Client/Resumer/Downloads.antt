-- ===== src/Client/Resumer/Downloads.antt =====
-- client/update_resumer.go: the artifact that a whole download delivers.
use mathlib.Core.Path.{subst}
use ota_pulse.Prelude.{
  ℕ, ◌+◌, ◌*◌, ◌^◌, ◌≤◌, ◌<◌, ◌≡◌, refl, sym as flip, ap, ◌∙◌, ◌⊎◌, inl, inr, some, List, [], ◌∷◌,
  ◌++◌, arith, length,
}
use ota_pulse.Prelude.Int.{pos}
use ota_pulse.Prelude.Segments.{
  drop, take_all, take-append-drop, drop-drop, length-append, length-drop,
}
use ota_pulse.Agent.Backoff.{smallest_unit}
use ota_pulse.Client.Resumer.{eof, DidRead, Network, UpdateResumer, new_update_resumer, read}
use ota_pulse.Client.Resumer.Delivers.{Carries}
use ota_pulse.Client.Resumer.Reads.{Delivers, read-Delivers}

-- Reads of any sizes, one after another, until one reports the end, with all of their bytes.
pub data Downloads {S : Type 0} (net : Network S) (fuel : ℕ)
    : UpdateResumer S → List ℕ → Type 0 where
  last :
      (size : ℕ) {r : UpdateResumer S} (out : DidRead (UpdateResumer S)) (bytes : List ℕ)
      → read net fuel size r ≡ some out
      → out.error ≡ some eof
      → out.bytes ≡ bytes
      → Downloads net fuel r bytes
  more :
      (size : ℕ) {r : UpdateResumer S} (out : DidRead (UpdateResumer S)) (bytes all : List ℕ)
      → read net fuel size r ≡ some out
      → Downloads net fuel out.after bytes
      → out.bytes ++ bytes ≡ all
      → Downloads net fuel r all

module _ {S : Type 0} (net : Network S) (content : List ℕ) (Stands : ℕ → S → Type 0)
    (carries : Carries net content (pos (length content)) Stands) (max_wait k fuel : ℕ)
    (room : max_wait ≤ 2 ^ 62) (long : max_wait ≤ smallest_unit * 2 ^ k)
    (enough : 3 * (k + 1) < fuel) where
  -- A reader of the artifact.
  record Reads (r : UpdateResumer S) : Type 0 where
    same_length : r.content_length ≡ pos (length content)
    same_wait : r.max_wait ≡ max_wait
    stands : Stands r.offset r.stream

  delivered :
      (size : ℕ) (r : UpdateResumer S) (out : DidRead (UpdateResumer S))
      → Reads r
      → read net fuel size r ≡ some out
      → Delivers content (pos (length content)) max_wait Stands r.offset size out
  delivered size r out reader e =
      let (out', e', d) =
        read-Delivers net content Stands r k fuel size
          (subst (λ t. Carries net content t Stands) (flip reader.same_length) carries)
          (subst (λ (w : ℕ). w ≤ 2 ^ 62) (flip reader.same_wait) room)
          (subst (λ (w : ℕ). w ≤ smallest_unit * 2 ^ k) (flip reader.same_wait) long) enough
          reader.stands in
      let same : out' ≡ out = cc in
      subst (λ t. Delivers content t max_wait Stands r.offset size out) reader.same_length
        (subst (λ (w : ℕ). Delivers content r.content_length w Stands r.offset size out)
          reader.same_wait
          (subst (λ t. Delivers content r.content_length r.max_wait Stands r.offset size t) same d))

  after-Reads :
      {size p : ℕ} {out : DidRead (UpdateResumer S)}
      → Delivers content (pos (length content)) max_wait Stands p size out
      → Reads out.after
  after-Reads {out = out} d = record {
    same_length = d.same_length;
    same_wait = d.same_wait;
    stands = subst (λ (q : ℕ). Stands q out.after.stream) (flip d.behind) d.stands;
  }

  -- All that is left of the artifact, or nothing from its start on.
  abbrev Rest : ℕ → List ℕ → Type 0
  Rest p bytes = (bytes ≡ drop p content) ⊎ (p + length bytes ≡ 0)

  last-Rest :
      (p size : ℕ) (out : DidRead (UpdateResumer S))
      → Delivers content (pos (length content)) max_wait Stands p size out
      → out.error ≡ some eof
      → Rest p out.bytes
  last-Rest p size out d e = elim (d.whole e) [
    | inl start ↦ inr (let b = d.behind in omega arith)
    | inr complete ↦
        let b = d.behind in
        let n = length-drop p content in
        inl (d.next ∙ take_all (length out.bytes) (drop p content) (ground arith))
  ]

  more-Rest :
      (p size : ℕ) (out : DidRead (UpdateResumer S)) (bytes : List ℕ)
      → Delivers content (pos (length content)) max_wait Stands p size out
      → Rest out.after.offset bytes
      → Rest p (out.bytes ++ bytes)
  more-Rest p size out bytes d (inl e) =
      let n = length out.bytes in
      inl (
        ap (λ t. out.bytes ++ t) (e ∙ ap (λ (q : ℕ). drop q content) d.behind)
        ∙ ap (λ t. out.bytes ++ t) (flip (drop-drop n p content))
        ∙ ap (λ t. t ++ drop n (drop p content)) d.next
        ∙ take-append-drop n (drop p content))
  more-Rest p size out bytes d (inr e) =
      let b = d.behind in inr (omega (arith, length-append out.bytes bytes))

  Downloads-Rest :
      {r : UpdateResumer S} {bytes : List ℕ}
      → Downloads net fuel r bytes
      → Reads r
      → Rest r.offset bytes
  Downloads-Rest {r = r} (last size out bytes e end same) reader =
      subst (λ t. Rest r.offset t) same
        (last-Rest r.offset size out (delivered size r out reader e) end)
  Downloads-Rest {r = r} (more size out bytes all e later same) reader =
      let d = delivered size r out reader e in
      subst (λ t. Rest r.offset t) same
        (more-Rest r.offset size out bytes d (Downloads-Rest later (after-Reads d)))

-- Whatever connections break, a download of an artifact, by reads of any sizes until one reports the
-- end, has delivered the whole artifact, or nothing at all; if the connections carry the artifact, its
-- length was announced, and the longest interval is at most the smallest unit times 2 ^ k, for which
-- the fuel suffices.
pub download_whole :
    {S : Type 0} (net : Network S) (content : List ℕ) (Stands : ℕ → S → Type 0) (stream : S)
    (max_wait k fuel : ℕ) {bytes : List ℕ}
    → Carries net content (pos (length content)) Stands
    → max_wait ≤ 2 ^ 62
    → max_wait ≤ smallest_unit * 2 ^ k
    → 3 * (k + 1) < fuel
    → Stands 0 stream
    → Downloads net fuel (new_update_resumer stream (pos (length content)) max_wait) bytes
    → (bytes ≡ content) ⊎ (bytes ≡ [])
download_whole net content Stands stream max_wait k fuel {bytes} carries room long enough stands d =
    elim (Downloads-Rest net content Stands carries max_wait k fuel room long enough d
      (record { same_length = refl; same_wait = refl; stands = stands })) [
        | inl all ↦ inl all
        | inr none_at_all ↦ inr (empty bytes (omega arith))
      ]
  where
    empty : (xs : List ℕ) → length xs ≡ 0 → xs ≡ []
    empty [] h = refl
    empty (x ∷ xs) h = absurd (omega arith)
