-- ===== src/Command/Capture/Telegram/Laws.antt =====
-- capture.go: a telegram before and after it is scrubbed.
use homewizard_exporter.Prelude.{
  ℕ, zero, suc, ◌+◌, ◌-◌, ◌≤◌, ◌≡◌, refl, sym, ap, ◌∙◌, inl, inr, Bool, true, false, none, some,
  List, [], ◌∷◌, ◌++◌, append_assoc, arith, ◌==◌, Option-cases, length, replicate, length-append,
}
use mathlib.Core.Path.{subst}
use mathlib.Core.List.{tail-eq_of_cons-eq}
use homewizard_exporter.Command.Capture.Telegram.{
  Match, identifier, spelt, blanked, emit, match_length, scan, scrub_telegram,
}
use homewizard_exporter.Command.Capture.Telegram.Found.{identifier_iff}
use homewizard_exporter.Command.Capture.Telegram.{
  Match, identifier, spelt, blanked, emit, match_length, scan, scrub_telegram,
}
use homewizard_exporter.Command.Capture.Telegram.Identifiers.{IsObis, Begins}
use homewizard_exporter.Command.Capture.Telegram.Found.{identifier_iff}

-- A text and what it is scrubbed to; the flag says that it stands at the start of a line. There,
-- a reference to an identifier keeps its place and gets a value of as many zeros; every other byte,
-- wherever no such reference begins a line, is kept.
pub data IsScrubbed : Bool → List ℕ → List ℕ → Type 0 where
  at_end : (start : Bool) → IsScrubbed start [] []
  kept :
      (start : Bool) (c : ℕ) (s out : List ℕ)
      → (start ≡ true → (m : Match) → Begins (c ∷ s) m → ⊥)
      → IsScrubbed (c == 10) s out
      → IsScrubbed start (c ∷ s) (c ∷ out)
  hidden :
      (m : Match) (s out : List ℕ)
      → Begins s m
      → IsScrubbed false m.rest out
      → IsScrubbed true s (blanked m out)

none-ne-some {ℓ} : {A : Type ℓ} {a : A} → none ≡ some a → ⊥
none-ne-some h = cc

scan_past :
    (pre : List ℕ) (x : ℕ) (rest : List ℕ) (start : Bool)
    → scan start (suc (length pre)) (pre ++ (x ∷ rest)) ≡ scan (x == 10) 0 rest
unfolding scan
scan_past [] x rest start = refl
scan_past (c ∷ pre) x rest start = scan_past pre x rest (c == 10)

obis-cons : (obis : List ℕ) → IsObis obis → (d : ℕ) × (o : List ℕ) × (obis ≡ d ∷ o)
obis-cons [] ([], b, code, (ne, _), nb, ic, e) = absurd (ne refl)
obis-cons [] (x ∷ a, b, code, na, nb, ic, e) = cc
obis-cons (d ∷ o) h = (d, o, refl)

-- Behind a match the scan goes on with the text behind it, inside a line.
scan_match :
    (c : ℕ) (s : List ℕ) (m : Match)
    → Begins (c ∷ s) m
    → scan (c == 10) (match_length m - 1) s ≡ scan false 0 m.rest
scan_match c s m (io, iv, e) =
    let (d, o, f) = obis-cons m.obis io in
    let pre = o ++ (40 ∷ m.value) in
    let tail : s ≡ pre ++ (41 ∷ m.rest) =
      tail-eq_of_cons-eq (e ∙ ap (λ x. spelt x m.value m.rest) f)
      ∙ sym (append_assoc o (40 ∷ m.value) (41 ∷ m.rest)) in
    let long : match_length m - 1 ≡ suc (length pre) =
      omega (arith, ap length f, length-append o (40 ∷ m.value)) in
    rw (tail, long) (scan_past pre 41 m.rest (c == 10))

pub scan-none :
    (c : ℕ) (s : List ℕ) → identifier (c ∷ s) ≡ none → scan true 0 (c ∷ s) ≡ c ∷ scan (c == 10) 0 s
unfolding scan
scan-none c s e = ap (emit c (λ n. scan (c == 10) n s)) e

pub scan-some :
    (c : ℕ) (s : List ℕ) (m : Match)
    → identifier (c ∷ s) ≡ some m
    → scan true 0 (c ∷ s) ≡ blanked m (scan false 0 m.rest)
unfolding scan
scan-some c s m e =
    ap (emit c (λ n. scan (c == 10) n s)) e
    ∙ ap (blanked m) (scan_match c s m ((identifier_iff (c ∷ s) m).0 e))

length-spelt :
    (obis v rest : List ℕ) → length (spelt obis v rest) ≡ length obis + length v + length rest + 2
length-spelt obis v rest =
    omega (arith, length-append obis (40 ∷ (v ++ (41 ∷ rest))), length-append v (41 ∷ rest))

length-replicate : (n c : ℕ) → length (replicate n c) ≡ n
length-replicate zero c = refl
length-replicate (suc n) c = ap suc (length-replicate n c)

length-Begins :
    (s : List ℕ) (m : Match)
    → Begins s m
    → length s ≡ length m.obis + length m.value + length m.rest + 2
length-Begins s m (_, _, e) = ap length e ∙ length-spelt m.obis m.value m.rest

length-IsScrubbed : {start : Bool} {s out : List ℕ} → IsScrubbed start s out → length out ≡ length s
length-IsScrubbed (at_end start) = refl
length-IsScrubbed (kept start c s out plain h) = ap suc (length-IsScrubbed h)
length-IsScrubbed (hidden m s out b h) = omega (
  arith,
  length-spelt m.obis (replicate (length m.value) b'0') out,
  length-replicate (length m.value) b'0',
  length-IsScrubbed h,
  length-Begins s m b,
)

scan-IsScrubbed :
    (n : ℕ) (start : Bool) (s : List ℕ) → length s ≤ n → IsScrubbed start s (scan start 0 s)
unfolding scan
scan-IsScrubbed n start [] h = at_end start
scan-IsScrubbed zero start (c ∷ s) h = absurd (omega (arith, h))
scan-IsScrubbed (suc n) false (c ∷ s) h =
    kept false c s (scan (c == 10) 0 s) (λ e. cc) (scan-IsScrubbed n (c == 10) s (omega (arith, h)))
scan-IsScrubbed (suc n) true (c ∷ s) h = elim (Option-cases (identifier (c ∷ s))) [
  | inl e ↦ rw e (
      kept true c s (scan (c == 10) 0 s)
        (λ _ m b. none-ne-some (sym e ∙ (identifier_iff (c ∷ s) m).1 b))
        (scan-IsScrubbed n (c == 10) s (omega (arith, h))))
  | inr (m, e) ↦
      let b = (identifier_iff (c ∷ s) m).0 e in
      subst (IsScrubbed true (c ∷ s)) (sym (scan-some c s m e)) (
        hidden m (c ∷ s) (scan false 0 m.rest) b
          (scan-IsScrubbed n false m.rest (omega (arith, h, length-Begins (c ∷ s) m b))))
]

-- Scrubbing a telegram keeps its length and every byte but the values of the identifiers that
-- begin its lines, each of which becomes as many zeros.
pub scrub_telegram-IsScrubbed :
    (t : List ℕ) → IsScrubbed true t (scrub_telegram t) × (length (scrub_telegram t) ≡ length t)
unfolding scrub_telegram
scrub_telegram-IsScrubbed t =
    let h = scan-IsScrubbed (length t) true t (omega arith) in (h, length-IsScrubbed h)
