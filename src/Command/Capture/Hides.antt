-- ===== src/Command/Capture/Hides.antt =====
-- capture.go: two captures of a household, before and after its identifiers are other ones.
use homewizard_exporter.Prelude.{
  ℕ, String, ◌≡◌, ◌≢◌, ◌⊎◌, Bool, true, false, none, some, List, [], ◌∷◌, ◌==◌, length,
}
use homewizard_exporter.Text.{codes}
use homewizard_exporter.Homewizard.Errors.{Result, ok, err}
use homewizard_exporter.Homewizard.Timestamps.{Platform}
use homewizard_exporter.Homewizard.Client
use homewizard_exporter.Homewizard.Client.{Client, Net, Codec}
use homewizard_exporter.Command.Capture.{Endpoint, capture_endpoints}
use homewizard_exporter.Command.Capture.Scrub.{Value}
use homewizard_exporter.Command.Capture.Laws.{Same}
use homewizard_exporter.Command.Capture.Telegram.{Match}
use homewizard_exporter.Command.Capture.Telegram.Identifiers.{Begins}
use homewizard_exporter.Command.Capture.Files.{Json, Captured, panicked}
use homewizard_exporter.Homewizard.Errors.{Result, ok, err}
use homewizard_exporter.Homewizard.Timestamps.{Platform}
use homewizard_exporter.Homewizard.Client
use homewizard_exporter.Homewizard.Client.{Client, Net, Codec}
use homewizard_exporter.Command.Capture.{Endpoint, capture_endpoints}
use homewizard_exporter.Text.{codes}

-- No identifier begins here.
abbrev IsPlain : Bool → List ℕ → Type 0
IsPlain start s = start ≡ true → (m : Match) → Begins s m → ⊥

-- Two telegrams are the same but for the values of the identifiers that begin their lines, which
-- have the same lengths.
pub data SameTelegram : Bool → List ℕ → List ℕ → Type 0 where
  same_end : (start : Bool) → SameTelegram start [] []
  same_byte :
      (start : Bool) (c : ℕ) (s t : List ℕ)
      → IsPlain start (c ∷ s)
      → IsPlain start (c ∷ t)
      → SameTelegram (c == 10) s t
      → SameTelegram start (c ∷ s) (c ∷ t)
  same_identifier :
      (c d : ℕ) (s t : List ℕ) (m n : Match)
      → Begins (c ∷ s) m
      → Begins (d ∷ t) n
      → m.obis ≡ n.obis
      → length m.value ≡ length n.value
      → SameTelegram false m.rest n.rest
      → SameTelegram true (c ∷ s) (d ∷ t)

module _ {F : Type 0} (K : Json F) where
  -- Two bodies are the same but for their secrets.
  abbrev pub SameBody : List ℕ → List ℕ → Type 0
  SameBody b b' =
      ((v : Value F) × (w : Value F) × (K.decode b ≡ some v) × (K.decode b' ≡ some w) × Same v w)
      ⊎ ((K.decode b ≡ none) × (K.decode b' ≡ none) × SameTelegram true b b')

  -- Every document can be written.
  abbrev pub IsWritable : Type 0
  IsWritable = (u : Value F) → (out : List ℕ) × (K.encode u ≡ some out)

module _ (P : Platform) (J : Codec P.F) (K : Json P.F) (lower : String → String)
    (writable : String → Bool) where
  -- Two answers are the same but for their secrets.
  abbrev pub SameAnswer : Result String → Result String → Type 0
  SameAnswer (err e) (err e') = Unit
  SameAnswer (ok b) (ok b') = SameBody K (codes b) (codes b')
  SameAnswer a b = ⊥

  -- The same files, and no panic.
  abbrev SameCapture : Captured → Captured → Type 0
  SameCapture a b = (a ≡ b) × (a ≢ panicked)
