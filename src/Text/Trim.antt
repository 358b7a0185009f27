-- ===== src/Text/Trim.antt =====
-- `strings.TrimSpace`.
use Prim.Native.Char.{code}
use homewizard_exporter.Prelude.{String, ◌≡◌, refl, inl, inr, false, ◌&&◌, Bool-cases}
use homewizard_exporter.Text.{is_space, is_blank, trim_left, trim_right, trim_space}

-- The first character, if there is one, is no space.
abbrev StartsSolid : String → Type 0
StartsSolid String.[] = Unit
StartsSolid (String.◌∷◌ c s) = is_space (code c) ≡ false

trim_left-StartsSolid : (s : String) → StartsSolid (trim_left s)
unfolding trim_left
trim_left-StartsSolid String.[] = tt
trim_left-StartsSolid (String.◌∷◌ c s) = elim (Bool-cases (is_space (code c))) [
  | inl e ↦ rw e (trim_left-StartsSolid s)
  | inr e ↦ rw e e
]

trim_left_of_StartsSolid : (s : String) → StartsSolid s → trim_left s ≡ s
unfolding trim_left
trim_left_of_StartsSolid String.[] h = refl
trim_left_of_StartsSolid (String.◌∷◌ c s) h = rw h

trim_right-StartsSolid : (s : String) → StartsSolid s → StartsSolid (trim_right s)
unfolding trim_right
trim_right-StartsSolid String.[] h = tt
trim_right-StartsSolid (String.◌∷◌ c s) h = rw h h

trim_right_idem : (s : String) → trim_right (trim_right s) ≡ trim_right s
unfolding trim_right
trim_right_idem String.[] = refl
trim_right_idem (String.◌∷◌ c s) =
    elim (Bool-cases (is_space (code c) && is_blank (trim_right s))) [
      | inl e ↦ rw e
      | inr e ↦ rw e (rw (trim_right_idem s, e))
    ]

pub trim_space_idem : (s : String) → trim_space (trim_space s) ≡ trim_space s
unfolding trim_space
trim_space_idem s =
    rw (trim_left_of_StartsSolid _ (trim_right-StartsSolid _ (trim_left-StartsSolid s)))
      (trim_right_idem (trim_left s))
