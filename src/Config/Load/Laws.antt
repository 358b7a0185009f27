-- ===== src/Config/Load/Laws.antt =====
-- config.go: the results of `Load`.
use homewizard_exporter.Prelude.{
  String, ◌≡◌, refl, inl, inr, Option, none, some, List, [], ◌∷◌, str_eq, Bool-cases,
}
use homewizard_exporter.Config.{Config, default}
use homewizard_exporter.Config.Env.{apply_env}
use homewizard_exporter.Config.Problems.{Problem}
use homewizard_exporter.Config.Normalise.{normalise}
use homewizard_exporter.Config.Normalise.Laws.{normalise_idem}
use homewizard_exporter.Config.Validate.{validate}
use homewizard_exporter.Config.Validate.Laws.{IsValid, validate_iff}
use homewizard_exporter.Config.Load.{
  World, Loaded, ok, err, FileRead, contents, not_exist, failed, finish, parse_file,
  load_unvalidated, check, validated, load,
}

check_ok : (c c' : Config) (ps : List Problem) → check c ps ≡ ok c' → (ps ≡ []) × (c ≡ c')
check_ok c c' [] h = (refl, cc)
check_ok c c' (p ∷ ps) h = cc

finish_normal :
    (w : World) (o : Option Config) {c : Config} → finish w o ≡ ok c → normalise w.env c ≡ c
finish_normal w none h = cc
finish_normal w (some x) h = cc (normalise_idem w.env (apply_env w.env x))

parse_file_normal :
    (w : World) (r : FileRead) {c : Config} → parse_file w r ≡ ok c → normalise w.env c ≡ c
parse_file_normal w (contents b) h = finish_normal w _ h
parse_file_normal w not_exist h = cc
parse_file_normal w failed h = cc

load_unvalidated_normal :
    (w : World) (path : String) {c : Config}
    → load_unvalidated w path ≡ ok c
    → normalise w.env c ≡ c
unfolding load_unvalidated
load_unvalidated_normal w path h = elim (Bool-cases (str_eq path "")) [
  | inl e ↦ finish_normal w (some default) (rw e at h)
  | inr e ↦ parse_file_normal w (w.read_file path) (rw e at h)
]

validated_ok :
    (w : World) (l : Loaded) {c : Config}
    → validated w l ≡ ok c
    → (l ≡ ok c) × (validate w.exists c ≡ [])
validated_ok w (err e) h = cc
validated_ok w (ok x) {c} h =
    let (empty, same) = check_ok x c (validate w.exists x) h in (cc, rw same at empty)

-- A configuration that `Load` returns is valid and already normalised, whatever the file and the
-- environment hold.
pub load_sound :
    (w : World) (path : String) {c : Config}
    → load w path ≡ ok c
    → IsValid w.exists c × (normalise w.env c ≡ c)
unfolding load
load_sound w path {c} h =
    let (loaded, empty) = validated_ok w (load_unvalidated w path) h in
    ((validate_iff w.exists c).0 empty, load_unvalidated_normal w path loaded)
