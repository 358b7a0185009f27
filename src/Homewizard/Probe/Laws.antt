-- ===== src/Homewizard/Probe/Laws.antt =====
-- probe.go: the clients that `New` returns.
use homewizard_exporter.Prelude.{
  String, ◌≡◌, refl, sym, ◌∙◌, ◌≢◌, ◌⊎◌, inl, inr, Bool, true, false, not, List, [], ◌∷◌, arith,
  str_eq, eq_iff, if◌then◌else◌, Bool-cases, All,
}
use mathlib.Core.Path.{subst}
use homewizard_exporter.Config.{Device, ApiVersion, api_v1, api_v2}
use homewizard_exporter.Homewizard.Errors.{
  Result, ok, Error, context, ◌>>=◌, >>=-eq-ok, context-eq-ok, ok_injective, Result-cases,
}
use homewizard_exporter.Homewizard.Models.{Info}
use homewizard_exporter.Homewizard.Timestamps.{Platform}
use homewizard_exporter.Homewizard.Capabilities.{capabilities_for}
use homewizard_exporter.Homewizard.Tls.{Identity, no_identity}
use homewizard_exporter.Homewizard.Client.{Net, Codec, Client, TokenFile, read_token}
use homewizard_exporter.Homewizard.Probe.{
  probe_order, base_url, fetch_info, blank_client, connected, probe, new,
}

-- A client is fit for use: it speaks a version that was tried, at that version's own scheme, knows the
-- device by its name and its answer to /api, and expects what that answer allows.
pub record IsConnected (cfg : Device) (token : String) (c : Client) : Type 0 where
  pub name : c.name ≡ cfg.name
  pub host : c.host ≡ cfg.host
  pub token_kept : c.token ≡ token
  pub version : (c.version ≡ api_v1) ⊎ (c.version ≡ api_v2)
  pub base : c.base ≡ base_url c.version cfg.host
  pub pinned : cfg.api_version ≡ api_v1 → c.version ≡ api_v1
  pub pinned_v2 : cfg.api_version ≡ api_v2 → c.version ≡ api_v2
  pub type : cfg.type ≢ "" → c.info.product_type ≡ cfg.type
  pub caps : c.caps ≡ capabilities_for c.info c.version

-- The versions that are tried are the ones the configuration allows.
abbrev pub IsAllowed : Device → ApiVersion → Type 0
IsAllowed cfg v =
    ((v ≡ api_v1) ⊎ (v ≡ api_v2))
    × (cfg.api_version ≡ api_v1 → v ≡ api_v1)
    × (cfg.api_version ≡ api_v2 → v ≡ api_v2)

v1-ne-v2 : ◌≢◌ {A = String} "v1" "v2"
v1-ne-v2 = ground (arith, eq_iff "v1" "v2")

IsAllowed-v1 : (cfg : Device) → cfg.api_version ≢ api_v2 → IsAllowed cfg api_v1
IsAllowed-v1 cfg h = (inl refl, λ _. refl, λ e. absurd (h e))

IsAllowed-v2 : (cfg : Device) → cfg.api_version ≢ api_v1 → IsAllowed cfg api_v2
IsAllowed-v2 cfg h = (inr refl, λ e. absurd (h e), λ _. refl)

ne_of_test : (s t : String) → str_eq s t ≡ false → s ≢ t
ne_of_test s t h e = ground (arith, eq_iff s t)

both_orders :
    (cfg : Device) (b : Bool)
    → IsAllowed cfg api_v1
    → IsAllowed cfg api_v2
    → All (IsAllowed cfg) (if b then api_v2 ∷ api_v1 ∷ [] else api_v1 ∷ api_v2 ∷ [])
both_orders cfg true one two = (two, (one, tt))
both_orders cfg false one two = (one, (two, tt))

pub probe_order-IsAllowed :
    (cfg : Device) (token : String) → All (IsAllowed cfg) (probe_order cfg token)
unfolding probe_order
probe_order-IsAllowed cfg token = elim (Bool-cases (str_eq cfg.api_version api_v1)) [
  | inl one ↦
      rw one
        (IsAllowed-v1 cfg (λ e. v1-ne-v2 (sym ((eq_iff cfg.api_version api_v1).0 one) ∙ e)), tt)
  | inr not_one ↦ elim (Bool-cases (str_eq cfg.api_version api_v2)) [
    | inl two ↦ rw (not_one, two) (IsAllowed-v2 cfg (ne_of_test cfg.api_version api_v1 not_one), tt)
    | inr not_two ↦
        rw (not_one, not_two)
          (both_orders cfg (not (str_eq token ""))
            (IsAllowed-v1 cfg (ne_of_test cfg.api_version api_v2 not_two))
            (IsAllowed-v2 cfg (ne_of_test cfg.api_version api_v1 not_one)))
  ]
]

module _ (P : Platform) (J : Codec P.F) (net : Net) (cfg : Device) (token : String) where
  connected-IsConnected :
      (v : ApiVersion) (info : Info) (cert : Identity)
      → IsAllowed cfg v
      → IsConnected cfg token (connected P J cfg (blank_client P J cfg token v) info cert)
  unfolding connected
  connected-IsConnected v info cert (known, one, two) = record {
    name = refl;
    host = refl;
    token_kept = refl;
    version = known;
    base = refl;
    pinned = one;
    pinned_v2 = two;
    type = ground (arith, eq_iff cfg.type "");
    caps = refl;
  }

  probe-IsConnected :
      (vs : List ApiVersion) (seen : Identity) (attempts : List Error) {c : Client}
      → All (IsAllowed cfg) vs
      → probe P J net cfg token vs seen attempts ≡ ok c
      → IsConnected cfg token c
  unfolding probe
  probe-IsConnected [] seen attempts allowed h = cc
  probe-IsConnected (v ∷ vs) seen attempts (here, later) h =
      elim (Result-cases (fetch_info P J net (blank_client P J cfg token v))) [
        | inl (info, e) ↦
            subst (IsConnected cfg token) (ok_injective (rw (e, probe) at h))
              (connected-IsConnected v info _ here)
        | inr (x, e) ↦ probe-IsConnected vs _ _ later (rw (e, probe) at h)
      ]

module _ (P : Platform) (J : Codec P.F) (net : Net) (files : String → TokenFile)
    (tls : Device → Result (Unit {0})) (cfg : Device) where
  -- A client that `New` returns is fit for use, with the token that was read: it speaks a version that
  -- the configuration allows, at the scheme of that version, and its capabilities are those of its
  -- product, which is the configured type if there is one.
  pub new-IsConnected :
      {c : Client}
      → new P J net files tls cfg ≡ ok c
      → (token : String) × (read_token files cfg ≡ ok token) × IsConnected cfg token c
  unfolding new
  new-IsConnected h =
      let (token, read, h1) =
        >>=-eq-ok (context "device" (read_token files cfg))
          (λ token. context "device" (tls cfg) >>= λ _.
            probe P J net cfg token (probe_order cfg token) no_identity [])
          h in
      let (_, _, h2) =
        >>=-eq-ok (context "device" (tls cfg))
          (λ _. probe P J net cfg token (probe_order cfg token) no_identity []) h1 in
      (
        token,
        context-eq-ok "device" (read_token files cfg) read,
        probe-IsConnected P J net cfg token (probe_order cfg token) no_identity []
            (probe_order-IsAllowed cfg token) h2,
      )
