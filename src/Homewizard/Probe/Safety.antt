-- ===== src/Homewizard/Probe/Safety.antt =====
-- client.go and probe.go: where the token goes.
use homewizard_exporter.Prelude.{
  String, ◌≡◌, refl, ap, ◌∙◌, ◌⊎◌, inl, inr, true, false, Option, none, some, str_eq, starts_with,
  Bool-cases,
}
use mathlib.Core.Path.{subst}
use homewizard_exporter.Config.{Device, api_v2}
use homewizard_exporter.Homewizard.Client.{
  Base, Url, Request, Net, Client, request_to, requested, new_request,
}
use homewizard_exporter.Homewizard.Probe.{base_url}
use homewizard_exporter.Homewizard.Probe.Laws.{IsConnected}

-- A reference that is a path from the root: one slash and not two.
abbrev pub IsRooted : String → Type 0
IsRooted path = (starts_with path "/" ≡ true) × (starts_with path "//" ≡ false)

-- RFC 3986, 5.2.2, which `ResolveReference` implements: such a reference, having neither a scheme nor an
-- authority, takes both from the base.
abbrev pub KeepsBase : Net → Type 0
KeepsBase net =
    (base : Base) (path : String) (url : Url)
    → IsRooted path
    → net.resolve base path ≡ some url
    → url.base ≡ base

abbrev request_or : Request → Option Request → Request
request_or r none = r
request_or r (some s) = s

-- An authorisation goes over HTTPS, to this host, in a v2 request.
abbrev pub IsGuarded : Device → Request → Type 0
IsGuarded cfg r =
    (r.authorization ≡ none)
    ⊎ ((r.base.https ≡ true) × (r.base.host ≡ cfg.host) × (r.api_version ≡ some "2"))

request_to-IsGuarded :
    (cfg : Device) (token : String) (c : Client) (method : String) (body : Option String)
    (url : Url)
    → IsConnected cfg token c
    → url.base ≡ c.base
    → IsGuarded cfg (request_to c method body url)
unfolding request_to base_url
request_to-IsGuarded cfg token c method body url k h = elim (Bool-cases (str_eq c.version api_v2)) [
  | inl v2 ↦
      let base = h ∙ k.base in inr (ap (λ b. b.https) base ∙ v2, ap (λ b. b.host) base, rw v2)
  | inr v1 ↦ inl (rw v1)
]

requested-IsGuarded :
    (cfg : Device) (token : String) (c : Client) (method : String) (body : Option String)
    (o : Option Url) (r : Request)
    → IsConnected cfg token c
    → ((url : Url) → o ≡ some url → url.base ≡ c.base)
    → requested c method body o ≡ some r
    → IsGuarded cfg r
requested-IsGuarded cfg token c method body none r k keeps h = cc
requested-IsGuarded cfg token c method body (some url) r k keeps h =
    subst (IsGuarded cfg) (ap (request_or r) h)
      (request_to-IsGuarded cfg token c method body url k (keeps url refl))

-- A connected client makes no request for a path from the root, redirects aside, that carries an
-- authorisation but over HTTPS, to the device's own host, and as a v2 request, if a reference that is
-- such a path takes the scheme and the host of its base.
pub authorization_safe :
    (net : Net) (cfg : Device) (token : String) (c : Client) (method path : String)
    (body : Option String) (r : Request)
    → KeepsBase net
    → IsConnected cfg token c
    → IsRooted path
    → new_request net c method path body ≡ some r
    → IsGuarded cfg r
unfolding new_request
authorization_safe net cfg token c method path body r keeps k rooted h =
    requested-IsGuarded cfg token c method body (net.resolve c.base path) r k
      (λ url e. keeps c.base path url rooted e) h
