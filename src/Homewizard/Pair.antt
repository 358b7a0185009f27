-- ===== src/Homewizard/Pair.antt =====
-- internal/homewizard/pair.go: `Pair` creates a user on a device, which takes a press of its button,
-- and returns the token of that user. The ticks of its loop are a list of attempts.
pub mod Laws
pub mod Waiting
use homewizard_exporter.Prelude.{
  ℕ, ◌/◌, String, Bool, true, false, not, ◌&&◌, ◌||◌, Option, none, some, List, [], ◌∷◌, str_eq,
  leb, ◌==◌, if◌then◌else◌, length,
}
use homewizard_exporter.Text.{codes, cut_prefix}
use homewizard_exporter.Config
use homewizard_exporter.Config.{Tls, api_v2, tls_verify, bare_device}
use homewizard_exporter.Homewizard.Errors.{
  Result, ok, err, Error, message, wrap, sentinel, errors_is, unauthorized, button_not_pressed,
}
use homewizard_exporter.Homewizard.Models.{Info}
use homewizard_exporter.Homewizard.Timestamps.{Platform}
use homewizard_exporter.Homewizard.Tls.{Identity, no_identity}
use homewizard_exporter.Homewizard.Client.{Net, Codec, Client, new_request, shaken, perform}
use homewizard_exporter.Homewizard.Probe.{fetch_info, blank_client, recorded}

abbrev pub default_user_name : String
default_user_name = "local/homewizard_exporter"

-- [a-zA-Z0-9\-_/\\# ]
abbrev pub is_name_char : ℕ → Bool
is_name_char c =
    (leb b'a' c && leb c b'z')
    || (leb b'A' c && leb c b'Z')
    || (leb b'0' c && leb c b'9')
    || c == 45
    || c == 95
    || c == 47
    || c == 92
    || c == 35
    || c == 32

unfoldable pub all_name_chars : List ℕ → Bool
all_name_chars [] = true
all_name_chars (c ∷ s) = is_name_char c && all_name_chars s

abbrev is_name_tail : Option (List ℕ) → Bool
is_name_tail none = false
is_name_tail (some s) = leb 1 (length s) && leb (length s) 40 && all_name_chars s

-- `userNamePattern`
unfoldable pub is_user_name : String → Bool
is_user_name name = is_name_tail (cut_prefix (codes "local/") (codes name))

-- `IdentityHint`
pub record IdentityHint : Type 0 where
  pub product_type : String
  pub serial : String

-- `PairResult`
pub record PairResult : Type 0 where
  pub name : String
  pub token : String
  pub info : Info

-- One turn of the loop: the network as it answers then, and whether the `select` at its end takes the
-- branch of the context, which it may do once that is done, or that of the ticker.
pub record Attempt : Type 0 where
  pub net : Net
  pub cancelled : Bool

-- How far pairing has come: it waits for the button, or it has returned.
pub data Progress : Type 0 where
  waiting : Progress
  finished : Result PairResult → Progress

module _ (P : Platform) (J : Codec P.F) where
  abbrev token_or : Option String → Result String
  token_or none = err (wrap "decode response" (message "decode"))
  token_or (some token) =
      if str_eq token ""
      then err (wrap "decode response" (message "accepted the request but returned no token"))
      else ok token

  abbrev unpressed : Result String → Result String
  unpressed (ok token) = ok token
  unpressed (err e) = if errors_is e unauthorized then err (sentinel button_not_pressed) else err e

  -- `createUser`
  unfoldable pub create_user : Net → Client → String → Result String
  create_user net c body =
      unpressed
        (perform P J net c "POST" "/api/user" (some body) (λ answer. token_or (J.token answer)))

  -- What a call of `OnWaiting` is given.
  abbrev pub hint_of : Net → Client → String → Identity → IdentityHint
  hint_of net c body seen =
      let id = recorded P J (shaken net (new_request net c "POST" "/api/user" (some body))) seen in
      record { product_type = id.product_type; serial = id.serial }

  abbrev pub first_hint : Option IdentityHint → IdentityHint → Option IdentityHint
  first_hint none hint = some hint
  first_hint (some announced) hint = some announced

  abbrev pub accepted : String → String → Result Info → Result PairResult
  accepted name token (err e) = err (wrap "issued a token but then rejected it" e)
  accepted name token (ok info) = ok (record { name = name; token = token; info = info })

  -- The loop of `Pair`, with what `OnWaiting` has been given.
  unfoldable pub wait :
      String
      → Client
      → String
      → List Attempt
      → Identity
      → Option IdentityHint
      → Option IdentityHint × Progress
  wait name c body [] seen told = (told, waiting)
  wait name c body (a ∷ attempts) seen told =
      let id =
        recorded P J (shaken a.net (new_request a.net c "POST" "/api/user" (some body))) seen in
      let told' = first_hint told (hint_of a.net c body seen) in
      let rest = wait name c body attempts id told' in
      elim (create_user a.net c body) [
        | ok token ↦ (
          told,
          finished (accepted name token (fetch_info P J a.net (record c { token = token }))),
        )
        | err e ↦
            if not (errors_is e button_not_pressed)
            then (told, finished (err e))
            else if a.cancelled
            then (told', finished (err (wrap "gave up waiting for the button" (message "context"))))
            else rest
      ]

  -- The device that `Pair` makes of its options.
  abbrev pub pair_device : String → Tls → Config.Device
  pair_device host tls = record (bare_device host) {
    tls = record tls { mode = if str_eq tls.mode "" then tls_verify else tls.mode };
  }

  abbrev pub pair_client : String → Tls → Client
  pair_client host tls = blank_client P J (pair_device host tls) "" api_v2

  abbrev pub begin_wait :
      String → Client → List Attempt → Result (Unit {0}) → Option IdentityHint × Progress
  begin_wait name c attempts (err e) = (none, finished (err e))
  begin_wait name c attempts (ok _) = wait name c (J.user name) attempts no_identity none

  -- `Pair`, with what `tlsConfig` makes of the device's TLS settings
  unfoldable pub pair :
      (Config.Device → Result (Unit {0}))
      → String
      → String
      → Tls
      → List Attempt
      → Option IdentityHint × Progress
  pair config host wanted tls attempts =
      let name = if str_eq wanted "" then default_user_name else wanted in
      if not (is_user_name name)
      then (none, finished (err (message "user name is invalid")))
      else begin_wait name (pair_client host tls) attempts (config (pair_device host tls))
