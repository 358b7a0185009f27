-- ===== src/Homewizard/Client/Status.antt =====
-- client.go: `statusError` against the meaning of each sentinel.
use homewizard_exporter.Prelude.{
  String, ◌≡◌, ◌≢◌, ◌↔◌, ◌⊎◌, Bool, true, false, Option, none, some, arith, eq_iff,
}
use homewizard_exporter.Text.{contains}
use homewizard_exporter.Homewizard.Errors.{
  Error, Sentinel, errors_is, not_found, unauthorized, api_disabled, no_telegram,
  button_not_pressed,
}
use homewizard_exporter.Homewizard.Timestamps.{Platform}
use homewizard_exporter.Homewizard.Client.{Response, Codec, limit, decode_api_error, status_error}

-- `errors.Is` on an error that may be nil.
abbrev pub reports : Option Error → Sentinel → Bool
reports none s = false
reports (some e) s = errors_is e s

module _ (P : Platform) (J : Codec P.F) (resp : Response) where
  -- What the body says: the error code, and whether its first 512 bytes mention a telegram.
  abbrev pub code_of : String
  code_of = (decode_api_error P J (limit 512 resp.body)).0

  abbrev pub mentions_telegram : Bool
  mentions_telegram = contains (limit 512 resp.body) "telegram"

  -- The meaning of each sentinel, as a condition on the response.
  pub record IsClassified (e : Option Error) : Type 0 where
    pub success : (e ≡ none) ↔ ((resp.status ≡ 200) ⊎ (resp.status ≡ 204))
    pub missing : (reports e not_found ≡ true) ↔ (resp.status ≡ 404)
    pub disabled :
        (reports e api_disabled ≡ true)
        ↔ ((code_of ≡ "202") × (resp.status ≢ 200) × (resp.status ≢ 204) × (resp.status ≢ 404))
    pub rejected :
        (reports e unauthorized ≡ true)
        ↔ ((code_of ≢ "202") × ((resp.status ≡ 401) ⊎ (resp.status ≡ 403)))
    pub waiting :
        (reports e no_telegram ≡ true)
        ↔ ((code_of ≢ "202") × (resp.status ≡ 503) × (mentions_telegram ≡ true))
    pub paired : reports e button_not_pressed ≡ false

  -- Every response is classified: success for 200 and 204, not found for 404, a disabled API for the
  -- code 202, a rejected token for 401 and 403, a missing telegram for 503 with a mention of it, each
  -- in this order of precedence, and no other response carries a sentinel.
  pub status_error-IsClassified : IsClassified (status_error P J resp)
  unfolding status_error
  status_error-IsClassified = ground (arith, eq_iff code_of "202")
