-- ===== src/Homewizard/Client.antt =====
-- internal/homewizard/client.go: a connection to one device, its requests, and how a response becomes
-- a result. HTTP, the decoding of JSON and the file of the token are parameters.
pub mod Status
use Prim.Native.String
use homewizard_exporter.Prelude.{
  ℕ, ◌+◌, ◌*◌, ◌/◌, ◌^◌, String, Bool, false, not, ◌&&◌, ◌||◌, Option, none, some, ◌++◌, str_eq,
  ◌==◌, if◌then◌else◌,
}
use homewizard_exporter.Text.{trim_space, contains}
use homewizard_exporter.Config.{Device, ApiVersion, api_v2}
use homewizard_exporter.Homewizard.Errors.{
  Result, ok, err, Error, message, wrap, sentinel, not_found, unauthorized, api_disabled,
  no_telegram, context, ◌>>=◌,
}
use homewizard_exporter.Homewizard.Models.{Info, Measurement, State, System, Batteries}
use homewizard_exporter.Homewizard.Timestamps.{Platform}
use homewizard_exporter.Homewizard.V1.{V1Data}
use homewizard_exporter.Homewizard.V2.{V2Measurement}
use homewizard_exporter.Homewizard.V1.Projection as V1
use homewizard_exporter.Homewizard.V2.Projection as V2
use homewizard_exporter.Homewizard.Capabilities.{Capabilities}
use homewizard_exporter.Homewizard.Tls.{Identity}

-- A URL of scheme http or https and a host.
pub record Base : Type 0 where
  pub https : Bool
  pub host : String

pub record Request : Type 0 where
  pub method : String
  pub base : Base
  pub path : String
  pub accept : String
  pub content_type : Option String
  pub api_version : Option String
  pub authorization : Option String
  pub body : Option String

pub record Response : Type 0 where
  pub status : ℕ
  pub body : String

-- Where a request goes.
pub record Url : Type 0 where
  pub base : Base
  pub path : String

-- What net/url makes of a reference at a base, `none` for one that it refuses or whose scheme is
-- not HTTP's; what `http.Client` makes of a request, redirects included, `none` for a transport error, and the identity that a
-- verified TLS handshake for it recorded.
pub record Net : Type 0 where
  pub resolve : Base → String → Option Url
  pub send : Request → Option Response
  pub handshake : Request → Option Identity

-- encoding/json at the types that the program decodes, `none` for an error.
pub record Codec (F : Type 0) : Type 0 where
  pub info : String → Option Info
  pub v1_data : String → Option (V1Data F)
  pub v2_measurement : String → Option (V2Measurement F)
  pub system : String → Option (System F)
  pub state : String → Option State
  pub batteries : String → Option (Batteries F)
  -- {"error": "…"}
  pub flat_error : String → Option String
  -- {"error": {"id": …, "description": "…"}}
  pub nested_error : String → Option (String × String)
  -- the `token` of {"name": "…", "token": "…"}
  pub token : String → Option String
  -- {"name": "…"}
  pub user : String → String

pub record Client : Type 0 where
  pub name : String
  pub host : String
  pub version : ApiVersion
  pub base : Base
  pub token : String
  pub info : Info
  pub cert : Identity
  pub caps : Capabilities

-- `Disable`
unfoldable pub disable : String → Client → Client
disable endpoint c =
    if str_eq endpoint "system"
    then record c { caps = record (c.caps) { system = false } }
    else if str_eq endpoint "state"
    then record c { caps = record (c.caps) { state = false } }
    else if str_eq endpoint "telegram"
    then record c { caps = record (c.caps) { telegram = false } }
    else if str_eq endpoint "batteries"
    then record c { caps = record (c.caps) { batteries = false } }
    else c

abbrev bearer : String → Option String
bearer token = if str_eq token "" then none else some (String.◌++◌ "Bearer " token)

abbrev json_type : Option String → Option String
json_type none = none
json_type (some body) = some "application/json"

-- The request that `newRequest` builds for a resolved URL.
unfoldable pub request_to : Client → String → Option String → Url → Request
request_to c method body url =
    let v2 = str_eq c.version api_v2 in
    record {
      method = method;
      base = url.base;
      path = url.path;
      accept = "application/json, text/plain, */*";
      content_type = json_type body;
      api_version = if v2 then some "2" else none;
      authorization = if v2 then bearer c.token else none;
      body = body;
    }

abbrev pub requested : Client → String → Option String → Option Url → Option Request
requested c method body none = none
requested c method body (some url) = some (request_to c method body url)

-- `newRequest`, `none` for its error
unfoldable pub new_request : Net → Client → String → String → Option String → Option Request
new_request net c method path body = requested c method body (net.resolve c.base path)

-- The identity that the handshake of a request records, if the request is made.
abbrev pub shaken : Net → Option Request → Option Identity
shaken net none = none
shaken net (some r) = net.handshake r

-- `io.LimitReader`
abbrev pub limit : ℕ → String → String
limit n s = String.slice s 0 n

abbrev pub max_body : ℕ
max_body = 2 ^ 20

-- What a transport error is wrapped in. A failed request carries none of the sentinels.
abbrev transport_error : Error
transport_error = wrap "request" (message "transport")

module _ (P : Platform) (J : Codec P.F) where
  abbrev pub described : Option (String × String) → String × String
  described none = ("", "")
  described (some (id, description)) = if str_eq id "" then ("", "") else (id, description)

  abbrev pub flat_or : Option String → String × String → String × String
  flat_or none rest = rest
  flat_or (some e) rest = if str_eq e "" then rest else (e, e)

  -- `decodeAPIError`
  unfoldable pub decode_api_error : String → String × String
  decode_api_error body = flat_or (J.flat_error body) (described (J.nested_error body))

  -- The part of `statusError` behind its switch, which reports no sentinel.
  abbrev plain_error : String → String → Error
  plain_error description snippet =
      if not (str_eq description "")
      then message description
      else if not (str_eq (trim_space snippet) "")
      then message (trim_space snippet)
      else message ""

  -- `statusError`, `none` where there is no error
  unfoldable pub status_error : Response → Option Error
  status_error resp =
      if resp.status == 200 || resp.status == 204
      then none
      else let snippet = limit 512 resp.body in
        let (code, description) = decode_api_error snippet in
        if resp.status == 404
        then some (wrap "request" (sentinel not_found))
        else if str_eq code "202"
        then some (wrap "request" (sentinel api_disabled))
        else if resp.status == 401 || resp.status == 403
        then some (wrap "request" (sentinel unauthorized))
        else if resp.status == 503 && contains snippet "telegram"
        then some (wrap "request" (sentinel no_telegram))
        else some (plain_error description snippet)

  abbrev decoded {ℓ} : {A : Type ℓ} → Option A → Result A
  decoded none = err (wrap "decode response" (message "decode"))
  decoded (some a) = ok a

  abbrev pub checked {ℓ} : {A : Type ℓ} → Option Error → Result A → Result A
  checked none r = r
  checked (some e) r = err e

  abbrev pub received {ℓ} : {A : Type ℓ} → (String → Result A) → Option Response → Result A
  received decode none = err transport_error
  received decode (some resp) = checked (status_error resp) (decode (limit max_body resp.body))

  abbrev pub exchanged {ℓ} : {A : Type ℓ} → Net → (String → Result A) → Option Request → Result A
  exchanged net decode none = err (wrap "bad endpoint" (message "url"))
  exchanged net decode (some r) = received decode (net.send r)

  -- `do`, with what the response is decoded by
  unfoldable pub perform {ℓ} :
      {A : Type ℓ} → Net → Client → String → String → Option String → (String → Result A) → Result A
  perform net c method path body decode = exchanged net decode (new_request net c method path body)

  -- `getJSON`
  unfoldable pub get_json {ℓ} :
      {A : Type ℓ} → Net → Client → String → (String → Option A) → Result A
  get_json net c path decode = perform net c "GET" path none (λ body. decoded (decode body))

  -- `GetRaw`
  unfoldable pub get_raw : Net → Client → String → Result String
  get_raw net c path = perform net c "GET" path none (λ body. ok body)

  -- `Measurement`
  unfoldable pub measurement : Net → Client → Result (Measurement P.F)
  measurement net c =
      if str_eq c.version api_v2
      then (get_json net c "/api/measurement" J.v2_measurement >>= λ raw. V2.measurement P raw)
      else (get_json net c "/api/v1/data" J.v1_data >>= λ raw. V1.measurement P raw)

  -- `System`
  unfoldable pub system : Net → Client → Result (System P.F)
  system net c =
      get_json net c (if str_eq c.version api_v2 then "/api/system" else "/api/v1/system") J.system

  -- `State`
  unfoldable pub state : Net → Client → Result State
  state net c = get_json net c "/api/v1/state" J.state

  -- `Batteries`
  unfoldable pub batteries : Net → Client → Result (Batteries P.F)
  batteries net c = get_json net c "/api/batteries" J.batteries

-- What `os.ReadFile` finds at the token file.
pub data TokenFile : Type 0 where
  holds : String → TokenFile
  absent : TokenFile
  unreadable : TokenFile

abbrev token_of : TokenFile → Result String
token_of (holds text) = ok (trim_space text)
token_of absent = ok ""
token_of unreadable = err (message "read token_file")

-- `readToken`
unfoldable pub read_token : (String → TokenFile) → Device → Result String
read_token files d =
    if not (str_eq d.token "")
    then ok d.token
    else if str_eq d.token_file ""
    then ok ""
    else token_of (files d.token_file)
