-- ===== src/FakeDevice/Laws.antt =====
-- cmd/fakedevice/main.go and internal/homewizard/client.go: what the exporter's client makes of the
-- refusals of a fake device.
use Prim.Native.String
use homewizard_exporter.Prelude.{
  String, ◌≡◌, refl, sym, ap, ◌∙◌, ◌≢◌, inl, Bool, true, false, not, ◌||◌, Option, none, some,
  arith, eq_iff,
}
use mathlib.Core.Path.{subst}
use homewizard_exporter.FakeDevice.{
  Fixture, found, failed, varied, file_reply, refuse_or, is_refused, path_reply, Device,
  Surroundings, refusal, header_or, same_scheme, handle, fake_net,
}
use homewizard_exporter.Homewizard.Client.{
  flat_or, described, decode_api_error, Url, Request, Client, Codec, limit, max_body, request_to,
  new_request, perform, received, checked, status_error,
}
use homewizard_exporter.Homewizard.Client.Status.{code_of, reports, status_error-IsClassified}
use homewizard_exporter.NameMap.{lookup}
use homewizard_exporter.Homewizard.Errors.{
  Result, ok, err, Error, Sentinel, errors_is, not_found, unauthorized,
}
use homewizard_exporter.Homewizard.Timestamps.{Platform}

-- A result that fails with this sentinel.
abbrev pub FailsWith {ℓ} : {A : Type ℓ} → Sentinel → Result A → Type 0
FailsWith s (ok a) = ⊥
FailsWith s (err e) = errors_is e s ≡ true

refused_reply :
    (P : Platform) (J : Codec P.F)
    → J.flat_error refusal ≡ some "user:unauthorized"
    → reports (status_error P J (record { status = 401; body = refusal })) unauthorized ≡ true
unfolding decode_api_error
refused_reply P J h =
    let code : code_of P J (record { status = 401; body = refusal }) ≡ "user:unauthorized" =
      ap (λ o. (flat_or P J o (described P J (J.nested_error refusal))).0) h in
    (status_error-IsClassified P J (record { status = 401; body = refusal })).rejected.1
      ((λ e. other_code (sym code ∙ e)), inl refl)
  where
    other_code : ◌≡◌ {A = String} "user:unauthorized" "202" → ⊥
    other_code e = cc

missing_reply :
    (P : Platform) (J : Codec P.F)
    → reports (status_error P J (record { status = 404; body = "" })) not_found ≡ true
missing_reply P J =
    (status_error-IsClassified P J (record { status = 404; body = "" })).missing.1 refl

unread_reply :
    (P : Platform) (J : Codec P.F) (body : String)
    → status_error P J (record { status = 500; body = body }) ≢ none
unread_reply P J body h =
    ground
      (arith, (status_error-IsClassified P J (record { status = 500; body = body })).success.0 h)

module _ (P : Platform) (J : Codec P.F) (read : String → Fixture) (vary : String → String)
    (jitter : Bool) where
  module _ {A : Type 0} (decode : String → Result A) where
    -- The outcome of a request for a fixture.
    abbrev pub IsRead : String → Fixture → Result A → Type 0
    IsRead fixture (failed x) r = (e : Error) × (r ≡ err e)
    IsRead fixture (found body) r = r ≡ decode (limit max_body (varied vary jitter fixture body))

    -- The outcome of a request, by whether it is refused and which fixture is there.
    abbrev Answers : Bool → Option String → Result A → Type 0
    Answers true fixture r = FailsWith unauthorized r
    Answers false none r = FailsWith not_found r
    Answers false (some fixture) r = IsRead fixture (read fixture) r

    checked-FailsWith :
        (o : Option Error) (s : Sentinel) (r : Result A)
        → reports o s ≡ true
        → FailsWith s (checked P J o r)
    checked-FailsWith none s r h = cc
    checked-FailsWith (some e) s r h = h

    checked-IsError :
        (o : Option Error) (r : Result A) → o ≢ none → (e : Error) × (checked P J o r ≡ err e)
    checked-IsError none r h = absurd (h refl)
    checked-IsError (some e) r h = (e, refl)

    file_reply-IsRead :
        (fixture : String) (o : Fixture)
        → IsRead fixture o (received P J decode (some (file_reply read vary jitter fixture o)))
    unfolding status_error
    file_reply-IsRead fixture (failed x) =
        checked-IsError (status_error P J (record { status = 500; body = String.◌++◌ x "\n" }))
          (decode (limit max_body (String.◌++◌ x "\n"))) (unread_reply P J (String.◌++◌ x "\n"))
    file_reply-IsRead fixture (found body) = refl

    reply-Answers :
        (b : Bool) (o : Option String)
        → J.flat_error refusal ≡ some "user:unauthorized"
        → Answers b o
            (received P J decode (some (refuse_or read vary b (path_reply read vary jitter o))))
    reply-Answers true o h =
        checked-FailsWith (status_error P J (record { status = 401; body = refusal })) unauthorized
          (decode (limit max_body refusal)) (refused_reply P J h)
    reply-Answers false none h =
        checked-FailsWith (status_error P J (record { status = 404; body = "" })) not_found
          (decode (limit max_body "")) (missing_reply P J)
    reply-Answers false (some fixture) h = file_reply-IsRead fixture (read fixture)

    -- What the client makes of a device's answer, by the header that it sends and the fixture at the path: a
    -- v2 device refuses any header but that of its token, which the client reports as unauthorized; of those
    -- that are let in, one for a path without a fixture is reported as not found, and any other is answered
    -- with the fixture, if that can be read, up to the client's limit.
    pub record IsServed (d : Device) (token header : String) (fixture : Option String)
        (r : Result A) : Type 0 where
      pub refused : d.v2 ≡ true → header ≢ String.◌++◌ "Bearer " token → FailsWith unauthorized r
      pub missing :
          (d.v2 ≡ true → header ≡ String.◌++◌ "Bearer " token)
          → fixture ≡ none
          → FailsWith not_found r
      pub served :
          (d.v2 ≡ true → header ≡ String.◌++◌ "Bearer " token)
          → (file : String) → fixture ≡ some file
          → IsRead file (read file) r

    module _ (d : Device) (token : String) where
      refused_test :
          (r : Request)
          → d.v2 ≡ true
          → header_or r.authorization ≢ String.◌++◌ "Bearer " token
          → is_refused read vary d token r ≡ true
      refused_test r h k =
          ground (arith, eq_iff (header_or r.authorization) (String.◌++◌ "Bearer " token))

      let_in_test :
          (r : Request)
          → (d.v2 ≡ true → header_or r.authorization ≡ String.◌++◌ "Bearer " token)
          → is_refused read vary d token r ≡ false
      let_in_test r h =
          ground (arith, h, eq_iff (header_or r.authorization) (String.◌++◌ "Bearer " token))

      Answers-IsServed :
          (r : Request) (fixture : Option String) (x : Result A)
          → Answers (is_refused read vary d token r) fixture x
          → IsServed d token (header_or r.authorization) fixture x
      Answers-IsServed r fixture x h = record {
        refused = λ v k. subst (λ b. Answers b fixture x) (refused_test r v k) h;
        missing = λ k e.
            subst (λ o. Answers false o x) e (subst (λ b. Answers b fixture x) (let_in_test r k) h);
        served = λ k file e.
            subst (λ o. Answers false o x) e (subst (λ b. Answers b fixture x) (let_in_test r k) h);
      }

      module _ (w : Surroundings) (r : Request) where
        scheme_test : r.base.https ≡ d.v2 → same_scheme r d ≡ true
        scheme_test h = ground arith

        trust_test : (d.v2 ≡ true → w.trusted ≡ true) → (w.trusted || not d.v2) ≡ true
        trust_test h = ground (arith, h)

        -- A request that comes at the device's scheme, with trust in its certificate, reaches the handler.
        send_arrives :
            r.base.https ≡ d.v2
            → (d.v2 ≡ true → w.trusted ≡ true)
            → (fake_net read vary w d token jitter).send r
              ≡ some (handle read vary d token jitter (record r { path = w.clean r.path }))
        send_arrives scheme trust = rw (scheme_test scheme, trust_test trust) refl

      sent-IsServed :
          (w : Surroundings) (r : Request)
          → J.flat_error refusal ≡ some "user:unauthorized"
          → r.base.https ≡ d.v2
          → (d.v2 ≡ true → w.trusted ≡ true)
          → IsServed d token
              (header_or r.authorization)
              (lookup (w.clean r.path) d.fixtures)
              (received P J decode ((fake_net read vary w d token jitter).send r))
      unfolding handle
      sent-IsServed w r h scheme trust =
          let o = lookup (w.clean r.path) d.fixtures in
          subst (λ a. IsServed d token (header_or r.authorization) o (received P J decode a))
            (sym (send_arrives w r scheme trust))
            (Answers-IsServed r o _ (reply-Answers (is_refused read vary d token r) o h))

      -- A fake device answers a GET of the exporter's client as a real one would, by the authorisation that
      -- the client sends and the fixture at the cleaned path, if the URL has the scheme at which the
      -- device listens, the client takes the certificate of a v2 device, and a refusal decodes as its
      -- code.
      pub fake_net-IsServed :
          (w : Surroundings) (c : Client) (path : String) (url : Url)
          → J.flat_error refusal ≡ some "user:unauthorized"
          → w.resolve c.base path ≡ some url
          → url.base.https ≡ d.v2
          → (d.v2 ≡ true → w.trusted ≡ true)
          → IsServed d token
              (header_or (request_to c "GET" none url).authorization)
              (lookup (w.clean url.path) d.fixtures)
              (perform P J (fake_net read vary w d token jitter) c "GET" path none decode)
      unfolding perform new_request request_to
      fake_net-IsServed w c path url h at scheme trust =
          rw at (sent-IsServed w (request_to c "GET" none url) h scheme trust)
