-- ===== src/Server/Served.antt =====
-- What a request has passed before its handler runs.
use soap_server.Prelude.{
  Bytes, false, Bool-cases, Option, none, some, Option-cases, ◌≡◌, ◌⊎◌, inl, inr, ap, arith, ok,
  err, Result-cases,
}
use soap_server.Fault.{SoapFault, Fallible}
use soap_server.Wsdl.Definitions.{SoapVersion, soap12}
use soap_server.Envelope.Parse.{ParsedEnvelope, detect_soap_version, parse_envelope}
use soap_server.Dispatch.Table.{DispatchEntry, DispatchTable}
use soap_server.Dispatch.Validate.{validate_request}
use soap_server.Wssec.NonceCache.{NonceCache, Clock}
use soap_server.Wssec.Timestamp.{DateTime}
use soap_server.Wssec.UsernameToken.Rules.{IsAccepted, validate-IsAccepted}
use soap_server.Server.Handler.{SoapHandler}
use soap_server.Server.Request.{HeaderMap, content_type, find_security_header}
use soap_server.Server.Service.{Library, Response, SoapService}
use soap_server.Server.Post.{fault_response, respond, authorize, select, invoke, serve, post}

module _ {W : Type 0} (lib : Library) (svc : SoapService W) (clock : Clock) (now : DateTime) where
  open lib use {readers, crypto, utf8_message}

  -- Why a request may reach its handler.
  pub data IsAdmitted (entry : DispatchEntry (SoapHandler W)) (envelope : ParsedEnvelope)
      (cache cache' : NonceCache) : Type 0 where
    bypassed : entry.auth_required ≡ false → cache' ≡ cache → IsAdmitted entry envelope cache cache'
    unprotected : svc.auth_fn ≡ none → cache' ≡ cache → IsAdmitted entry envelope cache cache'
    authenticated :
        (get_password : Bytes → Option Bytes) (security user : Bytes)
        → svc.auth_fn ≡ some get_password
        → find_security_header readers envelope.header_children ≡ some security
        → IsAccepted crypto svc.timestamp_tolerance_secs now
            (readers.plain security)
            get_password
            clock
            cache
            cache'
            user
        → IsAdmitted entry envelope cache cache'

  authorize-IsAdmitted :
      (entry : DispatchEntry (SoapHandler W)) (envelope : ParsedEnvelope)
      (cache cache' : NonceCache) (user : Bytes)
      → authorize lib svc entry envelope clock now cache ≡ some (ok user, cache')
      → IsAdmitted entry envelope cache cache'
  unfolding authorize
  authorize-IsAdmitted entry envelope cache cache' user h = elim (Bool-cases entry.auth_required) [
    | inr public ↦ bypassed public (ground arith)
    | inl req ↦ elim (Option-cases svc.auth_fn) [
      | inl open_server ↦ unprotected open_server (ground arith)
      | inr (f, given) ↦
          elim (Option-cases (find_security_header readers envelope.header_children)) [
            | inl missing ↦ absurd (ground arith)
            | inr (security, found) ↦ authenticated f security user given found (
                validate-IsAccepted crypto svc.timestamp_tolerance_secs now (readers.plain security)
                  f clock cache cache' user (ground arith))
          ]
    ]
  ]

  module _ (table : DispatchTable (SoapHandler W)) (headers : HeaderMap) (cache cache' : NonceCache)
      (world world' : W) (r : Response) where
    -- The request passed every step, and the response is that of the handler.
    pub record IsServed (envelope : ParsedEnvelope) : Type 0 where
      pub entry : DispatchEntry (SoapHandler W)
      pub selected : select lib table headers envelope ≡ ok entry
      pub admitted : IsAdmitted entry envelope cache cache'
      pub valid :
          validate_request utf8_message
            (readers.plain envelope.body_element)
            svc.type_registry
            entry.validation_type
          ≡ ok tt
      pub out : Fallible Bytes
      pub called :
          entry.handler.handle_with_headers world envelope.body_element envelope.header_children
          ≡ (out, world')
      pub answered : r ≡ respond lib envelope.soap_version out

    -- No handler ran, and the response is a fault.
    abbrev pub IsRefused : Type 0
    IsRefused =
        (world' ≡ world)
        × ((fault : SoapFault) × (version : SoapVersion) × (r ≡ fault_response lib fault version))

    serve_cases :
        (envelope : ParsedEnvelope)
        → serve lib svc table headers envelope clock now cache world ≡ some (r, cache', world')
        → IsRefused ⊎ IsServed envelope
    unfolding serve invoke respond
    serve_cases envelope h = elim (Result-cases (select lib table headers envelope)) [
      | inr (fault, s) ↦ inl (ground arith, (fault, envelope.soap_version, ground arith))
      | inl (entry, s) ↦ elim (Option-cases (authorize lib svc entry envelope clock now cache)) [
        | inl stuck ↦ absurd (ground arith)
        | inr ((err fault, c), a) ↦ inl (ground arith, (fault, envelope.soap_version, ground arith))
        | inr ((ok user, c), a) ↦
            elim (Result-cases (
              validate_request utf8_message (readers.plain envelope.body_element) svc.type_registry
                entry.validation_type)) [
                  | inr (fault, v) ↦
                      inl (ground arith, (fault, envelope.soap_version, ground arith))
                  | inl (done, v) ↦
                      let result =
                        entry.handler.handle_with_headers world envelope.body_element
                          envelope.header_children in
                      let same : c ≡ cache' = ground arith in
                      let moved : result.1 ≡ world' = ground arith in
                      inr (record {
                        entry = entry;
                        selected = s;
                        admitted =
                            authorize-IsAdmitted entry envelope cache cache' user (rw (← same) a);
                        valid = v;
                        out = result.0;
                        called = ap (λ w. (result.0, w)) moved;
                        answered = ground arith;
                      })
                ]
      ]
    ]

    -- Every answered POST is either a fault that leaves the world of the handlers as it
    -- was, or it parsed, was routed, was admitted (the operation is bypassed, no
    -- credential lookup is configured, or its token was accepted), passed structural
    -- validation, and its response and the world after it are what the handler returned.
    pub post_cases :
        (body : Bytes)
        → post lib svc table headers body clock now cache world ≡ some (r, cache', world')
        → IsRefused
          ⊎ ((envelope : ParsedEnvelope) × (parse_envelope (readers.resolved body)
                ≡ some (ok envelope))
              × IsServed envelope)
    unfolding post
    post_cases body h = elim (Result-cases (detect_soap_version (content_type headers))) [
      | inr (fault, d) ↦ inl (ground arith, (fault, soap12, ground arith))
      | inl (version, d) ↦ elim (Option-cases (parse_envelope (readers.resolved body))) [
        | inl stuck ↦ absurd (ground arith)
        | inr (err fault, p) ↦ inl (ground arith, (fault, version, ground arith))
        | inr (ok envelope, p) ↦ elim (serve_cases envelope (ground arith)) [
          | inl refused ↦ inl refused
          | inr served ↦ inr (envelope, p, served)
        ]
      ]
    ]
