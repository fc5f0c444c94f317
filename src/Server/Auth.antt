-- ===== src/Server/Auth.antt =====
-- Protected operations (src/server.rs).
use soap_server.Prelude.{
  Bytes, bytes, true, Option, some, Option-cases, List, ◌≡◌, refl, inl, inr, arith, ok, err,
  Result-cases,
}
use soap_server.Fault.{SoapFault, Fallible, sender_fault}
use soap_server.Wsdl.Definitions.{SoapVersion}
use soap_server.Envelope.Parse.{ParsedEnvelope, detect_soap_version, parse_envelope}
use soap_server.Dispatch.Table.{DispatchEntry, DispatchTable}
use soap_server.Wssec.NonceCache.{NonceCache, Clock}
use soap_server.Wssec.Timestamp.{DateTime}
use soap_server.Wssec.UsernameToken.Names.{UsernameToken}
use soap_server.Wssec.UsernameToken.Parse.{parse_username_token}
use soap_server.Wssec.UsernameToken.Validate.{authenticate, validate_username_token}
use soap_server.Wssec.UsernameToken.Rules.{IsGenuine, authenticate-IsGenuine}
use soap_server.Server.Handler.{SoapHandler}
use soap_server.Server.Request.{HeaderMap, content_type, find_security_header}
use soap_server.Server.Service.{Library, Response, SoapService}
use soap_server.Server.Post.{fault_response, respond, authorize, select, invoke, serve, post}

module _ {W : Type 0} (lib : Library) (svc : SoapService W) (clock : Clock) (now : DateTime) where
  open lib use {readers, crypto}

  -- No token that the program finds in the headers is genuine.
  abbrev pub HasNoGenuineToken : (Bytes → Option Bytes) → List Bytes → Type 0
  HasNoGenuineToken get_password children =
      (security : Bytes) (token : UsernameToken)
      → find_security_header readers children ≡ some security
      → parse_username_token (readers.plain security) ≡ ok token
      → ¬ IsGenuine crypto svc.timestamp_tolerance_secs now get_password token

  authorize-refuses :
      (entry : DispatchEntry (SoapHandler W)) (envelope : ParsedEnvelope)
      (get_password : Bytes → Option Bytes) (cache : NonceCache)
      → svc.auth_fn ≡ some get_password
      → entry.auth_required ≡ true
      → HasNoGenuineToken get_password envelope.header_children
      → (fault : SoapFault) × (authorize lib svc entry envelope clock now cache
          ≡ some (err fault, cache))
  unfolding authorize validate_username_token
  authorize-refuses entry envelope f cache given req bad =
      elim (Option-cases (find_security_header readers envelope.header_children)) [
        | inl missing ↦ (
          sender_fault (bytes "WS-Security header required but not provided"),
          rw (given, req, missing) refl,
        )
        | inr (security, found) ↦
            elim (Result-cases
              (authenticate crypto (readers.plain security) f svc.timestamp_tolerance_secs now)) [
                | inr (fault, e) ↦ (fault, rw (given, req, found, e) refl)
                | inl (token, e) ↦
                    let (parsed, genuine) =
                      authenticate-IsGenuine crypto svc.timestamp_tolerance_secs now
                        (readers.plain security) f token e in
                    absurd (bad security token found parsed genuine)
              ]
      ]

  -- A request that names a known Content-Type, parses and is routed to a protected
  -- operation, where a credential lookup is configured and the security header has no
  -- genuine token, is answered with a fault in the version of its envelope, and neither the
  -- world of the handlers nor the nonce cache changes.
  pub impostor_refused :
      (table : DispatchTable (SoapHandler W)) (headers : HeaderMap) (body : Bytes)
      (cache : NonceCache) (world : W) (version : SoapVersion) (envelope : ParsedEnvelope)
      (entry : DispatchEntry (SoapHandler W)) (get_password : Bytes → Option Bytes)
      → detect_soap_version (content_type headers) ≡ ok version
      → parse_envelope (readers.resolved body) ≡ some (ok envelope)
      → select lib table headers envelope ≡ ok entry
      → entry.auth_required ≡ true
      → svc.auth_fn ≡ some get_password
      → HasNoGenuineToken get_password envelope.header_children
      → (fault : SoapFault) × (post lib svc table headers body clock now cache world
          ≡ some (fault_response lib fault envelope.soap_version, cache, world))
  unfolding post serve respond
  impostor_refused table headers body cache world version envelope entry f d p s req given bad =
      let (fault, refused) = authorize-refuses entry envelope f cache given req bad in
      (fault, rw (d, p, s, refused) refl)

  -- Once the Content-Type is known and the envelope parsed, the answer, fault or not, is
  -- written in the version of the envelope and with its Content-Type, whatever version the
  -- Content-Type of the request named.
  pub response_follows_envelope :
      (table : DispatchTable (SoapHandler W)) (headers : HeaderMap) (body : Bytes)
      (cache cache' : NonceCache) (world world' : W) (version : SoapVersion)
      (envelope : ParsedEnvelope) (r : Response)
      → detect_soap_version (content_type headers) ≡ ok version
      → parse_envelope (readers.resolved body) ≡ some (ok envelope)
      → post lib svc table headers body clock now cache world ≡ some (r, cache', world')
      → (out : Fallible Bytes) × (r ≡ respond lib envelope.soap_version out)
  unfolding post serve
  response_follows_envelope table headers body cache cache' world world' version envelope r d p h =
      elim (Result-cases (select lib table headers envelope)) [
        | inr (fault, s) ↦ (err fault, ground arith)
        | inl (entry, s) ↦ elim (Option-cases (authorize lib svc entry envelope clock now cache)) [
          | inl stuck ↦ absurd (ground arith)
          | inr ((err fault, c), a) ↦ (err fault, ground arith)
          | inr ((ok user, c), a) ↦ ((invoke lib svc entry envelope world).0, ground arith)
        ]
      ]
