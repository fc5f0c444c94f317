-- ===== src/Server/Post.antt =====
-- The POST handlers `soap_post_handler` and `soap_post_handler_for_route` (src/server.rs). The
-- nonce cache behind the lock and the world that the handlers act on are passed along; the clock's
-- readings and the time of the request are arguments.
use soap_server.Prelude.{Bytes, bytes, ◌&&◌, Option, none, some, [], if◌then◌else◌, ok, err, ◌>>=◌}
use soap_server.Prelude.Int.{ℤ}
use soap_server.Fault.{SoapFault, Fallible, fail, to_xml_bytes_versioned}
use soap_server.Wsdl.Definitions.{SoapVersion, soap12}
use soap_server.Envelope.Parse.{ParsedEnvelope, detect_soap_version, parse_envelope}
use soap_server.Envelope.Serialize.{serialize_envelope, response_content_type}
use soap_server.Dispatch.Table.{DispatchEntry, DispatchTable}
use soap_server.Dispatch.Route.{route}
use soap_server.Dispatch.Validate.{validate_request}
use soap_server.Wssec.NonceCache.{NonceCache, Clock}
use soap_server.Wssec.Timestamp.{DateTime}
use soap_server.Wssec.UsernameToken.Validate.{validate_username_token}
use soap_server.Server.Handler.{SoapHandler}
use soap_server.Server.Request.{
  HeaderMap, content_type, soap_action, extract_body_qname, find_security_header,
}
use soap_server.Server.Service.{
  Library, Response, AuthFn, SoapService, SoapServiceRoute, Outcome, is_some,
}

module _ (lib : Library) where
  open lib use {readers, crypto, escape, utf8_message}

  unfoldable pub fault_response : SoapFault → SoapVersion → Response
  fault_response fault version = record {
    status = 500;
    content_type = some (response_content_type version);
    body = to_xml_bytes_versioned escape fault version;
  }

  unfoldable pub respond : SoapVersion → Fallible Bytes → Response
  unfolding fault_response
  respond version (err fault) = fault_response fault version
  respond version (ok body) = record {
    status = 200;
    content_type = some (response_content_type version);
    body = serialize_envelope body version;
  }

  abbrev validate_with :
      AuthFn → Bytes → Clock → ℤ → DateTime → NonceCache → Option (Fallible Bytes × NonceCache)
  validate_with none security clock tolerance now cache =
      some (fail (bytes "Authentication required but no credential store configured"), cache)
  validate_with (some get_password) security clock tolerance now cache =
      validate_username_token crypto (readers.plain security) get_password clock tolerance now cache

  abbrev validate_header :
      AuthFn
      → Option Bytes
      → Clock
      → ℤ
      → DateTime
      → NonceCache
      → Option (Fallible Bytes × NonceCache)
  validate_header auth none clock tolerance now cache =
      some (fail (bytes "WS-Security header required but not provided"), cache)
  validate_header auth (some security) clock tolerance now cache =
      validate_with auth security clock tolerance now cache

  module _ {W : Type 0} where
    -- Step 5. The user name returned is not used.
    unfoldable pub authorize :
        SoapService W
        → DispatchEntry (SoapHandler W)
        → ParsedEnvelope
        → Clock
        → DateTime
        → NonceCache
        → Option (Fallible Bytes × NonceCache)
    authorize svc entry envelope clock now cache =
        if entry.auth_required && is_some svc.auth_fn
        then validate_header svc.auth_fn (find_security_header readers envelope.header_children)
            clock svc.timestamp_tolerance_secs now cache
        else some (ok [], cache)

    -- Steps 3 and 4.
    unfoldable pub select :
        DispatchTable (SoapHandler W)
        → HeaderMap
        → ParsedEnvelope
        → Fallible (DispatchEntry (SoapHandler W))
    select table headers envelope = do
      body_qname ← extract_body_qname utf8_message readers envelope.body_element
      route table body_qname (soap_action headers)

    abbrev run_valid :
        Fallible (Unit {0})
        → DispatchEntry (SoapHandler W)
        → ParsedEnvelope
        → W
        → Fallible Bytes × W
    run_valid (err fault) entry envelope world = (err fault, world)
    run_valid (ok done) entry envelope world =
        entry.handler.handle_with_headers world envelope.body_element envelope.header_children

    -- Steps 6 and 7.
    unfoldable pub invoke :
        SoapService W → DispatchEntry (SoapHandler W) → ParsedEnvelope → W → Fallible Bytes × W
    invoke svc entry envelope world =
        run_valid
          (validate_request utf8_message (readers.plain envelope.body_element) svc.type_registry
            entry.validation_type)
          entry envelope world

    abbrev invoke_admitted :
        SoapService W
        → DispatchEntry (SoapHandler W)
        → ParsedEnvelope
        → W
        → Option (Fallible Bytes × NonceCache)
        → Option (Outcome W)
    invoke_admitted svc entry envelope world none = none
    invoke_admitted svc entry envelope world (some (err fault, cache)) =
        some (respond envelope.soap_version (err fault), cache, world)
    invoke_admitted svc entry envelope world (some (ok user, cache)) =
        let (out, world') = invoke svc entry envelope world in
        some (respond envelope.soap_version out, cache, world')

    abbrev serve_selected :
        SoapService W
        → ParsedEnvelope
        → Clock
        → DateTime
        → NonceCache
        → W
        → Fallible (DispatchEntry (SoapHandler W))
        → Option (Outcome W)
    serve_selected svc envelope clock now cache world (err fault) =
        some (respond envelope.soap_version (err fault), cache, world)
    serve_selected svc envelope clock now cache world (ok entry) =
        invoke_admitted svc entry envelope world (authorize svc entry envelope clock now cache)

    -- Steps 3 to 8, for an envelope.
    unfoldable pub serve :
        SoapService W
        → DispatchTable (SoapHandler W)
        → HeaderMap
        → ParsedEnvelope
        → Clock
        → DateTime
        → NonceCache
        → W
        → Option (Outcome W)
    serve svc table headers envelope clock now cache world =
        serve_selected svc envelope clock now cache world (select table headers envelope)

    abbrev serve_parsed :
        SoapService W
        → DispatchTable (SoapHandler W)
        → HeaderMap
        → Clock
        → DateTime
        → NonceCache
        → W
        → SoapVersion
        → Option (Fallible ParsedEnvelope)
        → Option (Outcome W)
    serve_parsed svc table headers clock now cache world version none = none
    serve_parsed svc table headers clock now cache world version (some (err fault)) =
        some (fault_response fault version, cache, world)
    serve_parsed svc table headers clock now cache world version (some (ok envelope)) =
        serve svc table headers envelope clock now cache world

    abbrev serve_detected :
        SoapService W
        → DispatchTable (SoapHandler W)
        → HeaderMap
        → Bytes
        → Clock
        → DateTime
        → NonceCache
        → W
        → Fallible SoapVersion
        → Option (Outcome W)
    serve_detected svc table headers body clock now cache world (err fault) =
        some (fault_response fault soap12, cache, world)
    serve_detected svc table headers body clock now cache world (ok version) =
        serve_parsed svc table headers clock now cache world version
          (parse_envelope (readers.resolved body))

    -- The steps that both handlers write out, with the table that each of them uses.
    unfoldable pub post :
        SoapService W
        → DispatchTable (SoapHandler W)
        → HeaderMap
        → Bytes
        → Clock
        → DateTime
        → NonceCache
        → W
        → Option (Outcome W)
    post svc table headers body clock now cache world =
        serve_detected svc table headers body clock now cache world
          (detect_soap_version (content_type headers))

    unfoldable pub soap_post_handler :
        SoapService W → HeaderMap → Bytes → Clock → DateTime → NonceCache → W → Option (Outcome W)
    soap_post_handler svc = post svc svc.dispatch_table

    unfoldable pub soap_post_handler_for_route :
        SoapServiceRoute W
        → HeaderMap
        → Bytes
        → Clock
        → DateTime
        → NonceCache
        → W
        → Option (Outcome W)
    soap_post_handler_for_route r = post r.svc r.table
