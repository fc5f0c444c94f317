-- ===== src/Lib.antt =====
-- soap-server: a WSDL-driven SOAP 1.1/1.2 server. This library models the core of the crate in
-- src/ of the repository and proves what a request must pass before its handler runs.
--
-- The program and its parts. A POST request goes through the steps of `soap_post_handler`
-- (src/server.rs): the SOAP version is detected, the envelope parsed (src/envelope.rs), the name
-- of the body element routed to an operation (src/dispatch.rs), the WS-Security token validated if
-- the operation is protected (src/wssec/), the body checked against the schema's required elements
-- (src/dispatch.rs), the handler called (src/handler.rs), and its result or a fault
-- (src/fault.rs) serialised. The routing table is built once from the resolved WSDL: the document
-- parsed (src/wsdl/parser.rs), merged with the documents that it imports (src/wsdl/resolver.rs),
-- and its schemas parsed, collected and resolved (src/xsd/). A second crate (crossref/) compares
-- the server's responses with its own earlier ones and with those of another implementation,
-- after a normalisation of both.
--
-- Which file models which part:
--   Prelude             byte strings, UTF-8, maps, results, runs on fuel, integers
--   Xml                 what the program sees of quick-xml: events, and readers as functions
--   Xml.Dom             what it sees of roxmltree: trees whose elements answer its queries
--   Qname               src/qname.rs
--   Fault               src/fault.rs: `SoapFault` and `to_xml_bytes_versioned`
--   Wsdl, Xsd           src/wsdl/definitions.rs, src/xsd/types.rs and elements.rs: the data
--   Xsd.Parse           src/xsd/parser.rs: `parse_schema` and the visitors
--   Xsd.Collect         src/xsd/resolver.rs: `collect_all_schemas`
--   Xsd.Resolve         src/xsd/resolver.rs: `resolve_named_type` and what it calls
--   Xsd.Registry        src/xsd/resolver.rs: `resolve_schema`
--   Wsdl.Parse          src/wsdl/parser.rs: `parse_wsdl` and what it calls
--   Wsdl.Resolve        src/wsdl/resolver.rs: `resolve_wsdl`
--   Wssec.NonceCache    src/wssec/nonce_cache.rs: `RotatingNonceCache`, `check_and_insert`
--   Wssec.Timestamp     src/wssec/timestamp.rs
--   Wssec.UsernameToken src/wssec/username_token.rs: `parse_username_token`, `validate_username_token`
--   Envelope            src/envelope.rs: `parse_envelope`, `serialize_envelope`
--   Dispatch            src/dispatch.rs: `build_dispatch_table`, `route`, `validate_request`
--   Wsdl.Address        src/wsdl/resolver.rs: `rewrite_wsdl_address`, and the same for one service
--   Server              src/server.rs and src/handler.rs: the handlers of POST and GET, their helpers,
--                       `ServerBuilder`, the loaders (Server.Loaders) and `build`
--   Crossref            crossref/src: `normalize`, `canonicalize_prefixes`, `mask_only` and its
--                       variant with drops (normalize.rs), `evaluate` and
--                       `evaluate_outcome_equivalence` (layer2/verdict.rs), and
--                       `check_single_rewrite_invariant` (layer2/mod.rs)
--   Tests               the theorems applied to concrete inputs
--
-- How code corresponds to the model. A function keeps its name; its early returns are an error of
-- the type `Fallible`. Mutable state is passed in and returned: the nonce cache, and the world that
-- the handlers act on. A loop over a reader is a recursion over its stream of events. Hash tables
-- are association lists, whose order stands for the order of iteration. What other crates do is a
-- parameter: quick-xml's readers (`Readers`), writer and escaping, base64, SHA-1, the constant-time
-- comparison and the time parser (`Crypto`), the header map (`HeaderMap`), roxmltree's reader,
-- reading a file. Of these only the comparison has a law: it tells whether two strings are equal.
-- In the harness an error is its message, and `none` stands for a panic of `evaluate`.
--
-- Bounds and fuel. The scan of an envelope's children runs on fuel, one more than the events are,
-- and never runs out. The rotation of the nonce cache reads a clock in its loop: the readings are
-- an argument, and the outcome `none` says that they did not suffice. The
-- resolution of a type takes a unit of fuel for each name that it follows: the source bounds it by
-- its cycle detection for types only, so groups have a fuel of their own. An imported document and
-- a schema taken from the queue take a unit each. The theorems on termination say how much is
-- enough; for groups that refer to themselves no fuel is.
-- Instants and times are natural numbers of nanoseconds; overflow of the time types is not modelled.
--
-- Not modelled: the reading of XML text into trees and events, the axum router with its body limit,
-- Debug output, logging, and of the cross-reference test crate what runs scenarios over the network,
-- compares fault codes and keeps snapshots. Requests are served one after another: the lock on the
-- nonce cache is held for the whole check.
mod Prelude
pub mod Qname
pub mod Xml
pub mod Fault
pub mod Wsdl
pub mod Xsd
pub mod Envelope
pub mod Crossref
pub mod Dispatch
pub mod Wssec
pub mod Server
mod Tests
