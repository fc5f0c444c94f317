-- ===== src/Server/Wsdl.antt =====
-- The GET handlers `wsdl_get_handler` and `wsdl_get_handler_for_route` (src/server.rs).
use soap_server.Prelude.{Bytes, bytes, Option, none, some, [], ◌++◌}
use soap_server.Wsdl.Address.{rewrite_wsdl_address, rewrite_wsdl_address_for_service}
use soap_server.Server.Request.{HeaderMap, and_then, or_else, unwrap_or}
use soap_server.Server.Service.{Library, Response, SoapService, SoapServiceRoute}

abbrev pub not_found : Response
not_found = record { status = 404; content_type = none; body = [] }

-- `host`: the forwarded host before the host.
unfoldable pub host_of : HeaderMap → Bytes
host_of headers =
    unwrap_or
      (and_then (or_else (headers.get (bytes "x-forwarded-host")) (headers.get (bytes "host")))
        headers.to_str)
      (bytes "localhost")

-- `server_url`, from the matched path if there is one.
unfoldable pub server_url : HeaderMap → Option Bytes → Bytes → Bytes
server_url headers matched_path mount_path =
    bytes "http://" ++ host_of headers ++ unwrap_or matched_path mount_path

abbrev pub wsdl_response : Bytes → Response
wsdl_response body = record {
  status = 200;
  content_type = some (bytes "text/xml; charset=utf-8");
  body = body;
}

-- `wsdl` is the query parameter.
module _ {W : Type 0} (lib : Library) where
  open lib use {readers, escape}

  unfoldable pub wsdl_get_handler :
      Option Bytes → SoapService W → Option Bytes → HeaderMap → Response
  wsdl_get_handler matched_path svc none headers = not_found
  wsdl_get_handler matched_path svc (some wsdl) headers = wsdl_response (
      lib.write (
        rewrite_wsdl_address escape (readers.raw svc.wsdl_raw)
          (server_url headers matched_path svc.mount_path)))

  unfoldable pub wsdl_get_handler_for_route :
      Option Bytes → SoapServiceRoute W → Option Bytes → HeaderMap → Response
  wsdl_get_handler_for_route matched_path route none headers = not_found
  wsdl_get_handler_for_route matched_path route (some wsdl) headers = wsdl_response (
      lib.write (
        rewrite_wsdl_address_for_service escape (readers.raw route.svc.wsdl_raw)
          (server_url headers matched_path route.svc.mount_path) route.service_name))
