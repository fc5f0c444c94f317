-- ===== src/Server/Service.antt =====
-- `SoapService`, responses, and the code of the other crates (src/server.rs).
use soap_server.Prelude.{ℕ, Bytes, Bool, true, false, Option, none, some, List, List}
use soap_server.Prelude.Int.{ℤ}
use soap_server.Xml.{Event, Readers}
use soap_server.Xsd.Types.{TypeRegistry}
use soap_server.Dispatch.Table.{DispatchTable}
use soap_server.Wssec.NonceCache.{NonceCache}
use soap_server.Wssec.UsernameToken.Validate.{Crypto}
use soap_server.Server.Handler.{SoapHandler}

-- The code of the other crates.
pub record Library : Type 0 where
  pub readers : Readers
  pub crypto : Crypto
  -- `quick_xml::escape::escape`
  pub escape : Bytes → Bytes
  -- `Writer`: the text of the events written
  pub write : List Event → Bytes
  -- the text of a `Utf8Error`
  pub utf8_message : Bytes → Bytes

pub record Response : Type 0 where
  pub status : ℕ
  pub content_type : Option Bytes
  pub body : Bytes

abbrev pub AuthFn : Type 0
AuthFn = Option (Bytes → Option Bytes)

-- `SoapService`, without the nonce cache, which changes.
pub record SoapService (W : Type 0) : Type 0 where
  pub dispatch_table : DispatchTable (SoapHandler W)
  pub service_tables : List (Bytes × DispatchTable (SoapHandler W))
  pub service_path_names : List (Bytes × Bytes)
  pub type_registry : TypeRegistry
  pub wsdl_raw : Bytes
  pub auth_fn : AuthFn
  pub timestamp_tolerance_secs : ℤ
  pub mount_path : Bytes
  pub max_body_bytes : ℕ

-- `SoapServiceRoute`
pub record SoapServiceRoute (W : Type 0) : Type 0 where
  pub svc : SoapService W
  pub table : DispatchTable (SoapHandler W)
  pub service_name : Bytes

-- The response, with the cache and the world after it.
abbrev pub Outcome : Type 0 → Type 0
Outcome W = Response × NonceCache × W

abbrev pub is_some : AuthFn → Bool
is_some none = false
is_some (some f) = true
