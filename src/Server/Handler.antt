-- ===== src/Server/Handler.antt =====
-- `SoapHandler` and `FnHandler` of src/handler.rs. What a handler acts on (a database, say) is a
-- state of the type `W`, passed to it and returned by it.
use soap_server.Prelude.{Bytes, List}
use soap_server.Fault.{Fallible}

pub record SoapHandler (W : Type 0) : Type 0 where
  pub handle : W → Bytes → Fallible Bytes × W
  pub handle_with_headers : W → Bytes → List Bytes → Fallible Bytes × W

-- The handler of a trait implementation that leaves `handle_with_headers` at its default.
abbrev pub with_default : {W : Type 0} → (W → Bytes → Fallible Bytes × W) → SoapHandler W
with_default handle = record {
  handle = handle;
  handle_with_headers = λ world body headers. handle world body;
}

-- `FnHandler::new`
abbrev pub fn_handler : {W : Type 0} → (W → Bytes → Fallible Bytes × W) → SoapHandler W
fn_handler f = with_default (λ world body. f world body)
