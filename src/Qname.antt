-- ===== src/Qname.antt =====
-- Qualified XML names (src/qname.rs).
use soap_server.Prelude.{
  Bytes, bytes, Bool, true, false, ◌&&◌, Option, none, some, ◌++◌, ◌≡◌, ◌↔◌, arith, Eq, ◌==◌,
  str_eq, str_beq_iff,
}

pub record QName : Type 0 where
  pub namespace : Option Bytes
  pub local_name : Bytes

-- `QName::new`
abbrev pub new : Bytes → Bytes → QName
new ns name = record { namespace = some ns; local_name = name }

-- `QName::local`
abbrev pub local : Bytes → QName
local name = record { namespace = none; local_name = name }

abbrev display_with : Option Bytes → Bytes → Bytes
display_with none name = name
display_with (some ns) name = bytes "{" ++ ns ++ bytes "}" ++ name

-- The `Display` of a name, which error messages quote.
unfoldable pub display : QName → Bytes
display q = display_with q.namespace q.local_name

-- The derived `PartialEq`.
abbrev namespace_beq : Option Bytes → Option Bytes → Bool
namespace_beq none none = true
namespace_beq (some a) (some b) = a == b
namespace_beq _ _ = false

unfoldable pub qname_beq : QName → QName → Bool
qname_beq a b = namespace_beq a.namespace b.namespace && a.local_name == b.local_name

namespace_beq_iff : (a b : Option Bytes) → (namespace_beq a b ≡ true) ↔ (a ≡ b)
namespace_beq_iff none none = ground arith
namespace_beq_iff none (some b) = ground arith
namespace_beq_iff (some a) none = ground arith
namespace_beq_iff (some a) (some b) = ground (arith, str_beq_iff a b)

pub qname_beq_iff : (a b : QName) → (qname_beq a b ≡ true) ↔ (a ≡ b)
unfolding qname_beq
qname_beq_iff a b =
    ground (arith, namespace_beq_iff a.namespace b.namespace, str_beq_iff a.local_name b.local_name)

instance abbrev pub qname_eq : Eq QName
qname_eq = record { beq = qname_beq; beq_iff = qname_beq_iff }
