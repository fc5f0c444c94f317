-- ===== src/Dispatch/Entries.antt =====
-- Where the entries of a built routing table come from.
use soap_server.Prelude.{
  ◌≡◌, refl, ◌⊎◌, inl, inr, arith, Bytes, not, Bool-cases, Option, none, some, Option-cases, List,
  [], ◌∷◌, Map, lookup, insert, lookup-insert, contains, insert_set, str_eq, Eq, ◌==◌, Result-cases,
  ok, ok_or, ok_or-eq-ok, >>=-eq-ok,
}
use soap_server.Qname.{QName, qname_eq}
use soap_server.Wsdl.Resolved.{ResolvedWsdl}
use soap_server.Dispatch.Table.{DispatchEntry, DispatchTable}
use soap_server.Dispatch.Operations.{BoundOp}
use soap_server.Dispatch.Build.{
  choose, index_element, index_action, check_consumed, entry_of, build_from, input_types,
  build_dispatch_table_from_ops,
}
use soap_server.Dispatch.Route.{route}

-- The operation is one of the list.
abbrev pub Among : BoundOp → List BoundOp → Type 0
Among op [] = ⊥
Among op (o ∷ ops) = (o ≡ op) ⊎ Among op ops

module _ {H : Type 0} where
  -- Every entry of a map has the property, at its key.
  abbrev pub AllEntries {ℓ} :
      {K : Type ℓ} ⦃e : Eq K⦄ → (K → DispatchEntry H → Type 0) → Map K (DispatchEntry H) → Type ℓ
  AllEntries {K} P m = (k : K) (entry : DispatchEntry H) → lookup k m ≡ some entry → P k entry

  AllEntries-insert {ℓ} :
      {K : Type ℓ} ⦃e : Eq K⦄ (P : K → DispatchEntry H → Type 0) (k : K) (entry : DispatchEntry H)
      (m : Map K (DispatchEntry H))
      → P k entry
      → AllEntries P m
      → AllEntries P (insert k entry m)
  AllEntries-insert ⦃e⦄ P k entry m p all j found h = elim (Bool-cases (k == j)) [
    | inl same ↦
        let k-eq : k ≡ j = (e.beq_iff k j).0 same in
        let value : entry ≡ found = ground (arith, lookup-insert k j entry m) in
        rw (← k-eq, ← value) p
    | inr differs ↦ all j found (ground (arith, lookup-insert k j entry m))
  ]

  index_element-AllEntries :
      (P : DispatchEntry H → Type 0) (o : Option QName) (entry : DispatchEntry H)
      (m : Map QName (DispatchEntry H))
      → entry.input_type ≡ o
      → P entry
      → AllEntries (λ q entry. P entry × (entry.input_type ≡ some q)) m
      → AllEntries (λ q entry. P entry × (entry.input_type ≡ some q)) (index_element o entry m)
  index_element-AllEntries P none entry m e p all = all
  index_element-AllEntries P (some q) entry m e p all =
      AllEntries-insert (λ q entry. P entry × (entry.input_type ≡ some q)) q entry m (p, e) all

  index_action-AllEntries :
      (P : DispatchEntry H → Type 0) (a : Bytes) (entry : DispatchEntry H)
      (m : Map Bytes (DispatchEntry H))
      → P entry
      → AllEntries (λ a entry. P entry) m
      → AllEntries (λ a entry. P entry) (index_action a entry m)
  index_action-AllEntries P [] entry m p all = all
  index_action-AllEntries P (c ∷ a) entry m p all =
      AllEntries-insert (λ a entry. P entry) (c ∷ a) entry m p all

  route-by_action :
      (t : DispatchTable H) (name : QName) (soap_action : Option Bytes) (entry : DispatchEntry H)
      → lookup name t.by_element ≡ none
      → route t name soap_action ≡ ok entry
      → (action : Bytes) × (lookup action t.by_action ≡ some entry)
  unfolding route
  route-by_action t name none entry missing routed = absurd (ground arith)
  route-by_action t name (some action) entry missing routed = (action, ground arith)

  module _ (r : ResolvedWsdl) (handlers : Map Bytes H) (auth_bypass : List Bytes)
      (default_handler : Option H) where
    -- The entry is that of one of the operations.
    abbrev pub IsEntryAmong : List BoundOp → DispatchEntry H → Type 0
    IsEntryAmong ops entry =
        (op : BoundOp) × Among op ops
        × (entry_of r handlers auth_bypass default_handler op ≡ ok entry)

    module _ (P : DispatchEntry H → Type 0) where
      build_from-AllEntries :
          (ops : List BoundOp) (be : Map QName (DispatchEntry H)) (ba : Map Bytes (DispatchEntry H))
          (consumed : List Bytes) (t : DispatchTable H)
          → ((op : BoundOp) (entry : DispatchEntry H)
              → Among op ops
              → entry_of r handlers auth_bypass default_handler op ≡ ok entry
              → P entry)
          → AllEntries (λ q entry. P entry × (entry.input_type ≡ some q)) be
          → AllEntries (λ a entry. P entry) ba
          → build_from r handlers auth_bypass default_handler ops be ba consumed ≡ ok t
          → AllEntries (λ q entry. P entry × (entry.input_type ≡ some q)) t.by_element
            × AllEntries (λ a entry. P entry) t.by_action
      unfolding build_from
      build_from-AllEntries [] be ba consumed t p hbe hba h =
          let (_, _, h) = >>=-eq-ok (check_consumed consumed handlers) _ h in
          let elements : t.by_element ≡ be = ground arith in
          let actions : t.by_action ≡ ba = ground arith in rw (elements, actions) (hbe, hba)
      build_from-AllEntries (op ∷ ops) be ba consumed t p hbe hba h =
          elim (Result-cases (entry_of r handlers auth_bypass default_handler op)) [
            | inr (fault, e) ↦ absurd (ground arith)
            | inl (entry, e) ↦
                build_from-AllEntries ops (index_element entry.input_type entry be)
                  (index_action op.soap_action entry ba) (insert_set op.name consumed) t
                  (λ o x among. p o x (inr among))
                  (index_element-AllEntries P entry.input_type entry be refl
                    (p op entry (inl refl) e) hbe)
                  (index_action-AllEntries P op.soap_action entry ba (p op entry (inl refl) e) hba)
                  (rw (e, build_from) at h)
          ]

    build-AllEntries :
        (ops : List BoundOp) (t : DispatchTable H)
        → build_dispatch_table_from_ops r handlers auth_bypass default_handler ops ≡ ok t
        → AllEntries (λ q entry. IsEntryAmong ops entry × (entry.input_type ≡ some q)) t.by_element
          × AllEntries (λ a entry. IsEntryAmong ops entry) t.by_action
    unfolding build_dispatch_table_from_ops lookup
    build-AllEntries ops t built =
        build_from-AllEntries (IsEntryAmong ops) ops [] [] [] t (λ op entry among e. (op, among, e))
          (λ k entry h. absurd (ground arith)) (λ k entry h. absurd (ground arith)) built

    -- What an entry owes to its operation.
    pub record Serves (op : BoundOp) (entry : DispatchEntry H) : Type 0 where
      pub handler : choose (lookup op.name handlers) default_handler ≡ some entry.handler
      pub auth : entry.auth_required ≡ not (contains auth_bypass op.name)
      pub types : input_types r op ≡ ok (entry.input_type, entry.validation_type)

    entry_of-Serves :
        (op : BoundOp) (entry : DispatchEntry H)
        → entry_of r handlers auth_bypass default_handler op ≡ ok entry
        → Serves op entry
    unfolding entry_of
    entry_of-Serves op entry h =
        let (handler, e, h) =
          >>=-eq-ok (ok_or _ (choose (lookup op.name handlers) default_handler)) _ h in
        let ((input, validation), t, h) = >>=-eq-ok (input_types r op) _ h in
        record {
          handler = cc (ok_or-eq-ok _ (choose (lookup op.name handlers) default_handler) e);
          auth = cc;
          types = cc;
        }

    -- In a built routing table a routed request gets the entry of one of the operations:
    -- its handler is the one registered for the operation or the default, it is exempt
    -- from authentication exactly if the operation is bypassed, and a routing by element
    -- is to an operation whose input has that name.
    pub route-Serves :
        (ops : List BoundOp) (t : DispatchTable H) (name : QName) (soap_action : Option Bytes)
        (entry : DispatchEntry H)
        → build_dispatch_table_from_ops r handlers auth_bypass default_handler ops ≡ ok t
        → route t name soap_action ≡ ok entry
        → (op : BoundOp) × Among op ops
          × Serves op entry
          × ((entry.input_type ≡ some name) ⊎ (lookup name t.by_element ≡ none))
    route-Serves ops t name soap_action entry built routed =
        let (elements, actions) = build-AllEntries ops t built in
        elim (Option-cases (lookup name t.by_element)) [
          | inr (x, e) ↦
              let same : x ≡ entry = unfold route in ground arith in
              let ((op, among, made), input) = elements name x e in
              rw (← same) (op, among, entry_of-Serves op x made, inl input)
          | inl missing ↦
              let (action, e) = route-by_action t name soap_action entry missing routed in
              let (op, among, made) = actions action entry e in
              (op, among, entry_of-Serves op entry made, inr missing)
        ]
