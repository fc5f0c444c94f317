-- ===== src/Crossref.antt =====
-- The cross-reference harness (crossref/src): the verdicts on a pair of responses and the
-- normalisation of the documents compared.
pub mod Verdict
pub mod Masks
pub mod Judgement
pub mod Order
pub mod Normalize
pub mod Drop
pub mod Pruning
pub mod Hiding
pub mod Reordering
pub mod Prefixes
pub mod Canonical
pub mod Equivalence
pub mod Covered
pub mod Renaming
pub mod Alike
pub mod Addresses
pub mod Agreement
