-- ===== src/RevIndex.antt =====
-- revindex.go: the reverse-import index.
pub mod Closure
pub mod Update
pub mod Build
pub mod Samples
use gopls_lazy.Base.{ℕ, Str, List, Map, lookup, get_or, []}

-- `indexedSymbol` of symbols.go.
pub record IndexedSymbol : Type 0 where
  pub name : Str
  pub kind : ℕ
  pub container_name : Str
  pub rel_file : Str
  pub start_line : ℕ
  pub start_char : ℕ
  pub end_line : ℕ
  pub end_char : ℕ

-- `revIndex`: all keys are relative to the root of the module.
pub record RevIndex : Type 0 where
  pub root : Str
  pub mod_path : Str
  pub file_imports : Map (List Str)
  pub file_symbols : Map (List IndexedSymbol)
  pub importers : Map (List Str)

-- `importers[d]`, a nil set where there is no entry.
abbrev pub importers_of : Map (List Str) → Str → List Str
importers_of m d = get_or (lookup d m) []
