-- ===== src/Scope/Units.antt =====
-- The scope unit of a file: `scopeUnit`, `prefixUnit`, `modRootFor` and `unitFor`. The granularity is
-- a natural number; for a negative one the slice of `scopeUnit` would panic.
pub mod Elements
pub mod Laws
pub mod Covering
use gopls_lazy.Base.{
  ℕ, Str, str, str_eq, has_prefix, split, join, length, take, ltb, if◌then◌else◌, not, ◌||◌, Option,
  none, some, [], ◌++◌,
}
use gopls_lazy.Filepath.{sep, dir, rel}
use gopls_lazy.ModuleRoots.{FileSystem, root_for}
use gopls_lazy.Proxy.{Proxy}

-- `scopeUnit`
unfoldable pub scope_unit : Str → ℕ → Str
scope_unit r n =
    let segs = split b'/' r in join sep (if ltb n (length segs) then take n segs else segs)

-- `prefixUnit`
unfoldable pub prefix_unit : Str → Str → Str
prefix_unit prefix unit = if str_eq unit (str ".") then prefix else prefix ++ (sep ++ unit)

-- `modRootFor`
unfoldable pub mod_root_for : FileSystem → Proxy → Str → Str → Proxy × Str
mod_root_for fs p d root = elim p.mod_roots [
  | none ↦ (p, [])
  | some c ↦ let (c', v) = root_for fs c d root in (record p { mod_roots = some c' }, v)
]

module_prefix : Str → Str → Option Str → Option Str
module_prefix root unit none = none
module_prefix root unit (some prefix) = some (prefix_unit prefix unit)

unit_of_rel : ℕ → Str → Str → Option Str → Option Str
unit_of_rel n root m none = none
unit_of_rel n root m (some r) =
    let unit = if str_eq r (str ".") then str "." else scope_unit r n in
    if has_prefix r (str "..")
    then none
    else if str_eq m []
    then some unit
    else module_prefix root unit (rel root m)

-- `unitFor` from the module root on: the directory `d` belongs to the module rooted at `m`, or to the
-- main module if `m` is "".
unfoldable pub unit_in : ℕ → Str → Str → Str → Option Str
unfolding module_prefix unit_of_rel
unit_in n root d m = let base = if str_eq m [] then root else m in unit_of_rel n root m (rel base d)

-- `unitFor`
unfoldable pub unit_for : FileSystem → Proxy → Str → Proxy × Option Str
unit_for fs p path =
    let (p', m) = mod_root_for fs p (dir path) p.root in
    if str_eq p.root [] || not (has_prefix path (p.root ++ sep))
    then (p, none)
    else (p', unit_in p.granularity p.root (dir path) m)
