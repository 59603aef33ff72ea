-- ===== src/Core/Selector.antt =====
-- crates/core/src/selector.rs: the text of position queries, `org:{organization}.{id}.{id}/**`.
pub mod RoundTrip
pub mod Resolve
pub mod Resolved
pub mod Sorted
mod Tests
use forgeguard.Base.{
  ℕ, Str, Bool, true, false, List, [], ◌∷◌, ◌++◌, Option, none, some, codes, contains, nat_eq, ◌=ℕ◌,
  list_beq, if◌then◌else◌, String,
}
use forgeguard.Base.Text.{on_first}
use forgeguard.Base.Result.{Result, ok, err, ◌>>=◌, ◌>>◌, ensure}
use forgeguard.Core.Error.{Error, CoreResult}
use forgeguard.Core.Segment
use forgeguard.Core.Segment.{Segment}
use forgeguard.Core.NativeId
use forgeguard.Core.NativeId.{NativeId}

pub data SelectorScope : Type 0 where
  node subtree : SelectorScope

pub record Selector : Type 0 where
  pub organization : Segment
  pub path : List NativeId
  pub scope : SelectorScope

-- A dot and the id, for each id of the path.
abbrev pub path_text : List NativeId → Str
path_text [] = []
path_text (id ∷ path) = b'.' ∷ (id.raw ++ path_text path)

abbrev pub scope_text : SelectorScope → Str
scope_text node = []
scope_text subtree = codes "/**"

-- `Display`
unfoldable pub display : Selector → Str
display s = codes "org:" ++ ((s.organization.raw ++ path_text s.path) ++ scope_text s.scope)

-- `str::strip_prefix`
unfoldable pub strip_prefix : Str → Str → Option Str
strip_prefix [] s = some s
strip_prefix (a ∷ prefix) [] = none
strip_prefix (a ∷ prefix) (b ∷ s) = if a =ℕ b then strip_prefix prefix s else none

abbrev pub put_first : ℕ → Option Str → Option Str
put_first b none = none
put_first b (some s) = some (b ∷ s)

-- `str::strip_suffix`
unfoldable pub strip_suffix : Str → Str → Option Str
strip_suffix suffix [] = if list_beq [] suffix then some [] else none
strip_suffix suffix (b ∷ s) =
    if list_beq (b ∷ s) suffix then some [] else put_first b (strip_suffix suffix s)

-- `str::split` at a byte: the first part, and the others.
unfoldable pub split : ℕ → Str → Str × List Str
split c [] = ([], [])
split c (b ∷ s) =
    let (first, others) = split c s in if b =ℕ c then ([], first ∷ others) else (b ∷ first, others)

-- The ids of the path, up to the first error.
unfoldable pub try_ids : List Str → CoreResult (List NativeId)
try_ids [] = ok []
try_ids (part ∷ parts) = do id ← NativeId.try_new part; ids ← try_ids parts; ok (id ∷ ids)

abbrev pub stripped : Str → Option Str → Str × SelectorScope
stripped body (some rest) = (rest, subtree)
stripped body none = (body, node)

unfoldable pub parse_body : Str → Str × SelectorScope → CoreResult Selector
parse_body s (body, scope) =
    if contains body b'/'
    then err (Error.parse "selector" s "selector path may only end with /**")
    else (do
      organization ← Segment.try_new (split b'.' body).0
      path ← try_ids (split b'.' body).1
      ok (record { organization = organization; path = path; scope = scope }))

-- `Selector::from_str`
unfoldable pub from_str : Str → CoreResult Selector
from_str s = elim (strip_prefix (codes "org:") s) [
  | none ↦ err (Error.parse "selector" s "selector must start with org:")
  | some body ↦ parse_body s (stripped body (strip_suffix (codes "/**") body))
]
