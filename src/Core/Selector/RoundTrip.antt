-- ===== src/Core/Selector/RoundTrip.antt =====
-- Reading back the text of a selector.
use forgeguard.Base.{
  ℕ, Str, ◌≡◌, refl, false, List, [], ◌∷◌, ◌++◌, none, some, codes, contains, nat_eq, arith, All,
  ap, ◌∙◌, contains-append, append-nil,
}
use forgeguard.Base.Result.{ok}
use forgeguard.Core.NativeId.{NativeId}
use forgeguard.Core.Fgrn.WellFormed.{ValidSegment, ValidId, no_byte}
use forgeguard.Core.Selector.{
  Selector, SelectorScope, node, subtree, path_text, scope_text, display, strip_prefix,
  strip_suffix, split, try_ids, stripped, parse_body, from_str,
}

-- An id that stands in a selector: valid, and without the two bytes that a selector's text uses.
abbrev pub Plain : NativeId → Type 0
Plain id = ValidId id × (contains id.raw b'.' ≡ false) × (contains id.raw b'/' ≡ false)

abbrev raws : List NativeId → List Str
raws [] = []
raws (id ∷ ids) = id.raw ∷ raws ids

strip_suffix-none : (s : Str) → contains s b'/' ≡ false → strip_suffix (codes "/**") s ≡ none
unfolding strip_suffix
strip_suffix-none [] h = refl
strip_suffix-none (b ∷ s) h = ground (arith, strip_suffix-none s)

strip_suffix-some :
    (s : Str) → contains s b'/' ≡ false → strip_suffix (codes "/**") (s ++ codes "/**") ≡ some s
unfolding strip_suffix
strip_suffix-some [] h = refl
strip_suffix-some (b ∷ s) h = ground (arith, strip_suffix-some s)

split-whole : (c : ℕ) (s : Str) → contains s c ≡ false → split c s ≡ (s, [])
unfolding split
split-whole c [] h = refl
split-whole c (b ∷ s) h = ground (arith, split-whole c s)

split-append :
    (c : ℕ) (s t : Str)
    → contains s c ≡ false
    → split c (s ++ c ∷ t) ≡ (s, (split c t).0 ∷ (split c t).1)
unfolding split
split-append c [] t h = ground arith
split-append c (b ∷ s) t h = ground (arith, split-append c s t)

split-path_text :
    (first : Str) (ids : List NativeId)
    → contains first b'.' ≡ false
    → All Plain ids
    → split b'.' (first ++ path_text ids) ≡ (first, raws ids)
split-path_text first [] h plain = ap (split b'.') (append-nil first) ∙ split-whole b'.' first h
split-path_text first (id ∷ ids) h (p, plain) =
    split-append b'.' first (id.raw ++ path_text ids) h
    ∙ ap (λ (q : Str × List Str). (first, q.0 ∷ q.1)) (split-path_text id.raw ids p.1 plain)

path_text-no_slash : (ids : List NativeId) → All Plain ids → contains (path_text ids) b'/' ≡ false
path_text-no_slash [] plain = refl
path_text-no_slash (id ∷ ids) (p, plain) =
    ground (arith, contains-append id.raw (path_text ids) b'/', path_text-no_slash ids plain, p.2)

try_ids-raws : (ids : List NativeId) → All Plain ids → try_ids (raws ids) ≡ ok ids
unfolding try_ids
try_ids-raws [] plain = refl
try_ids-raws (id ∷ ids) (p, plain) = rw (p.0, try_ids-raws ids plain) refl

stripped-display :
    (body : Str) (scope : SelectorScope)
    → contains body b'/' ≡ false
    → stripped (body ++ scope_text scope) (strip_suffix (codes "/**") (body ++ scope_text scope))
      ≡ (body, scope)
stripped-display body node h = rw (append-nil body) (ap (stripped body) (strip_suffix-none body h))
stripped-display body subtree h = ap (stripped (body ++ codes "/**")) (strip_suffix-some body h)

parse_body-display :
    (text : Str) (s : Selector)
    → ValidSegment s.organization
    → All Plain s.path
    → contains (s.organization.raw ++ path_text s.path) b'/' ≡ false
    → parse_body text (s.organization.raw ++ path_text s.path, s.scope) ≡ ok s
unfolding parse_body
parse_body-display text s v plain h =
    rw
      (
        h,
        split-path_text s.organization.raw s.path (no_byte b'.' s.organization refl v) plain,
        v,
        try_ids-raws s.path plain,
      )
      refl

-- A selector is read back from its text, if its organization is valid and the ids of its path are
-- valid and have neither a dot nor a slash.
pub from_str-display :
    (s : Selector) → ValidSegment s.organization → All Plain s.path → from_str (display s) ≡ ok s
unfolding from_str display strip_prefix
from_str-display s v plain =
    let body = s.organization.raw ++ path_text s.path in
    let no_slash : contains (s.organization.raw ++ path_text s.path) b'/' ≡ false = ground (
      arith,
      contains-append s.organization.raw (path_text s.path) b'/',
      no_byte b'/' s.organization refl v,
      path_text-no_slash s.path plain,
    ) in
    ap (parse_body (display s)) (stripped-display body s.scope no_slash)
    ∙ parse_body-display (display s) s v plain no_slash
