-- ===== src/Core/Fgrn/WellFormed.antt =====
-- What it is for an FGRN to be well formed.
use forgeguard.Base.{
  ℕ, Str, ◌≡◌, refl, true, false, [], ◌∷◌, ◌++◌, Option, none, some, arith, all, contains, nat_eq,
}
use forgeguard.Base.Text.{all-contains-false}
use forgeguard.Base.Result.{ok}
use forgeguard.Core.Segment
use forgeguard.Core.Segment.{Segment, segment_byte}
use forgeguard.Core.NativeId
use forgeguard.Core.NativeId.{NativeId}
use forgeguard.Core.Fgrn.{FgrnKind, resource, Fgrn, new}

abbrev pub ValidSegment : Segment → Type 0
ValidSegment a = Segment.try_new a.raw ≡ ok a

abbrev pub ValidId : NativeId → Type 0
ValidId a = NativeId.try_new a.raw ≡ ok a

-- A resource's id is its type and its native id with a slash between them, and no other kind has
-- these two parts.
abbrev pub Shape : FgrnKind → Option Segment → Option NativeId → NativeId → Type 0
Shape resource (some a) (some b) id = ValidSegment a × ValidId b × (id.raw ≡ a.raw ++ b'/' ∷ b.raw)
Shape resource _ _ id = ⊥
Shape _ none none id = Unit
Shape _ _ _ id = ⊥

pub record IsWellFormed (f : Fgrn) : Type 0 where
  pub organization : ValidSegment f.organization
  pub id : ValidId f.id
  pub shape : Shape f.kind f.resource_type f.native_id f.id
  pub canonical : f ≡ new f.organization f.kind f.id f.resource_type f.native_id

pub all-segment_byte :
    (s : Str) (a : Segment) → Segment.try_new s ≡ ok a → all segment_byte s ≡ true
unfolding Segment.try_new
all-segment_byte [] a h = refl
all-segment_byte (b ∷ s) a h = ground arith

pub no_byte :
    (c : ℕ) (a : Segment) → segment_byte c ≡ false → ValidSegment a → contains a.raw c ≡ false
no_byte c a p v = all-contains-false segment_byte c a.raw p (all-segment_byte a.raw a v)
