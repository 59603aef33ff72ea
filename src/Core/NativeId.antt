-- ===== src/Core/NativeId.antt =====
-- crates/core/src/native_id.rs: the application's own identifiers.
use forgeguard.Base.{
  ℕ, Str, String, ◌≡◌, ◌↔◌, Bool, true, false, not, [], ◌∷◌, ◌++◌, all, contains, ◌=ℕ◌, arith, Eq,
  nat_eq, list_beq, list_beq_iff, if◌then◌else◌, contains-append, all-append, ◌≢◌,
}
use forgeguard.Base.Text.{is_ascii_graphic}
use forgeguard.Base.Result.{ok, err}
use forgeguard.Core.Error.{Error, CoreResult}

pub record NativeId : Type 0 where
  pub raw : Str

abbrev pub native_id_beq : NativeId → NativeId → Bool
native_id_beq a b = list_beq a.raw b.raw

pub native_id_beq_iff : (a b : NativeId) → (native_id_beq a b ≡ true) ↔ (a ≡ b)
native_id_beq_iff a b = ground (arith, list_beq_iff a.raw b.raw)

instance abbrev pub native_id_eq : Eq NativeId
native_id_eq = record { beq = native_id_beq; beq_iff = native_id_beq_iff }

abbrev native_id_error : Str → String → Error
native_id_error s reason = Error.parse "native_id" s reason

unfoldable pub try_new : Str → CoreResult NativeId
try_new [] = err (native_id_error [] "cannot be empty")
try_new (b ∷ s) =
    if not (all is_ascii_graphic (b ∷ s))
    then err (native_id_error (b ∷ s) "must be visible ASCII only")
    else if contains (b ∷ s) b':'
    then err (native_id_error (b ∷ s) "must not contain ':'")
    else if contains (b ∷ s) b'*'
    then err (native_id_error (b ∷ s) "must not contain '*'")
    else ok (record { raw = b ∷ s })

abbrev pub IsValid : Str → Type 0
IsValid s =
    (s ≢ [])
    × (all is_ascii_graphic s ≡ true)
    × (contains s b':' ≡ false)
    × (contains s b'*' ≡ false)

pub try_new-iff-IsValid : (s : Str) → (try_new s ≡ ok (record { raw = s })) ↔ IsValid s
unfolding try_new
try_new-iff-IsValid [] = ground arith
try_new-iff-IsValid (b ∷ s) = ground arith

pub raw-try_new : (s : Str) (id : NativeId) → try_new s ≡ ok id → id.raw ≡ s
unfolding try_new
raw-try_new [] id h = cc
raw-try_new (b ∷ s) id h = ground arith

pub IsValid-append :
    (a : Str) (c : ℕ) (b : Str)
    → (all is_ascii_graphic a ≡ true) × (contains a b':' ≡ false) × (contains a b'*' ≡ false)
    → (is_ascii_graphic c ≡ true) × ((c =ℕ b':') ≡ false) × ((c =ℕ b'*') ≡ false)
    → IsValid b
    → IsValid (a ++ c ∷ b)
IsValid-append [] c b ha hc hb = ground arith
IsValid-append (x ∷ a) c b ha hc hb = ground (
  arith,
  all-append is_ascii_graphic a (c ∷ b),
  contains-append a (c ∷ b) b':',
  contains-append a (c ∷ b) b'*',
)
