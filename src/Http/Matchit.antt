-- ===== src/Http/Matchit.antt =====
-- What the code uses of the crate matchit: routers from patterns to values, which are tried at a path
-- and give the value with the parameters of the path. And `char::is_alphanumeric` of the first
-- character of a text: the bytes of the character, or 0.
use forgeguard.Base.{ℕ, Str, List, Option}
use forgeguard.Base.Result.{Result}

pub record Matchit : Type 1 where
  pub Router : Type 0 → Type 0
  pub new : (V : Type 0) → Router V
  -- An error is its text.
  pub insert : (V : Type 0) → Router V → Str → V → Result Str (Router V)
  pub at : (V : Type 0) → Router V → Str → Option (V × List (Str × Str))
  pub alphanumeric : Str → ℕ
