-- ===== src/Http/Method.antt =====
-- crates/http/src/method.rs: the HTTP methods of routes.
use forgeguard.Base.{
  Str, Bool, true, false, ◌||◌, ◌++◌, codes, ◌==◌, nat_eq, list_eq, if◌then◌else◌, Eq, ◌≡◌, ◌↔◌,
  arith, refl,
}
use forgeguard.Base.Trim.{to_ascii_uppercase}
use forgeguard.Base.Result.{ok, err}
use forgeguard.Http.Error.{Error, HttpResult}

pub data HttpMethod : Type 0 where
  get post put patch delete any : HttpMethod

-- `HttpMethod::matches`
unfoldable pub matches : HttpMethod → HttpMethod → Bool
matches any m = true
matches m any = true
matches get get = true
matches post post = true
matches put put = true
matches patch patch = true
matches delete delete = true
matches m n = false

-- The arms of `from_str`, on the text in capitals.
abbrev method_of : Str → Str → HttpResult HttpMethod
method_of s upper =
    if upper == codes "GET"
    then ok get
    else if upper == codes "POST"
    then ok post
    else if upper == codes "PUT"
    then ok put
    else if upper == codes "PATCH"
    then ok patch
    else if upper == codes "DELETE"
    then ok delete
    else if upper == codes "ANY" || upper == codes "*"
    then ok any
    else err (Error.config (codes "unknown HTTP method: '" ++ (s ++ codes "'")))

unfoldable pub parse_method : Str → HttpResult HttpMethod
parse_method s = method_of s (to_ascii_uppercase s)

abbrev pub method_text : HttpMethod → Str
method_text get = codes "GET"
method_text post = codes "POST"
method_text put = codes "PUT"
method_text patch = codes "PATCH"
method_text delete = codes "DELETE"
method_text any = codes "ANY"

pub parse_method-method_text : (m : HttpMethod) → parse_method (method_text m) ≡ ok m
unfolding parse_method to_ascii_uppercase
parse_method-method_text get = refl
parse_method-method_text post = refl
parse_method-method_text put = refl
parse_method-method_text patch = refl
parse_method-method_text delete = refl
parse_method-method_text any = refl

abbrev pub method_beq : HttpMethod → HttpMethod → Bool
method_beq get get = true
method_beq post post = true
method_beq put put = true
method_beq patch patch = true
method_beq delete delete = true
method_beq any any = true
method_beq m n = false

pub method_beq_iff : (m n : HttpMethod) → (method_beq m n ≡ true) ↔ (m ≡ n)
method_beq_iff m n = ground arith

instance abbrev pub method_eq : Eq HttpMethod
method_eq = record { beq = method_beq; beq_iff = method_beq_iff }
