-- ===== src/Proxy/Input.antt =====
-- crates/proxy-core/src/request_input.rs and error.rs: a request that is checked when it is made.
use forgeguard.Base.{Str, List, [], ◌∷◌, ◌++◌, Option, none, some, codes, ◌=ℕ◌, ℕ}
use forgeguard.Base.Result.{Result, ok, err, ◌>>=◌, ◌>>◌, ensure, map_err}
use forgeguard.Http.Method.{HttpMethod, parse_method}

pub data Error : Type 0 where
  invalid_request : Str → Error
  invalid_reject_status : ℕ → Error

pub record RequestInput (Ip : Type 0) : Type 0 where
  pub method : HttpMethod
  pub path : Str
  pub query_string : Option Str
  pub headers : List (Str × Str)
  pub client_ip : Option Ip

check_path : Str → Result Error (Unit {0})
check_path [] = err (invalid_request (codes "path cannot be empty"))
check_path (b ∷ s) =
    ensure (b =ℕ b'/')
      (invalid_request (codes "path must start with '/': '" ++ ((b ∷ s) ++ codes "'")))

-- `RequestInput::new`
unfoldable pub input_new :
    {Ip : Type 0} → Str → Str → List (Str × Str) → Option Ip → Result Error (RequestInput Ip)
unfolding check_path
input_new method path headers client_ip = do
  method' ←
      map_err (λ _. invalid_request (codes "unrecognized HTTP method: '" ++ (method ++ codes "'")))
        (parse_method method)
  check_path path
  ok (record {
    method = method';
    path = path;
    query_string = none;
    headers = headers;
    client_ip = client_ip;
  })

unfoldable pub with_query_string : {Ip : Type 0} → RequestInput Ip → Str → RequestInput Ip
with_query_string input query = record input { query_string = some query }
