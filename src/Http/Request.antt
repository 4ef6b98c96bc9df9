-- ===== src/Http/Request.antt =====
-- server/http/request.go: the address of a request; and LocalhostOnlyMiddleware of
-- server/http/middleware.go.
use Prim.Native.Char.{Char, code}
use Prim.Native.String.{◌++◌}
use text.Mathlib.TextLemmas.{nil-append, cons-append}
use shadowroller.Common.{
  ℕ, ◌≡◌, refl, Bool, ◌||◌, Option, none, some, String, str_eq, ◌==◌, ==_self, ==_of_ne,
  if◌then◌else◌,
}
use shadowroller.Common.Text.{Without}

-- `config.ClientIPHeader`, the value of that header or the empty text, and `request.RemoteAddr`.
unfoldable pub request_remote_addr : String → String → String → String
request_remote_addr client_ip_header value remote_addr =
    if str_eq client_ip_header ""
    then remote_addr
    else if str_eq value ""
    then remote_addr
    else value

extend : Char → ℕ → Option String → Option String
extend c sep (some before) = some (String.◌∷◌ c before)
extend c sep none = if code c == sep then some "" else none

-- `addr[:strings.LastIndex(addr, sep)]`; `none` if there is no separator.
before_last : ℕ → String → Option String
unfolding extend
before_last sep String.[] = none
before_last sep (String.◌∷◌ c s) = extend c sep (before_last sep s)

-- `RequestRemoteIP` at the address of the request.
unfoldable pub request_remote_ip : String → String
unfolding before_last
request_remote_ip addr = elim (before_last b':' addr) [ none ↦ addr | some ip ↦ ip ]

-- Whether `LocalhostOnlyMiddleware` lets a request through; it answers the others with 404.
unfoldable pub localhost_allowed : String → Bool
localhost_allowed addr =
    let remote_addr = request_remote_ip addr in
    str_eq remote_addr "localhost" || str_eq remote_addr "127.0.0.1" || str_eq remote_addr "[::1]"

before_last-Without : (sep : ℕ) (s : String) → Without sep s → before_last sep s ≡ none
unfolding before_last extend
before_last-Without sep String.[] h = refl
before_last-Without sep (String.◌∷◌ c s) (n, h) =
    rw (before_last-Without sep s h, extend, ==_of_ne (code c) sep n)

before_last-append :
    (sep : Char) (a b : String)
    → Without (code sep) b
    → before_last (code sep) (a ++ String.◌∷◌ sep b) ≡ some a
unfolding before_last extend
before_last-append sep String.[] b h = rw (
  nil-append (String.◌∷◌ sep b),
  before_last,
  before_last-Without (code sep) b h,
  extend,
  ==_self (code sep),
)
before_last-append sep (String.◌∷◌ c a) b h =
    rw (cons-append c a (String.◌∷◌ sep b), before_last, before_last-append sep a b h, extend)

-- The address of a request without its port: where a port follows the last colon, it is what stands
-- before that colon, whatever it holds, and an address without a colon is kept.
pub request_remote_ip-append :
    (ip port : String)
    → (Without (code ":") port → request_remote_ip (ip ++ String.◌∷◌ ":" port) ≡ ip)
      × (Without (code ":") ip → request_remote_ip ip ≡ ip)
unfolding request_remote_ip
request_remote_ip-append ip port = (
  λ h. rw (request_remote_ip, before_last-append ":" ip port h),
  λ h. rw (request_remote_ip, before_last-Without (code ":") ip h),
)
