-- ===== src/Connection/Addresses.antt =====
-- vcrmartin/stubs/__init__.py, `_port_postfix`, `_real_host`, `_uri` and `_url`.
use vcrpy.Prelude.{
  Bool, Option, Str, [], drop, drop-append, false, if◌then◌else◌, length, nat_eq, none, not, refl,
  some, str, ℕ, ◌++◌, ◌∷◌, ◌≡◌, List_eq, ℕ_eq,
}
use vcrpy.Text.{starts_with, starts_with-append}
use vcrpy.Filters.Responses.{decimal}

-- What the real connection knows of its server. A tunnel is that of `set_tunnel`.
pub record Endpoint : Type 0 where
  pub is_https : Bool
  pub host : Str
  pub port : ℕ
  pub tunnel : Option (Str × ℕ)

abbrev pub tunnel_or : Str × ℕ → Option (Str × ℕ) → Str × ℕ
tunnel_or own none = own
tunnel_or own (some t) = t

-- `_real_host`, and the port that `_port_postfix` looks at.
abbrev pub server : Endpoint → Str × ℕ
server e = tunnel_or (e.host, e.port) e.tunnel

abbrev pub protocol : Endpoint → Str
protocol e = if e.is_https then str "https" else str "http"

unfoldable pub port_postfix : Endpoint → Str
unfolding decimal
port_postfix e =
    if nat_eq (server e).1 (if e.is_https then 443 else 80)
    then []
    else str ":" ++ decimal (server e).1

unfoldable pub prefix_of : Endpoint → Str
unfolding port_postfix
prefix_of e = protocol e ++ (str "://" ++ ((server e).0 ++ port_postfix e))

-- `url and not url.startswith("/")`: the address of a proxy's request.
abbrev pub is_absolute : Str → Bool
is_absolute [] = false
is_absolute (c ∷ url) = not (nat_eq c b'/')

-- `_uri`
unfoldable pub uri_of : Endpoint → Str → Str
unfolding prefix_of
uri_of e url = if is_absolute url then url else prefix_of e ++ url

-- s.replace(part, "", 1)
unfoldable pub without_first : Str → Str → Str
unfolding starts_with
without_first part [] = []
without_first part (c ∷ s) =
    if starts_with part (c ∷ s) then drop (length part) (c ∷ s) else c ∷ without_first part s

-- `_url`
unfoldable pub url_of : Endpoint → Str → Str
unfolding prefix_of without_first
url_of e uri = without_first (prefix_of e) uri

without_first-append : (part s : Str) → without_first part (part ++ s) ≡ s
without_first-append [] [] = unfold without_first in refl
without_first-append [] (c ∷ s) = unfold without_first in refl
without_first-append (c ∷ part) s =
    unfold without_first in rw (starts_with-append (c ∷ part) s) (drop-append part s)

-- The selector of a request that is no proxy's is found again in the address that was made of it.
pub url_of-uri_of :
    (e : Endpoint) (url : Str) → is_absolute url ≡ false → url_of e (uri_of e url) ≡ url
unfolding url_of uri_of
url_of-uri_of e url h = rw h (without_first-append (prefix_of e) url)
