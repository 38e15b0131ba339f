-- ===== src/SystemHttp.antt =====
-- systemkit/http.go: requests through a network, with their limits. The standard library's parser of
-- URLs, its client, and the tables of upper-case letters are fields of `Library`; the client is asked
-- for the reply to what is sent. Times are nanoseconds, and how long a call took is left out.
pub mod RoundTrip
pub mod Limits
mod Examples
use fluxplane_system.Prelude.{
  ℕ, ltb, ◌==◌, Bool, true, false, not, ◌&&◌, ◌||◌, List, [], ◌∷◌, ◌++◌, map, Option, none, some,
  if◌then◌else◌, any, length,
}
use fluxplane_system.GoText.{Text, codes, text_eq, is_empty, trim_space}
use fluxplane_system.GoMap.{GoMap, insert}
use fluxplane_system.Integers.{ℤ, pos, is_unset}
use fluxplane_system.System.{
  Error, Result, ok, err, ◌>>=◌, Bytes, File, nil_capability, invalid_url, bad_method,
}
use fluxplane_system.FsHelpers.{read_limited, one_more, cut_off, read_all}
use fluxplane_system.HostNetwork.{TlsConfig, version_tls12}

-- 30 seconds.
abbrev pub default_timeout : ℤ
default_timeout = pos 30000000000

abbrev pub default_max_bytes : ℤ
default_max_bytes = pos 524288

module _ (R : Type 0) where
  pub record HttpRequest : Type 0 where
    pub url : Text
    pub method : Text
    pub headers : GoMap Text
    pub body : Bytes
    pub timeout : ℤ
    pub max_bytes : ℤ
    pub user_agent : Text
    pub tls_config : Option (TlsConfig R)

  pub record HttpConfig : Type 0 where
    pub timeout : ℤ
    pub max_bytes : ℤ
    pub tls_config : Option (TlsConfig R)

  -- `WithHTTPClientTimeout`, `WithHTTPClientMaxBytes`, and `WithTLSConfig` with a configuration or
  -- none.
  pub data HttpOption : Type 0 where
    timeout max_bytes : ℤ → HttpOption
    tls_config : Option (TlsConfig R) → HttpOption

pub record HttpResponse : Type 0 where
  pub url : Text
  pub final_url : Text
  pub method : Text
  pub status : Text
  pub status_code : ℕ
  pub headers : GoMap (List Text)
  pub content_type : Text
  pub body : Bytes
  pub truncated : Bool

-- `url.URL` with the text that `String` gives.
pub record ParsedUrl : Type 0 where
  pub scheme : Text
  pub host : Text
  pub text : Text

-- What the client sends, through a transport with that configuration.
pub record HttpCall (R : Type 0) : Type 0 where
  pub method : Text
  pub url : Text
  pub headers : GoMap Text
  pub body : Bytes
  pub timeout : ℤ
  pub tls : TlsConfig R

-- What the server answers; the body can be read like a file.
pub record Reply : Type 0 where
  pub status : Text
  pub status_code : ℕ
  pub headers : GoMap (List Text)
  pub content_type : Text
  pub body : File
  pub final_url : Text

pub record Library (R : Type 0) : Type 0 where
  pub parse_url : Text → Result ParsedUrl
  pub to_upper : ℕ → ℕ
  pub canonical_key : Text → Text
  pub new_request : Text → Text → Result (Unit {0})
  -- The code with the text of `http.StatusText`.
  pub status_text : ℕ → Text
  pub zero_tls : R
  pub send : HttpCall R → Result Reply

-- A network may execute requests itself.
pub record Network (R : Type 0) : Type 0 where
  pub do_http : Option (HttpRequest R → Result HttpResponse)

module _ {R : Type 0} (lib : Library R) where
  unfoldable pub secure_tls : Option (TlsConfig R) → TlsConfig R
  secure_tls none = record { min_version = version_tls12; rest = lib.zero_tls }
  secure_tls (some cfg) =
      if cfg.min_version == 0 || ltb cfg.min_version version_tls12
      then record { min_version = version_tls12; rest = cfg.rest }
      else cfg

  unfoldable pub apply_option : HttpOption R → HttpConfig R → HttpConfig R
  unfolding secure_tls
  apply_option (timeout t) out =
      if is_unset t
      then out
      else record { timeout = t; max_bytes = out.max_bytes; tls_config = out.tls_config }
  apply_option (max_bytes n) out =
      if is_unset n
      then out
      else record { timeout = out.timeout; max_bytes = n; tls_config = out.tls_config }
  apply_option (tls_config none) out = out
  apply_option (tls_config (some cfg)) out = record {
    timeout = out.timeout;
    max_bytes = out.max_bytes;
    tls_config = some (secure_tls (some cfg));
  }

  unfoldable pub apply_options : List (HttpOption R) → HttpConfig R → HttpConfig R
  unfolding apply_option
  apply_options [] out = out
  apply_options (o ∷ options) out = apply_options options (apply_option o out)

  -- The configuration of `NewRoundTripper`.
  unfoldable pub new_config : List (HttpOption R) → HttpConfig R
  unfolding apply_options
  new_config options =
      apply_options options
        (record { timeout = default_timeout; max_bytes = default_max_bytes; tls_config = none })

  -- `AllowedHTTPMethod`
  unfoldable pub allowed_http_method : Text → Bool
  unfolding text_eq
  allowed_http_method method = any (text_eq (map lib.to_upper method)) (
      codes "GET"
      ∷ codes "HEAD"
      ∷ codes "POST"
      ∷ codes "PUT"
      ∷ codes "PATCH"
      ∷ codes "DELETE"
      ∷ codes "OPTIONS"
      ∷ [])

  -- The method that is sent.
  abbrev pub method_of : Text → Text
  method_of method =
      let upper = map lib.to_upper (trim_space method) in
      if is_empty upper then codes "GET" else upper

  abbrev pub set_headers : GoMap Text → GoMap Text → GoMap Text
  set_headers [] out = out
  set_headers ((k, v) ∷ headers) out = set_headers headers (insert (lib.canonical_key k) v out)

  abbrev pub is_http_url : ParsedUrl → Bool
  is_http_url url =
      (text_eq url.scheme (codes "http") || text_eq url.scheme (codes "https"))
      && not (is_empty url.host)

  -- `DoHTTP` up to the client's call.
  unfoldable pub http_call : HttpRequest R → Result (HttpCall R)
  unfolding allowed_http_method secure_tls
  http_call req = lib.parse_url (trim_space req.url) >>= λ parsed.
      if not (is_http_url parsed)
      then err invalid_url
      else if not (allowed_http_method (method_of req.method))
      then err bad_method
      else (lib.new_request (method_of req.method) parsed.text >>= λ _. ok (record {
        method = method_of req.method;
        url = parsed.text;
        headers =
            set_headers req.headers
              (if is_empty req.user_agent then [] else (codes "User-Agent", req.user_agent) ∷ []);
        body = req.body;
        timeout = if is_unset req.timeout then default_timeout else req.timeout;
        tls = secure_tls req.tls_config;
      }))

  abbrev pub max_bytes_of : HttpRequest R → ℤ
  max_bytes_of req = if is_unset req.max_bytes then default_max_bytes else req.max_bytes

  unfoldable pub read_reply : HttpRequest R → HttpCall R → Reply → Result HttpResponse
  unfolding read_limited
  read_reply req call reply = read_limited (one_more (max_bytes_of req)) reply.body >>= λ content.
      (let cut = cut_off (max_bytes_of req) content in
        ok (record {
          url = call.url;
          final_url = reply.final_url;
          method = call.method;
          status = reply.status;
          status_code = reply.status_code;
          headers = reply.headers;
          content_type = reply.content_type;
          body = cut.0;
          truncated = cut.1;
        }))

  unfoldable pub do_http : Option (Network R) → HttpRequest R → Result HttpResponse
  unfolding http_call read_reply
  do_http none req = err nil_capability
  do_http (some network) req = elim network.do_http [
    | some doer ↦ doer req
    | none ↦ http_call req >>= λ call. lib.send call >>= λ reply. read_reply req call reply
  ]
