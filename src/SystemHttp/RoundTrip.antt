-- ===== src/SystemHttp/RoundTrip.antt =====
-- systemkit/http.go: the round tripper.
use fluxplane_system.Prelude.{ℕ, List, [], ◌∷◌, Option, none, some, if◌then◌else◌, length}
use fluxplane_system.GoText.{Text, is_empty}
use fluxplane_system.GoMap.{GoMap}
use fluxplane_system.Integers.{ℤ, is_unset}
use fluxplane_system.System.{Result, ok, err, ◌>>=◌, Bytes, File, nil_capability}
use fluxplane_system.FsHelpers.{read_all}
use fluxplane_system.SystemHttp.{HttpRequest, HttpConfig, Library, Network, do_http}

module _ {R : Type 0} (lib : Library R) where
  -- `http.Request`, with how much time the deadline of its context leaves.
  pub record RoundTripRequest : Type 0 where
    pub url : Text
    pub method : Text
    pub header : GoMap (List Text)
    pub body : Option File
    pub user_agent : Text
    pub remaining : Option ℤ

  pub record RoundTripReply : Type 0 where
    pub status : Text
    pub status_code : ℕ
    pub header : GoMap (List Text)
    pub body : Bytes
    pub content_length : ℕ

  -- The first value of each header.
  abbrev pub first_values : GoMap (List Text) → GoMap Text
  first_values [] = []
  first_values ((k, []) ∷ header) = first_values header
  first_values ((k, v ∷ _) ∷ header) = (k, v) ∷ first_values header

  abbrev pub request_body : Option File → Result Bytes
  request_body none = ok []
  request_body (some file) = read_all file

  abbrev pub timeout_for : HttpConfig R → Option ℤ → ℤ
  timeout_for cfg none = cfg.timeout
  timeout_for cfg (some remaining) = if is_unset remaining then cfg.timeout else remaining

  abbrev pub request_for : HttpConfig R → RoundTripRequest → Bytes → HttpRequest R
  request_for cfg req body = record {
    url = req.url;
    method = req.method;
    headers = first_values req.header;
    body = body;
    timeout = timeout_for cfg req.remaining;
    max_bytes = cfg.max_bytes;
    user_agent = req.user_agent;
    tls_config = cfg.tls_config;
  }

  unfoldable pub round_trip :
      Option (Network R) → HttpConfig R → RoundTripRequest → Result RoundTripReply
  unfolding do_http
  round_trip none cfg req = err nil_capability
  round_trip (some network) cfg req = request_body req.body >>= λ body.
      do_http lib (some network) (request_for cfg req body) >>= λ resp. ok (record {
        status = if is_empty resp.status then lib.status_text resp.status_code else resp.status;
        status_code = resp.status_code;
        header = resp.headers;
        body = resp.body;
        content_length = length resp.body;
      })
