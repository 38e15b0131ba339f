-- ===== src/SystemHttp/Examples.antt =====
-- The theorem on requests at a concrete network.
use fluxplane_system.Prelude.{◌≡◌, refl, true, false, [], ◌∷◌, none, some, arith}
use fluxplane_system.GoText.{codes, is_empty, trim_space}
use fluxplane_system.Integers.{pos, int64}
use fluxplane_system.System.{ok, File}
use fluxplane_system.SystemHttp.{
  HttpRequest, HttpResponse, HttpCall, Reply, Library, Network, do_http,
}
use fluxplane_system.SystemHttp.Limits.{IsSent, IsCut, do_http-IsCut}

abbrev served : File
served = record {
  stat = record { name = []; size = 0; mode = 0; mod_time = 0; is_dir = false };
  content = 1 ∷ 2 ∷ 3 ∷ [];
  failure = none;
  listing = none;
}

abbrev reply : Reply
reply = record {
  status = codes "200 OK";
  status_code = 200;
  headers = [];
  content_type = [];
  body = served;
  final_url = codes "u";
}

abbrev library : Library (Unit {0})
library = record {
  parse_url = λ text. ok (record { scheme = codes "https"; host = codes "h"; text = text });
  to_upper = λ c. c;
  canonical_key = λ key. key;
  new_request = λ _ _. ok tt;
  status_text = λ _. [];
  zero_tls = tt;
  send = λ _. ok reply;
}

abbrev plain : Network (Unit {0})
plain = record { do_http = none }

abbrev request : HttpRequest (Unit {0})
request = record {
  url = codes "u";
  method = [];
  headers = [];
  body = [];
  timeout = pos 0;
  max_bytes = pos 2;
  user_agent = [];
  tls_config = none;
}

abbrev response : HttpResponse
response = record {
  url = codes "u";
  final_url = codes "u";
  method = codes "GET";
  status = codes "200 OK";
  status_code = 200;
  headers = [];
  content_type = [];
  body = 1 ∷ 2 ∷ [];
  truncated = true;
}

plain-do_http : do_http library (some plain) request ≡ ok response
unfolding do_http is_empty trim_space int64
plain-do_http = refl

do_http-IsCut_example :
    (call : HttpCall (Unit {0})) × (answer : Reply) × (library.send call ≡ ok answer)
    × IsSent library request call
    × IsCut library 2 answer.body response
do_http-IsCut_example =
    do_http-IsCut library plain request 2 response refl refl (omega arith) plain-do_http
