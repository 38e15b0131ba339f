-- ===== src/SystemHttp/Limits.antt =====
-- systemkit/http.go: the limits under which requests are sent and replies are read.
use fluxplane_system.Prelude.{
  ℕ, ◌+◌, ◌≤◌, ◌<◌, ◌≡◌, refl, ap, ◌∙◌, sym, subst, true, false, not, ◌||◌, List, [], ◌∷◌, Option,
  none, some, arith, Bool-cases, if◌then◌else◌, inl, inr, ltb, ◌==◌, length, take, length-take,
}
use fluxplane_system.GoText.{trim_space}
use fluxplane_system.Integers.{ℤ, pos, is_unset}
use fluxplane_system.System.{ok, >>=-eq-ok, ok-injective, File}
use fluxplane_system.FsHelpers.{read_limited}
use fluxplane_system.FsHelpers.Limits.{max_int64, int64_small, limited_read}
use fluxplane_system.HostNetwork.{TlsConfig, version_tls12}
use fluxplane_system.SystemHttp.{
  HttpRequest, HttpConfig, HttpOption, timeout, max_bytes, tls_config, HttpResponse, HttpCall,
  Reply, Library, Network, default_timeout, default_max_bytes, secure_tls, apply_option,
  apply_options, new_config, allowed_http_method, method_of, is_http_url, http_call, max_bytes_of,
  read_reply, do_http,
}
use fluxplane_system.SystemHttp.RoundTrip.{
  RoundTripRequest, RoundTripReply, request_body, request_for, round_trip,
}

module _ {R : Type 0} (lib : Library R) where
  secure_tls-secure :
      (cfg : Option (TlsConfig R)) → version_tls12 ≤ (secure_tls lib cfg).min_version
  unfolding secure_tls
  secure_tls-secure none = omega arith
  secure_tls-secure (some cfg) =
      elim (Bool-cases (cfg.min_version == 0 || ltb cfg.min_version version_tls12)) [
        | inl low ↦ rw low (omega arith)
        | inr high ↦ rw high (ground (arith, high))
      ]

  -- The limits are set, and a given TLS configuration is secure.
  pub record IsSane (cfg : HttpConfig R) : Type 0 where
    pub timeout_set : is_unset cfg.timeout ≡ false
    pub max_bytes_set : is_unset cfg.max_bytes ≡ false
    pub secure : (tls : TlsConfig R) → cfg.tls_config ≡ some tls → version_tls12 ≤ tls.min_version

  apply_option-IsSane :
      (o : HttpOption R) (cfg : HttpConfig R) → IsSane cfg → IsSane (apply_option lib o cfg)
  unfolding apply_option
  apply_option-IsSane (timeout t) cfg h = elim (Bool-cases (is_unset t)) [
    | inl unset ↦ rw unset h
    | inr given ↦
        rw given
          (record { timeout_set = given; max_bytes_set = h.max_bytes_set; secure = h.secure })
  ]
  apply_option-IsSane (max_bytes n) cfg h = elim (Bool-cases (is_unset n)) [
    | inl unset ↦ rw unset h
    | inr given ↦
        rw given (record { timeout_set = h.timeout_set; max_bytes_set = given; secure = h.secure })
  ]
  apply_option-IsSane (tls_config none) cfg h = h
  apply_option-IsSane (tls_config (some given)) cfg h = record {
    timeout_set = h.timeout_set;
    max_bytes_set = h.max_bytes_set;
    secure = λ tls e.
        let same : secure_tls lib (some given) ≡ tls = cc in
        subst (λ t. version_tls12 ≤ t.min_version) same (secure_tls-secure (some given));
  }

  apply_options-IsSane :
      (options : List (HttpOption R)) (cfg : HttpConfig R)
      → IsSane cfg
      → IsSane (apply_options lib options cfg)
  unfolding apply_options
  apply_options-IsSane [] cfg h = h
  apply_options-IsSane (o ∷ options) cfg h =
      apply_options-IsSane options (apply_option lib o cfg) (apply_option-IsSane o cfg h)

  -- Whatever options a round tripper is made with, it has a timeout and a limit on the body, and its
  -- TLS configuration, if it is given one, accepts no version below 1.2.
  pub new_config-IsSane : (options : List (HttpOption R)) → IsSane (new_config lib options)
  unfolding new_config
  new_config-IsSane options =
      apply_options-IsSane options
        (record { timeout = default_timeout; max_bytes = default_max_bytes; tls_config = none })
        (record {
          timeout_set = ground arith;
          max_bytes_set = ground arith;
          secure = λ tls bad. cc;
        })

  -- What was sent for a request.
  pub record IsSent (req : HttpRequest R) (call : HttpCall R) : Type 0 where
    pub allowed : allowed_http_method lib call.method ≡ true
    pub method : call.method ≡ method_of lib req.method
    pub timely : is_unset call.timeout ≡ false
    pub secure : version_tls12 ≤ call.tls.min_version

  http_call-IsSent :
      (req : HttpRequest R) (call : HttpCall R) → http_call lib req ≡ ok call → IsSent req call
  unfolding http_call
  http_call-IsSent req call h =
      let (parsed, _, h1) = >>=-eq-ok (lib.parse_url (trim_space req.url)) _ h in
      elim (Bool-cases (not (is_http_url lib parsed))) [
        | inl bad ↦ absurd (let h2 = rw bad at h1 in cc)
        | inr good ↦
            let h2 = rw good at h1 in
            elim (Bool-cases (allowed_http_method lib (method_of lib req.method))) [
              | inr refused ↦ absurd (let h3 = rw refused at h2 in cc)
              | inl allowed ↦
                  let h3 = rw allowed at h2 in
                  let (_, _, made) =
                    >>=-eq-ok (lib.new_request (method_of lib req.method) parsed.text) _ h3 in
                  subst (IsSent req) (ok-injective made) (record {
                    allowed = allowed;
                    method = refl;
                    timely = timeout_set req.timeout;
                    secure = secure_tls-secure req.tls_config;
                  })
            ]
      ]
    where
      timeout_set : (t : ℤ) → is_unset (if is_unset t then default_timeout else t) ≡ false
      timeout_set t = elim (Bool-cases (is_unset t)) [
        | inl e ↦ rw e (ground arith)
        | inr e ↦ rw e (e)
      ]

  -- What a reply of that body gives under the limit: never more bytes, and if the body can be read to
  -- its end, its first bytes, and whether there are more.
  pub record IsCut (n : ℕ) (body : File) (resp : HttpResponse) : Type 0 where
    pub bounded : length resp.body ≤ n
    pub first : body.failure ≡ none → resp.body ≡ take n body.content
    pub marked : body.failure ≡ none → resp.truncated ≡ ltb n (length body.content)

  read_reply-IsCut :
      (req : HttpRequest R) (call : HttpCall R) (reply : Reply) (n : ℕ) (resp : HttpResponse)
      → max_bytes_of lib req ≡ pos n
      → n < max_int64
      → read_reply lib req call reply ≡ ok resp
      → IsCut n reply.body resp
  unfolding read_reply
  read_reply-IsCut req call reply n resp limit small h =
      let h1 = rw limit at h in
      let h2 = rw (int64_small (n + 1) (omega arith)) at h1 in
      let (content, read, made) = >>=-eq-ok (read_limited (pos (n + 1)) reply.body) _ h2 in
      let body : take n content ≡ resp.body = ap (λ r. r.body) (ok-injective made) in
      let cut : ltb n (length content) ≡ resp.truncated =
        ap (λ r. r.truncated) (ok-injective made) in
      let both : reply.body.failure ≡ none
          → (take n content, ltb n (length content))
            ≡ (take n reply.body.content, ltb n (length reply.body.content)) =
        λ whole. ok-injective (let l = limited_read n reply.body whole in rw read at l) in
      record {
        bounded =
            subst (λ b. length b ≤ n) body (let e = length-take n content in rw e (omega arith));
        first = λ whole. sym body ∙ ap (λ p. p.0) (both whole);
        marked = λ whole. sym cut ∙ ap (λ p. p.1) (both whole);
      }

  -- A response of a network that does not execute requests itself is made from the client's reply to
  -- one call, whose method is one of the allowed ones, which has a timeout and accepts no TLS version
  -- below 1.2; with a limit below the largest integer, the response's body is not longer than the
  -- limit, and of a reply that can be read to its end it is the first bytes, marked as truncated
  -- exactly if there are more.
  pub do_http-IsCut :
      (network : Network R) (req : HttpRequest R) (n : ℕ) (resp : HttpResponse)
      → network.do_http ≡ none
      → max_bytes_of lib req ≡ pos n
      → n < max_int64
      → do_http lib (some network) req ≡ ok resp
      → (call : HttpCall R) × (reply : Reply) × (lib.send call ≡ ok reply)
        × IsSent req call
        × IsCut n reply.body resp
  unfolding do_http
  do_http-IsCut network req n resp plain limit small h =
      let h1 = rw (plain, do_http) at h in
      let (call, made, h2) = >>=-eq-ok (http_call lib req) _ h1 in
      let (reply, sent, h3) = >>=-eq-ok (lib.send call) _ h2 in
      (
        call,
        reply,
        sent,
        http_call-IsSent req call made,
        read_reply-IsCut req call reply n resp limit small h3,
      )

  -- With the options' limit below the largest integer, a reply of a round trip over such a network has
  -- as many bytes as it says, and no more than the limit.
  pub round_trip-limited :
      (network : Network R) (options : List (HttpOption R)) (req : RoundTripRequest lib) (n : ℕ)
      (r : RoundTripReply lib)
      → network.do_http ≡ none
      → (new_config lib options).max_bytes ≡ pos n
      → n < max_int64
      → round_trip lib (some network) (new_config lib options) req ≡ ok r
      → (r.content_length ≡ length r.body) × (r.content_length ≤ n)
  unfolding round_trip
  round_trip-limited network options req n r plain limit small h =
      let cfg : HttpConfig R = new_config lib options in
      let (body, _, h1) = >>=-eq-ok (request_body lib req.body) _ h in
      let sane = new_config-IsSane options in
      let unchanged : max_bytes_of lib (request_for lib cfg req body) ≡ pos n =
        (let set = sane.max_bytes_set in rw set limit) in
      let (resp, done, made) =
        >>=-eq-ok (do_http lib (some network) (request_for lib cfg req body)) _ h1 in
      let (call, reply, sent, is_sent, is_cut) =
        do_http-IsCut network (request_for lib cfg req body) n resp plain unchanged small done in
      subst (λ x. (x.content_length ≡ length x.body) × (x.content_length ≤ n)) (ok-injective made)
        (refl, is_cut.bounded)
