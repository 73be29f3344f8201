-- ===== src/Gateway/Container/Serving.antt =====
-- When the server of a container runs its provider, and what it does otherwise.
use harp_ochestration.Prelude.{
  ℕ, String, ◌&&◌, ◌≡◌, refl, ◌⊎◌, inl, inr, ◌==◌, string_eq, Bool-cases, arith,
}
use harp_ochestration.Gateway.Wire.{ContainerRequest, wire_protocol_version}
use harp_ochestration.Gateway.Container.{
  ContainedProvider, Incoming, malformed, fieldless, incoming, ServerBody, BodyRead, received,
  broken, IncomingMessage, ServerResponse, Generated, generated, threw, serve, serve_body,
  serve_incoming, send_generated, send_json, input_of,
}

-- A call of the provider: the world moves by its run on the fields of the request, and the status
-- says whether it threw.
abbrev answers : Generated → ℕ
answers (generated out) = 200
answers (threw message) = 502

-- The request that reaches the provider.
unfoldable pub Reaches : (String → Incoming) → IncomingMessage → ContainerRequest → Type 0
Reaches parse req request =
    (text : String) × (req.method ≡ "POST")
    × (req.url ≡ "/v1/generate")
    × (req.body ≡ received text)
    × (parse text ≡ incoming request)
    × (request.protocol_version ≡ wire_protocol_version)

unfoldable pub IsServed :
    {W : Type 0}
    → ContainedProvider W
    → (String → Incoming)
    → IncomingMessage
    → W
    → ServerResponse × W
    → Type 0
IsServed provider parse req w (response, after) =
    ((after ≡ w)
      × ((response.status ≡ 200)
          ⊎ (response.status ≡ 400)
          ⊎ (response.status ≡ 404)
          ⊎ (response.status ≡ 500)))
    ⊎ ((request : ContainerRequest) × Reaches parse req request
        × (after ≡ (provider.generate (input_of request) w).1)
        × (response.status ≡ answers (provider.generate (input_of request) w).0))

module _ {W : Type 0} where
  run-IsServed :
      (provider : ContainedProvider W) (parse : String → Incoming) (stringify : ServerBody → String)
      (req : IncomingMessage) (w : W) (request : ContainerRequest) (given : Generated × W)
      → Reaches parse req request
      → provider.generate (input_of request) w ≡ given
      → IsServed provider parse req w (send_generated stringify request given)
  unfolding IsServed send_generated send_json
  run-IsServed provider parse stringify req w request (generated out, after) reaches h =
      inr (request, reaches, rw h refl, rw h refl)
  run-IsServed provider parse stringify req w request (threw message, after) reaches h =
      inr (request, reaches, rw h refl, rw h refl)

  incoming-IsServed :
      (provider : ContainedProvider W) (parse : String → Incoming) (stringify : ServerBody → String)
      (req : IncomingMessage) (w : W) (text : String) (read : Incoming)
      → req.method ≡ "POST"
      → req.url ≡ "/v1/generate"
      → req.body ≡ received text
      → parse text ≡ read
      → IsServed provider parse req w (serve_incoming provider stringify read w)
  unfolding IsServed Reaches serve_incoming send_json
  incoming-IsServed provider parse stringify req w text malformed m u b h =
      inl (refl, inr (inl refl))
  incoming-IsServed provider parse stringify req w text (fieldless message) m u b h =
      inl (refl, inr (inr (inr refl)))
  incoming-IsServed provider parse stringify req w text (incoming request) m u b h =
      elim (Bool-cases (request.protocol_version == wire_protocol_version)) [
        | inl t ↦ rw t (
            run-IsServed provider parse stringify req w request _
              (
                text,
                m,
                u,
                b,
                h,
                (string_eq.eqb_iff request.protocol_version wire_protocol_version).0 t,
              )
              refl)
        | inr f ↦ rw f (inl (refl, inr (inl refl)))
      ]

  body-IsServed :
      (provider : ContainedProvider W) (parse : String → Incoming) (stringify : ServerBody → String)
      (req : IncomingMessage) (w : W) (body : BodyRead)
      → req.method ≡ "POST"
      → req.url ≡ "/v1/generate"
      → req.body ≡ body
      → IsServed provider parse req w (serve_body provider parse stringify body w)
  unfolding IsServed serve_body send_json
  body-IsServed provider parse stringify req w (broken message) m u b =
      inl (refl, inr (inr (inr refl)))
  body-IsServed provider parse stringify req w (received text) m u b =
      incoming-IsServed provider parse stringify req w text _ m u b refl

  -- The handler answers every request, whatever its method, its URL and its body. Either the
  -- provider is not run and the status is 200, 400, 404 or 500; or the request is a POST to the
  -- endpoint whose body parses to a request with the version of the protocol, the provider is run once,
  -- on the fields of that request, and the status is 200 if it gave an output and 502 if it threw.
  pub serve-IsServed :
      (provider : ContainedProvider W) (parse : String → Incoming) (stringify : ServerBody → String)
      (req : IncomingMessage) (w : W)
      → IsServed provider parse req w (serve provider parse stringify req w)
  unfolding serve IsServed send_json
  serve-IsServed provider parse stringify req w =
      elim (Bool-cases (req.method == "GET" && req.url == "/v1/health")) [
        | inl t ↦ rw t (inl (refl, inl refl))
        | inr f ↦ rw f (elim (Bool-cases (req.method == "POST" && req.url == "/v1/generate")) [
          | inl t ↦ rw t (
              body-IsServed provider parse stringify req w req.body
                ((string_eq.eqb_iff req.method "POST").0 (ground arith))
                ((string_eq.eqb_iff req.url "/v1/generate").0 (ground arith)) refl)
          | inr f ↦ rw f (inl (refl, inr (inr (inl refl))))
        ])
      ]
