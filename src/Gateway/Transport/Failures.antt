-- ===== src/Gateway/Transport/Failures.antt =====
-- The failures that the transport itself reports.
use harp_ochestration.Prelude.{
  ℕ, String, Bool, true, false, Option, none, some, ◌≡◌, refl, ◌⊎◌, inl, inr, nat_eq, if◌then◌else◌,
  includes, lower_case,
}
use harp_ochestration.Gateway.Wire.{
  ContainerRequest, ContainerResponse, ContainerFailureKind, timeout, overloaded, unauthorized,
  internal,
}
use harp_ochestration.Gateway.Registry.{RegisteredContainer}
use harp_ochestration.Gateway.Certificates.{MtlsMaterial}
use harp_ochestration.Gateway.Transport.{
  Url, Outcome, refused, responded, timed_out, errored, cut_off, Settlement, resolves, throws,
  pending, Node, deliver, deliver_to, settled, on_end, fail, options_of, parsed_or,
}

-- A failure of the transport's own making: of one of four kinds, not retryable if unauthorized.
unfoldable pub IsOwnFailure : ContainerRequest → ContainerResponse → Type 0
IsOwnFailure request response =
    (kind : ContainerFailureKind) × (message : String) × (retryable : Bool) × (response
      ≡ fail request kind message retryable)
    × (((kind ≡ unauthorized) × (retryable ≡ false))
        ⊎ (((kind ≡ timeout) ⊎ (kind ≡ overloaded) ⊎ (kind ≡ internal)) × (retryable ≡ true)))

-- A response that was read from the text that a server sent.
unfoldable pub IsRead : (String → Option ContainerResponse) → Outcome → ContainerResponse → Type 0
IsRead parse outcome response =
    (status : Option ℕ) × (text : String) × (outcome ≡ responded status text)
    × (parse text ≡ some response)

parsed_or-IsRead :
    (parse : String → Option ContainerResponse) (request : ContainerRequest) (status : Option ℕ)
    (text : String) (read : Option ContainerResponse)
    → parse text ≡ read
    → IsRead parse
        (responded status text)
        (parsed_or (fail request internal "Unparseable container response" true) read)
      ⊎ IsOwnFailure request
          (parsed_or (fail request internal "Unparseable container response" true) read)
unfolding IsRead IsOwnFailure
parsed_or-IsRead parse request status text none h = inr (_, _, _, refl, inr (inr (inr refl), refl))
parsed_or-IsRead parse request status text (some response) h = inl (status, text, refl, h)

chosen-IsOwnFailure :
    (request : ContainerRequest) (message : String) (late : Bool)
    → IsOwnFailure request (fail request (if late then timeout else internal) message true)
unfolding IsOwnFailure
chosen-IsOwnFailure request message true = (_, _, _, refl, inr (inl refl, refl))
chosen-IsOwnFailure request message false = (_, _, _, refl, inr (inr (inr refl), refl))

-- By the two tests of the status.
chosen-IsRead :
    (parse : String → Option ContainerResponse) (request : ContainerRequest) (status : Option ℕ)
    (text : String) (message : String) (forbidden busy : Bool) (response : ContainerResponse)
    → response ≡ (
        if forbidden
        then fail request unauthorized message false
        else if busy
        then fail request overloaded "Container overloaded" true
        else parsed_or (fail request internal "Unparseable container response" true) (parse text))
    → IsRead parse (responded status text) response ⊎ IsOwnFailure request response
unfolding IsOwnFailure
chosen-IsRead parse request status text message true busy response h =
    rw h (inr (_, _, _, refl, inl (refl, refl)))
chosen-IsRead parse request status text message false true response h =
    rw h (inr (_, _, _, refl, inr (inr (inl refl), refl)))
chosen-IsRead parse request status text message false false response h =
    rw h (parsed_or-IsRead parse request status text _ refl)

-- The delivery resolves with a failure of its own, after an outcome that has no text.
abbrev ResolvesOwn : ContainerRequest → Settlement → Type 0
ResolvesOwn request s =
    (response : ContainerResponse) × (s ≡ resolves response) × IsOwnFailure request response

-- What a delivery comes to, told by the outcome of its request.
unfoldable pub IsAccounted :
    (String → Option ContainerResponse) → ContainerRequest → Outcome → Settlement → Type 0
IsAccounted parse request (refused message) s = s ≡ throws
IsAccounted parse request (responded status text) s =
    (response : ContainerResponse) × (s ≡ resolves response)
    × (IsRead parse (responded status text) response ⊎ IsOwnFailure request response)
IsAccounted parse request timed_out s =
    (message : String) × (s ≡ resolves (fail request timeout message true))
IsAccounted parse request (errored message) s = ResolvesOwn request s
IsAccounted parse request cut_off s = s ≡ pending

settled-IsAccounted :
    (parse : String → Option ContainerResponse) (request : ContainerRequest) (outcome : Outcome)
    → IsAccounted parse request outcome (settled parse request outcome)
unfolding settled on_end IsAccounted includes lower_case
settled-IsAccounted parse request (refused message) = refl
settled-IsAccounted parse request timed_out = (_, refl)
settled-IsAccounted parse request (errored message) =
    (_, refl, chosen-IsOwnFailure request message _)
settled-IsAccounted parse request (responded status text) =
    (_, refl, chosen-IsRead parse request status text _ _ _ _ refl)
settled-IsAccounted parse request cut_off = refl

-- The outcome of the request that a delivery to a parsed URL makes.
unfoldable pub outcome_at :
    {B W : Type 0} → Node B W → MtlsMaterial B → ContainerRequest → W → Url → Outcome
outcome_at node material request w url =
    (node.request (options_of material url request (node.byte_length (node.stringify request)))
      (node.stringify request) w).0

deliver_to-IsAccounted :
    {B W : Type 0} (node : Node B W) (material : MtlsMaterial B) (request : ContainerRequest)
    (at : Option Url) (w : W)
    → ((at ≡ none) × ((deliver_to node material request at w).0 ≡ throws))
      ⊎ ((url : Url) × (at ≡ some url)
          × IsAccounted node.parse request
              (outcome_at node material request w url)
              (deliver_to node material request at w).0)
unfolding deliver_to outcome_at
deliver_to-IsAccounted node material request none w = inl (refl, refl)
deliver_to-IsAccounted node material request (some url) w =
    inr (url, refl, settled-IsAccounted node.parse request _)

-- Where the base URL of the container does not parse, a delivery throws. Where it does, it throws
-- when `https.request` throws, is left pending when the response breaks off, and resolves in every
-- other case: with a timeout that may be retried when the deadline passes first, with a failure of
-- the transport's own at an error, and at a response with what was read from its text or with a
-- failure of the transport's own. Such a failure carries the correlation id and the version of the
-- request and is either `unauthorized` and not to be retried, or a timeout, an overload or an internal
-- failure that may be retried.
pub deliver-IsAccounted :
    {B W : Type 0} (node : Node B W) (material : MtlsMaterial B) (container : RegisteredContainer)
    (request : ContainerRequest) (w : W)
    → ((node.parse_url "/v1/generate" container.base_url ≡ none)
        × ((deliver node material container request w).0 ≡ throws))
      ⊎ ((url : Url) × (node.parse_url "/v1/generate" container.base_url ≡ some url)
          × IsAccounted node.parse request
              (outcome_at node material request w url)
              (deliver node material container request w).0)
unfolding deliver
deliver-IsAccounted node material container request w =
    deliver_to-IsAccounted node material request (node.parse_url "/v1/generate" container.base_url)
      w
