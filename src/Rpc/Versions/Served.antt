-- ===== src/Rpc/Versions/Served.antt =====
-- What a client of each JSON-RPC version is answered.
use Prim.Native.String.{String}
use wallet.Prelude.{
  ℕ, ◌≡◌, ◌≢◌, ◌⊎◌, refl, ◌∙◌, inl, inr, not, is_some, Bool, if◌then◌else◌, ap, true, Option, none,
  some, List, Result, ok,
}
use wallet.Rpc.Amount.{Text}
use wallet.Rpc.Versions.{
  JsonRpcVersion, bitcoind, lightwalletd, two_point_zero, unknown, JsonRpcRequest, JsonRpcResponse,
  RequestId, null, string, number, else_id, ErrorCode, invalid_request, method_not_found, else_code,
  is_simple, version_of, status_of_code, status_of_error, Json, Response, collected, answered,
  version, into_2, or_null, is_two, into_two_point_zero, into_version, status_for, answer_with,
  response_mapped, response_from_json_rpc_2, body_for, request_mapped, request_to_json_rpc_2,
  served, call,
}
use wallet.Rpc.Versions.ContentType.{IsServedAs, content_type_for-IsServedAs}

module _ (j : Json) where
  -- A response of JSON-RPC 2.0: it has at most a result or an error.
  pub record IsTwo (p : JsonRpcResponse j.Raw) : Type 0 where
    pub jsonrpc_lem : p.jsonrpc ≡ some "2.0"
    pub either_lem : (p.error ≡ none) ⊎ ((e : j.Raw) × (p.error ≡ some e) × (p.result ≡ none))

  -- The form of a response in a client's version.
  abbrev pub Speaks : JsonRpcVersion → JsonRpcResponse j.Raw → Type 0
  Speaks bitcoind p = (p.jsonrpc ≡ none) × (is_some p.result ≡ true) × (is_some p.error ≡ true)
  Speaks lightwalletd p =
      (p.jsonrpc ≡ some "1.0") × (is_some p.result ≡ true) × (is_some p.error ≡ true)
  Speaks two_point_zero p = (p.jsonrpc ≡ some "2.0") × (is_some p.result ≡ not (is_some p.error))
  Speaks unknown p = ⊥

  -- A value that is left out counts as null.
  abbrev pub or_else_null : Option j.Raw → j.Raw
  or_else_null none = j.json_null
  or_else_null (some r) = r

  -- The same answer: the same id, result and error.
  pub record Same (p q : JsonRpcResponse j.Raw) : Type 0 where
    pub id_lem : p.id ≡ q.id
    pub result_lem : or_else_null p.result ≡ or_else_null q.result
    pub error_lem : or_else_null p.error ≡ or_else_null q.error

  is_some-or_null : (o : Option j.Raw) → is_some (or_null j.json_null o) ≡ true
  unfolding or_null
  is_some-or_null none = refl
  is_some-or_null (some r) = refl

  or_else_null-or_null : (o : Option j.Raw) → or_else_null (or_null j.json_null o) ≡ or_else_null o
  unfolding or_null
  or_else_null-or_null none = refl
  or_else_null-or_null (some r) = refl

  Mapped : JsonRpcVersion → JsonRpcResponse j.Raw → Type 0
  Mapped v p = (q : JsonRpcResponse j.Raw) × (into_version j v p ≡ some q) × Speaks v q × Same q p

  two-Mapped : (p : JsonRpcResponse j.Raw) → IsTwo p → Mapped two_point_zero p
  unfolding Mapped into_version into_two_point_zero is_two
  two-Mapped p h = elim h.either_lem [
    | inl none_lem ↦ (
      record p { result = or_null j.json_null p.result },
      rw (h.jsonrpc_lem, none_lem) (let two = h.jsonrpc_lem in cc),
      (h.jsonrpc_lem, is_some-or_null p.result ∙ rw none_lem refl),
      record { id_lem = refl; result_lem = or_else_null-or_null p.result; error_lem = refl },
    )
    | inr (e, error_lem, result_lem) ↦ (
      p,
      rw (h.jsonrpc_lem, error_lem, result_lem) (let two = h.jsonrpc_lem in cc),
      (h.jsonrpc_lem, rw (error_lem, result_lem) refl),
      record { id_lem = refl; result_lem = refl; error_lem = refl },
    )
  ]

  into_version-Mapped :
      (v : JsonRpcVersion) (p : JsonRpcResponse j.Raw) → v ≢ unknown → IsTwo p → Mapped v p
  unfolding Mapped into_version
  into_version-Mapped bitcoind p known h = (
    record p {
      jsonrpc = none;
      result = or_null j.json_null p.result;
      error = or_null j.json_null p.error;
    },
    refl,
    (refl, is_some-or_null p.result, is_some-or_null p.error),
    record {
      id_lem = refl;
      result_lem = or_else_null-or_null p.result;
      error_lem = or_else_null-or_null p.error;
    },
  )
  into_version-Mapped lightwalletd p known h = (
    record p {
      jsonrpc = some "1.0";
      result = or_null j.json_null p.result;
      error = or_null j.json_null p.error;
    },
    refl,
    (refl, is_some-or_null p.result, is_some-or_null p.error),
    record {
      id_lem = refl;
      result_lem = or_else_null-or_null p.result;
      error_lem = or_else_null-or_null p.error;
    },
  )
  into_version-Mapped two_point_zero p known h = two-Mapped p h
  into_version-Mapped unknown p known h = absurd (known refl)

  body_for-eq :
      (v : JsonRpcVersion) (bytes : List ℕ) (r : JsonRpcRequest j.Raw)
      → v ≢ unknown
      → body_for j v bytes r ≡ j.write_request (record r { jsonrpc = some "2.0" })
  unfolding body_for into_2
  body_for-eq bitcoind bytes r known = refl
  body_for-eq lightwalletd bytes r known = refl
  body_for-eq two_point_zero bytes r known = refl
  body_for-eq unknown bytes r known = absurd (known refl)

  -- A request of a client's version: bitcoind's has no version, lightwalletd's is "1.0", and both have
  -- parameters and an id; the id of JSON-RPC 2.0 is null, a text or a number, or left out.
  pub data IsOf : JsonRpcVersion → JsonRpcRequest j.Raw → Type 0 where
    of_bitcoind :
        (method : String) (params : j.Raw) (id : RequestId j.Raw)
        → IsOf bitcoind
            (record { jsonrpc = none; method = method; params = some params; id = some id })
    of_lightwalletd :
        (method : String) (params : j.Raw) (id : RequestId j.Raw)
        → IsOf lightwalletd
            (record { jsonrpc = some "1.0"; method = method; params = some params; id = some id })
    of_two :
        (method : String) (params : Option j.Raw) (id : Option (RequestId j.Raw))
        → ((raw : j.Raw) → id ≢ some (else_id raw))
        → IsOf two_point_zero
            (record { jsonrpc = some "2.0"; method = method; params = params; id = id })

  simple :
      (id : Option (RequestId j.Raw))
      → ((raw : j.Raw) → id ≢ some (else_id raw))
      → is_simple id ≡ true
  unfolding is_simple
  simple none h = refl
  simple (some null) h = refl
  simple (some (string raw)) h = refl
  simple (some (number raw)) h = refl
  simple (some (else_id raw)) h = absurd (h raw refl)

  abbrev classed : Bool → JsonRpcVersion
  classed b = if b then two_point_zero else unknown

  version_of-two :
      (params : Option j.Raw) (id : Option (RequestId j.Raw))
      → is_simple id ≡ true
      → version_of (some "2.0") params id ≡ two_point_zero
  unfolding version_of
  version_of-two none none h = ap classed h
  version_of-two none (some id) h = ap classed h
  version_of-two (some raw) none h = ap classed h
  version_of-two (some raw) (some id) h = ap classed h

  version-IsOf : {v : JsonRpcVersion} {r : JsonRpcRequest j.Raw} → IsOf v r → version r ≡ v
  unfolding version
  version-IsOf (of_bitcoind method params id) = unfold version_of in refl
  version-IsOf (of_lightwalletd method params id) = unfold version_of in refl
  version-IsOf (of_two method params id h) = version_of-two params id (simple id h)

  IsOf-known : {v : JsonRpcVersion} {r : JsonRpcRequest j.Raw} → IsOf v r → v ≢ unknown
  IsOf-known (of_bitcoind method params id) = λ e. cc
  IsOf-known (of_lightwalletd method params id) = λ e. cc
  IsOf-known (of_two method params id h) = λ e. cc

  -- The status of an answer: bitcoind's and lightwalletd's clients get that of the error's code, if
  -- the answer has an error with a code, and otherwise the status is the service's.
  abbrev ByCode : (before : ℕ) → Option ErrorCode → ℕ → Type 0
  ByCode before none after = after ≡ before
  ByCode before (some invalid_request) after = after ≡ 400
  ByCode before (some method_not_found) after = after ≡ 404
  ByCode before (some else_code) after = after ≡ 500

  abbrev ByError : (before : ℕ) → Option j.Raw → ℕ → Type 0
  ByError before none after = after ≡ before
  ByError before (some e) after = ByCode before (j.code e) after

  abbrev pub HasStatus : JsonRpcVersion → (before : ℕ) → Option j.Raw → ℕ → Type 0
  HasStatus bitcoind before error after = ByError before error after
  HasStatus lightwalletd before error after = ByError before error after
  HasStatus two_point_zero before error after = after ≡ before
  HasStatus unknown before error after = ⊥

  status_of_code-ByCode :
      (before : ℕ) (code : Option ErrorCode)
      → ByCode before code
          (elim code as (λ _. ℕ) [ none ↦ before | some code ↦ status_of_code j code ])
  unfolding status_of_code
  status_of_code-ByCode before none = refl
  status_of_code-ByCode before (some invalid_request) = refl
  status_of_code-ByCode before (some method_not_found) = refl
  status_of_code-ByCode before (some else_code) = refl

  status_of_error-ByError :
      (before : ℕ) (error : Option j.Raw) → ByError before error (status_of_error j before error)
  unfolding status_of_error
  status_of_error-ByError before none = refl
  status_of_error-ByError before (some e) = status_of_code-ByCode before (j.code e)

  status_for-HasStatus :
      (v : JsonRpcVersion) (before : ℕ) (error : Option j.Raw)
      → v ≢ unknown
      → HasStatus v before error (status_for j v before error)
  unfolding status_for
  status_for-HasStatus bitcoind before error known = status_of_error-ByError before error
  status_for-HasStatus lightwalletd before error known = status_of_error-ByError before error
  status_for-HasStatus two_point_zero before error known = refl
  status_for-HasStatus unknown before error known = absurd (known refl)

  -- A request of a client's version reaches the service as one of JSON-RPC 2.0 that is otherwise
  -- unchanged, with the content type of JSON where the client's is left out or plain text. If the
  -- service answers a response of JSON-RPC 2.0, then no assertion fails, and the client is answered
  -- the same id, result and error in the form of its version; the status is the service's, but for
  -- bitcoind and lightwalletd 400, 404 or 500 by the error's code, if it has one.
  pub serves_version :
      (service : Option (Option Text) → List ℕ → Result Response String)
      {content_type typed : Option (Option Text)} (bytes : List ℕ) {v : JsonRpcVersion}
      {r : JsonRpcRequest j.Raw} (response : Response) (p : JsonRpcResponse j.Raw)
      → j.read_request bytes ≡ some r
      → IsOf v r
      → IsServedAs content_type typed
      → service typed (j.write_request (record r { jsonrpc = some "2.0" })) ≡ ok response
      → j.read_response response.body ≡ some p
      → IsTwo p
      → (q : JsonRpcResponse j.Raw) × (status : ℕ) × (call j service
            (record { content_type = content_type; body = collected bytes })
          ≡ (
            some (typed, j.write_request (record r { jsonrpc = some "2.0" })),
            answered (record { status = status; body = j.write_response q }),
          ))
        × HasStatus v response.status p.error status
        × Speaks v q
        × Same q p
  unfolding call request_to_json_rpc_2 request_mapped served response_from_json_rpc_2
      response_mapped answer_with Mapped
  serves_version service {content_type} bytes {v} {r} response p read of_v as_type answers reads
        two =
      let known = IsOf-known of_v in
      let (q, mapped, speaks, same) = into_version-Mapped v p known two in
      (
        q,
        status_for j v response.status p.error,
        rw
            (
              read,
              content_type_for-IsServedAs as_type,
              version-IsOf of_v,
              body_for-eq v bytes r known,
              answers,
              reads,
              mapped,
            )
            refl,
        status_for-HasStatus v response.status p.error known,
        speaks,
        same,
      )
