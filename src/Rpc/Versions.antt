-- ===== src/Rpc/Versions.antt =====
-- json_rpc/server/http_request_compatibility.rs: the JSON-RPC versions of the clients.
pub mod Served
pub mod ContentType
mod Tests
use Prim.Native.String.{String}
use text.Mathlib.Text.{◌==◌ as str_eq}
use wallet.Prelude.{
  ℕ, ◌==◌, ◌||◌, Bool, true, false, Option, none, some, List, [], ◌∷◌, if◌then◌else◌, Result, ok,
  err, is_some,
}
use wallet.Rpc.Amount.{Text}
use wallet.Rpc.Authorization.{strip_prefix}

pub data JsonRpcVersion : Type 0 where
  bitcoind lightwalletd two_point_zero unknown : JsonRpcVersion

-- The `id` of a request, by the kind of its JSON value.
pub data RequestId (Raw : Type 0) : Type 0 where
  null : RequestId Raw
  string number else_id : Raw → RequestId Raw

pub record JsonRpcRequest (Raw : Type 0) : Type 0 where
  pub jsonrpc : Option String
  pub method : String
  pub params : Option Raw
  pub id : Option (RequestId Raw)

pub record JsonRpcResponse (Raw : Type 0) : Type 0 where
  pub jsonrpc : Option String
  pub result : Option Raw
  pub error : Option Raw
  pub id : RequestId Raw

-- The error codes that the status depends on.
pub data ErrorCode : Type 0 where
  invalid_request method_not_found else_code : ErrorCode

-- The serialization of JSON, and the code of an error object.
pub record Json : Type 1 where
  pub Raw : Type 0
  pub json_null : Raw
  pub read_request : List ℕ → Option (JsonRpcRequest Raw)
  pub write_request : JsonRpcRequest Raw → List ℕ
  pub read_response : List ℕ → Option (JsonRpcResponse Raw)
  pub write_response : JsonRpcResponse Raw → List ℕ
  pub code : Raw → Option ErrorCode

-- How the collection of a body under the limit ends.
pub data Collected : Type 0 where
  collected : List ℕ → Collected
  length_limit failed : Collected

-- The content type is there as a text, if it is visible ASCII.
pub record Request : Type 0 where
  pub content_type : Option (Option Text)
  pub body : Collected

pub record Response : Type 0 where
  pub status : ℕ
  pub body : List ℕ

-- The answer of the middleware: the service's error or a response, or a failed assertion.
pub data Answer : Type 0 where
  answered : Response → Answer
  service_error : String → Answer
  panics : Answer

-- "application/json" and "text/plain".
abbrev pub application_json : Text
application_json =
    97 ∷ 112 ∷ 112 ∷ 108 ∷ 105 ∷ 99 ∷ 97 ∷ 116 ∷ 105 ∷ 111 ∷ 110 ∷ 47 ∷ 106 ∷ 115 ∷ 111 ∷ 110 ∷ []

abbrev pub text_plain : Text
text_plain = 116 ∷ 101 ∷ 120 ∷ 116 ∷ 47 ∷ 112 ∷ 108 ∷ 97 ∷ 105 ∷ 110 ∷ []

-- `insert_or_replace_content_type_header`; a value that is no text counts as empty.
unfoldable pub content_type_for : Option (Option Text) → Option (Option Text)
unfolding strip_prefix
content_type_for none = some (some application_json)
content_type_for (some none) = some none
content_type_for (some (some value)) =
    if is_some (strip_prefix text_plain value)
    then some (some application_json)
    else some (some value)

unfoldable pub is_simple : {Raw : Type 0} → Option (RequestId Raw) → Bool
is_simple none = true
is_simple (some null) = true
is_simple (some (string _)) = true
is_simple (some (number _)) = true
is_simple (some (else_id _)) = false

-- The match of `JsonRpcRequest::version`.
unfoldable pub version_of :
    {Raw : Type 0} → Option String → Option Raw → Option (RequestId Raw) → JsonRpcVersion
unfolding is_simple
version_of (some s) (some _) (some id) =
    if str_eq s "2.0"
    then (if is_simple (some id) then two_point_zero else unknown)
    else if str_eq s "1.0"
    then lightwalletd
    else unknown
version_of (some s) params id =
    if str_eq s "2.0" then (if is_simple id then two_point_zero else unknown) else unknown
version_of none (some _) (some _) = bitcoind
version_of none _ _ = unknown

unfoldable pub version : {Raw : Type 0} → JsonRpcRequest Raw → JsonRpcVersion
unfolding version_of
version r = version_of r.jsonrpc r.params r.id

unfoldable pub into_2 : {Raw : Type 0} → JsonRpcRequest Raw → JsonRpcRequest Raw
into_2 r = record r { jsonrpc = some "2.0" }

-- `or_else(json_null)`.
unfoldable pub or_null : {Raw : Type 0} → Raw → Option Raw → Option Raw
or_null json_null none = some json_null
or_null json_null (some r) = some r

unfoldable pub is_two : Option String → Bool
is_two none = false
is_two (some s) = str_eq s "2.0"

module _ (j : Json) where
  -- The arm for JSON-RPC 2.0, with its assertions.
  unfoldable pub into_two_point_zero : JsonRpcResponse j.Raw → Option (JsonRpcResponse j.Raw)
  unfolding or_null is_two
  into_two_point_zero r =
      if is_two r.jsonrpc
      then (elim r.error [
        | none ↦ some (record r { result = or_null j.json_null r.result })
        | some _ ↦ if is_some r.result then none else some r
      ])
      else none

  -- `into_version`; `none` is a failed assertion.
  unfoldable pub into_version :
      JsonRpcVersion → JsonRpcResponse j.Raw → Option (JsonRpcResponse j.Raw)
  unfolding into_two_point_zero or_null
  into_version bitcoind r = some (record r {
    jsonrpc = none;
    result = or_null j.json_null r.result;
    error = or_null j.json_null r.error;
  })
  into_version lightwalletd r = some (record r {
    jsonrpc = some "1.0";
    result = or_null j.json_null r.result;
    error = or_null j.json_null r.error;
  })
  into_version two_point_zero r = into_two_point_zero r
  into_version unknown r = some r

  unfoldable pub status_of_code : ErrorCode → ℕ
  status_of_code invalid_request = 400
  status_of_code method_not_found = 404
  status_of_code else_code = 500

  unfoldable pub status_of_error : ℕ → Option j.Raw → ℕ
  unfolding status_of_code
  status_of_error status none = status
  status_of_error status (some e) = elim (j.code e) [
    | none ↦ status
    | some code ↦ status_of_code code
  ]

  unfoldable pub status_for : JsonRpcVersion → ℕ → Option j.Raw → ℕ
  unfolding status_of_error
  status_for bitcoind status error = status_of_error status error
  status_for lightwalletd status error = status_of_error status error
  status_for two_point_zero status error = status
  status_for unknown status error = status

  unfoldable pub answer_with : ℕ → Option (JsonRpcResponse j.Raw) → Answer
  answer_with status none = panics
  answer_with status (some r) = answered (record { status = status; body = j.write_response r })

  -- `response_from_json_rpc_2`, from what its body reads as.
  unfoldable pub response_mapped :
      JsonRpcVersion → Response → Option (JsonRpcResponse j.Raw) → Answer
  unfolding into_version status_for answer_with
  response_mapped v response none = answered response
  response_mapped v response (some r) =
      answer_with (status_for v response.status r.error) (into_version v r)

  unfoldable pub response_from_json_rpc_2 : JsonRpcVersion → Response → Answer
  unfolding response_mapped
  response_from_json_rpc_2 v response = response_mapped v response (j.read_response response.body)

  unfoldable pub body_for : JsonRpcVersion → List ℕ → JsonRpcRequest j.Raw → List ℕ
  unfolding into_2
  body_for unknown bytes r = bytes
  body_for _ bytes r = j.write_request (into_2 r)

  unfoldable pub request_mapped : List ℕ → Option (JsonRpcRequest j.Raw) → JsonRpcVersion × List ℕ
  unfolding version body_for
  request_mapped bytes none = (unknown, bytes)
  request_mapped bytes (some r) = (version r, body_for (version r) bytes r)

  -- `request_to_json_rpc_2`: the version with the new body, or the status of a refusal.
  unfoldable pub request_to_json_rpc_2 : Collected → Result (JsonRpcVersion × List ℕ) ℕ
  unfolding request_mapped
  request_to_json_rpc_2 (collected bytes) = ok (request_mapped bytes (j.read_request bytes))
  request_to_json_rpc_2 length_limit = err 413
  request_to_json_rpc_2 failed = err 400

  unfoldable pub served : JsonRpcVersion → Result Response String → Answer
  unfolding response_from_json_rpc_2
  served v (err e) = service_error e
  served v (ok response) = response_from_json_rpc_2 v response

  -- `call`: what the service is called with, if it is, and the answer.
  unfoldable pub call :
      (service : Option (Option Text) → List ℕ → Result Response String)
      → Request
      → Option (Option (Option Text) × List ℕ) × Answer
  unfolding request_to_json_rpc_2 content_type_for served
  call service request = elim (request_to_json_rpc_2 request.body) [
    | err status ↦ (none, answered (record { status = status; body = [] }))
    | ok (v, body) ↦ (
      some (content_type_for request.content_type, body),
      served v (service (content_type_for request.content_type) body),
    )
  ]
