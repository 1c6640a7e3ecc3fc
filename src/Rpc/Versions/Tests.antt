-- ===== src/Rpc/Versions/Tests.antt =====
-- A request of bitcoind's version, and the theorem at it. JSON is coded by its first number.
use Prim.Native.String.{String}
use wallet.Prelude.{ℕ, ◌≡◌, refl, inl, Option, none, some, List, [], ◌∷◌, Result, ok}
use wallet.Rpc.Amount.{Text}
use wallet.Rpc.Versions.{
  bitcoind, version, version_of, JsonRpcRequest, JsonRpcResponse, Json, RequestId, Response,
  collected, length_limit, answered, call, request_to_json_rpc_2, application_json,
}
use wallet.Rpc.Versions.ContentType.{left_out}
use wallet.Rpc.Versions.Served.{IsTwo, Speaks, Same, HasStatus, of_bitcoind, serves_version}

abbrev get_info : JsonRpcRequest ℕ
get_info = record {
  jsonrpc = none;
  method = "getinfo";
  params = some 5;
  id = some (RequestId.number 1);
}

abbrev info : JsonRpcResponse ℕ
info = record { jsonrpc = some "2.0"; result = some 8; error = none; id = RequestId.number 1 }

abbrev json : Json
json = record {
  Raw = ℕ;
  json_null = 0;
  read_request = λ bytes. some get_info;
  write_request = λ r. 2 ∷ [];
  read_response = λ bytes. some info;
  write_response = λ r. 3 ∷ [];
  code = λ e. none;
}

abbrev service : Option (Option Text) → List ℕ → Result Response String
service content_type body = ok (record { status = 200; body = 4 ∷ [] })

info-IsTwo : IsTwo json info
info-IsTwo = record { jsonrpc_lem = refl; either_lem = inl refl }

known : version get_info ≡ bitcoind
unfolding version version_of
known = refl

-- A body above the limit is refused before the service.
too_large :
    call json service (record { content_type = none; body = length_limit })
    ≡ (none, answered (record { status = 413; body = [] }))
unfolding call request_to_json_rpc_2
too_large = refl

serves_version_example :
    (q : JsonRpcResponse ℕ) × (status : ℕ) × (call json service
        (record { content_type = none; body = collected (1 ∷ []) })
      ≡ (
        some (some (some application_json), 2 ∷ []),
        answered (record { status = status; body = 3 ∷ [] }),
      ))
    × HasStatus json bitcoind 200 none status
    × Speaks json bitcoind q
    × Same json q info
serves_version_example =
    serves_version json service (1 ∷ []) (record { status = 200; body = 4 ∷ [] }) info refl
      (of_bitcoind "getinfo" 5 (RequestId.number 1)) left_out refl refl info-IsTwo
