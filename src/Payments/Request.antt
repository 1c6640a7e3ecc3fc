-- ===== src/Payments/Request.antt =====
-- `build_request` and `parse_memo` of payments.rs: the recipients of a send as a payment request.
pub mod Accepts
use Prim.Native.String.{String}
use wallet.Prelude.{
  ℕ, ◌*◌, ltb, any, length, Bool, Option, none, some, List, [], ◌∷◌, ◌++◌, if◌then◌else◌, Result,
  ok, err, ◌>>=◌, ◌>>◌, ok_or, map_err,
}
use wallet.Rpc.{ErrorObject, with_message, invalid_parameter}
use wallet.Rpc.Amount.{Text, JsonValue, zatoshis_from_value}
use wallet.Payments.Address.{Zatoshis}

-- A text is the list of its bytes.
pub record AmountParameter : Type 0 where
  pub address : Text
  pub amount : JsonValue
  pub memo : Option Text

pub data PaymentError : Type 0 where
  transparent_memo zero_valued_transparent_output : PaymentError

-- What the libraries do: the decoding of addresses, which are compared as the elements of a hash
-- set, of hexadecimal text and of memos, and the construction of payments and requests.
pub record Zip321 : Type 1 where
  pub ZcashAddress : Type 0
  pub Memo : Type 0
  pub Payment : Type 0
  pub TransactionRequest : Type 0
  pub parse : Text → Option ZcashAddress
  pub same : ZcashAddress → ZcashAddress → Bool
  pub hex_decode : Text → Option (List ℕ)
  pub from_bytes : List ℕ → Option Memo
  pub payment_new : ZcashAddress → Option ℕ → Option Memo → Result Payment PaymentError
  pub request_new : List Payment → Result TransactionRequest String

abbrev pub max_memo_bytes : ℕ
max_memo_bytes = 512

unfoldable pub payment_message : PaymentError → String
payment_message transparent_memo = "Cannot send memo to transparent recipient"
payment_message zero_valued_transparent_output =
    "Cannot send zero-valued output to transparent recipient"

module _ (z : Zatoshis) (p : Zip321) where
  open p use {ZcashAddress, Memo, Payment, TransactionRequest, parse, same}

  unfoldable pub parse_memo : Text → Result Memo ErrorObject
  parse_memo memo_hex =
      if ltb (max_memo_bytes * 2) (length memo_hex)
      then err (
          with_message invalid_parameter
            "Invalid parameter, memo is longer than the maximum allowed 512 bytes.")
      else (do
        memo_bytes ← ok_or (p.hex_decode memo_hex) (
            with_message invalid_parameter
              "Invalid parameter, expected memo data in hexadecimal format.")
        ok_or (p.from_bytes memo_bytes) (
            with_message invalid_parameter
              "Invalid parameter, memo is longer than the maximum allowed 512 bytes."))

  -- `as_deref().map(parse_memo).transpose()`.
  unfoldable pub memo_of : Option Text → Result (Option Memo) ErrorObject
  memo_of none = ok none
  memo_of (some text) = parse_memo text >>= λ memo. ok (some memo)

  -- `recipient_addrs.insert(addr)`: whether the address is new to the set.
  unfoldable pub insert_new :
      ZcashAddress → List ZcashAddress → Result (List ZcashAddress) ErrorObject
  insert_new addr addrs =
      if any (same addr) addrs
      then err (with_message invalid_parameter "Invalid parameter, duplicated recipient address: ")
      else ok (addr ∷ addrs)

  -- The loop of `build_request`, with its three variables.
  unfoldable pub build_payments :
      List AmountParameter
      → (recipient_addrs : List ZcashAddress) → (payments : List Payment) → (total_out : ℕ)
      → Result (List Payment) ErrorObject
  unfolding insert_new memo_of
  build_payments [] recipient_addrs payments total_out = ok payments
  build_payments (amount ∷ amounts) recipient_addrs payments total_out = do
    addr ←
        ok_or (parse amount.address)
          (with_message invalid_parameter "Invalid parameter, unknown address format: ")
    recipient_addrs' ← insert_new addr recipient_addrs
    memo ← memo_of amount.memo
    value ← zatoshis_from_value z.from_nonnegative_i64 amount.amount
    payment ←
        map_err (λ e. with_message invalid_parameter (payment_message e))
          (p.payment_new addr (some value) memo)
    total_out' ← ok_or (z.add total_out value) (with_message invalid_parameter "Value too large")
    build_payments amounts recipient_addrs' (payments ++ (payment ∷ [])) total_out'

  unfoldable pub build_request : List AmountParameter → Result TransactionRequest ErrorObject
  unfolding build_payments
  build_request [] =
      err (with_message invalid_parameter "Invalid parameter, amounts array is empty.")
  build_request (amount ∷ amounts) = do
    payments ← build_payments (amount ∷ amounts) [] [] 0
    map_err (λ e. with_message invalid_parameter "Invalid payment request: ")
        (p.request_new payments)
