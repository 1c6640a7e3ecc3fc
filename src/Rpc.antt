-- ===== src/Rpc.antt =====
-- zallet-core/src/components/json_rpc/server/error.rs: the JSON-RPC error codes.
pub mod Amount
pub mod Authorization
pub mod Balances
pub mod Versions
use Prim.Native.String.{String}
use wallet.Prelude.{Option, none}
use wallet.Prelude.Int.{ℤ, negsuc}

pub data LegacyCode : Type 0 where
  misc forbidden_by_safe_mode type invalid_address_or_key out_of_memory : LegacyCode
  invalid_parameter database deserialization verify verify_rejected : LegacyCode
  verify_already_in_chain in_warmup client_not_connected client_in_initial_download : LegacyCode
  client_node_already_added client_node_not_added client_node_not_connected : LegacyCode
  client_invalid_ip_or_subnet wallet_error wallet_insufficient_funds : LegacyCode
  wallet_accounts_unsupported wallet_keypool_ran_out wallet_unlock_needed : LegacyCode
  wallet_passphrase_incorrect wallet_wrong_enc_state wallet_encryption_failed : LegacyCode
  wallet_already_unlocked wallet_backup_required : LegacyCode

-- `code as i32`: `negsuc n` is -(n + 1).
unfoldable pub to_i32 : LegacyCode → ℤ
to_i32 misc = negsuc 0
to_i32 forbidden_by_safe_mode = negsuc 1
to_i32 type = negsuc 2
to_i32 invalid_address_or_key = negsuc 4
to_i32 out_of_memory = negsuc 6
to_i32 invalid_parameter = negsuc 7
to_i32 database = negsuc 19
to_i32 deserialization = negsuc 21
to_i32 verify = negsuc 24
to_i32 verify_rejected = negsuc 25
to_i32 verify_already_in_chain = negsuc 26
to_i32 in_warmup = negsuc 27
to_i32 client_not_connected = negsuc 8
to_i32 client_in_initial_download = negsuc 9
to_i32 client_node_already_added = negsuc 22
to_i32 client_node_not_added = negsuc 23
to_i32 client_node_not_connected = negsuc 28
to_i32 client_invalid_ip_or_subnet = negsuc 29
to_i32 wallet_error = negsuc 3
to_i32 wallet_insufficient_funds = negsuc 5
to_i32 wallet_accounts_unsupported = negsuc 10
to_i32 wallet_keypool_ran_out = negsuc 11
to_i32 wallet_unlock_needed = negsuc 12
to_i32 wallet_passphrase_incorrect = negsuc 13
to_i32 wallet_wrong_enc_state = negsuc 14
to_i32 wallet_encryption_failed = negsuc 15
to_i32 wallet_already_unlocked = negsuc 16
to_i32 wallet_backup_required = negsuc 17

-- `ErrorObjectOwned`, of which the code makes a code, a message and optional data.
pub record ErrorObject : Type 0 where
  pub code : ℤ
  pub message : String
  pub details : Option String

-- `with_message` and `with_static` differ in the ownership of the message only. The message is the
-- source's static text, or the key of the translated text.
unfoldable pub with_message : LegacyCode → String → ErrorObject
unfolding to_i32
with_message code message = record { code = to_i32 code; message = message; details = none }
