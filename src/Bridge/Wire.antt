-- ===== src/Bridge/Wire.antt =====
-- The messages that BridgeWriter of jsonrpc.ts writes, as JSON values.
use gian_proxies.Base.{String, Bool, Option, none, some}
use gian_proxies.Json.{Json, null, bool, num, str, obj, Number, minus, Fields, end, field}
use gian_proxies.Bridge.{
  ErrorCode, parse_error, invalid_request, method_not_found, invalid_params, internal_error,
  server_error,
}
use gian_proxies.Bridge.Input.{WrittenError, Response, result, error}

-- `minus n` is the number below the negative of `n`.
abbrev pub code_number : ErrorCode → Number
code_number parse_error = minus 32699
code_number invalid_request = minus 32599
code_number method_not_found = minus 32600
code_number invalid_params = minus 32601
code_number internal_error = minus 32602
code_number server_error = minus 31999

abbrev pub data_fields : Option (String × Bool) → Fields
data_fields none = end
data_fields (some (domain, retryable)) =
    field "data" (obj (field "domainCode" (str domain) (field "retryable" (bool retryable) end)))
      end

-- The text of the message is an argument.
abbrev pub error_json : String → WrittenError → Json
error_json text e =
    obj
      (field "code" (num (code_number e.code)) (field "message" (str text) (data_fields e.data_of)))

abbrev pub id_json : Option String → Json
id_json none = null
id_json (some id) = str id

-- `result` and `error`
abbrev pub response_fields : String → Response → Fields
response_fields text (result id fields) =
    field "jsonrpc" (str "2.0") (field "id" (str id) (field "result" (obj fields) end))
response_fields text (error id e) =
    field "jsonrpc" (str "2.0") (field "id" (id_json id) (field "error" (error_json text e) end))
