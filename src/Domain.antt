-- ===== src/Domain.antt =====
-- The domain that handles a request: the object `reqdomain` which ngsi_adapter/lib/adapter.js fills in and the
-- parsers of ngsi_adapter/lib/parsers/common read.
use fiware_monitoring.Base.{List, ℕ}
use fiware_monitoring.Js.Text.{JsString}

-- A thrown `Error`, as its message.
abbrev pub Error : Type 0
Error = JsString

-- `context`: the transaction and correlation identifiers, and the operation in progress.
pub record Context : Type 0 where
  pub trans : JsString
  pub corr : JsString
  pub op : JsString

-- An argument of the query string: missing, given once, or given several times.
pub data Param : Type 0 where
  absent : Param
  one : JsString → Param
  many : List JsString → Param

-- `body`: the concatenated chunks of an HTTP request, or the datagram of an UDP request, which the
-- socket delivers as a Buffer of bytes.
pub data Body : Type 0 where
  text : JsString → Body
  buffer : List ℕ → Body

pub record Domain : Type 0 where
  pub context : Context
  pub entity_id : Param
  pub entity_type : Param
  pub timestamp : ℕ
  pub body : Body
