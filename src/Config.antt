-- ===== src/Config.antt =====
-- ngsi_adapter/lib/config.js and the constants of ngsi_adapter/lib/common.js.
pub mod Check
pub mod Options
use fiware_monitoring.Base.{Option, none, ℕ}
use fiware_monitoring.Js.Text.{JsString, codes}

abbrev pub timestamp_attr_name : JsString
timestamp_attr_name = codes "_timestamp"

abbrev pub correlator_http_header : JsString
correlator_http_header = codes "Fiware-Correlator"

abbrev pub broker_api_v0 : JsString
broker_api_v0 = codes "ngsi10"

abbrev pub broker_api_v1 : JsString
broker_api_v1 = codes "v1"

abbrev pub broker_api_v2 : JsString
broker_api_v2 = codes "v2"

-- The options in use; `none` is null.
pub record Config : Type 0 where
  pub log_level : JsString
  pub broker_url : JsString
  pub broker_api : JsString
  pub listen_host : JsString
  pub listen_port : JsString
  pub udp_endpoints : Option JsString
  pub parsers_path : JsString
  pub max_requests : ℕ
  pub retries : ℕ

abbrev pub defaults : Config
defaults = record {
  log_level = codes "INFO";
  broker_url = codes "http://127.0.0.1:1026/";
  broker_api = broker_api_v0;
  listen_host = codes "0.0.0.0";
  listen_port = codes "1337";
  udp_endpoints = none;
  parsers_path = codes "lib/parsers:lib/parsers/nagios";
  max_requests = 5;
  retries = 2;
}
