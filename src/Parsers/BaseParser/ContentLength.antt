-- ===== src/Parsers/BaseParser/ContentLength.antt =====
-- The header Content-Length that `getUpdateRequest` sets, against the UTF-8 text that is sent.
use fiware_monitoring.Base.{ok, sym, ◌↔◌, ◌≡◌, ◌≤◌}
use fiware_monitoring.Config.{Config}
use fiware_monitoring.Domain.{Domain}
use fiware_monitoring.Js.Text.Utf8.{IsAscii, length-utf8_length, utf8_length, utf8_length-IsAscii}
use fiware_monitoring.Parsers.BaseParser.{Parser, UpdateRequest, get_update_request}
use fiware_monitoring.Parsers.BaseParser.Payload.{get_update_request-json_parse}
use fiware_monitoring.Platform.{Platform}

module _ (platform : Platform) (config : Config) (p : Parser) (d : Domain) where
  -- The Content-Length of a request that getUpdateRequest builds is never more than the number of
  -- bytes of its body in UTF-8, and it is that number exactly when the body is ASCII.
  pub get_update_request-content_length :
      (u : UpdateRequest)
      → get_update_request platform config p d ≡ ok u
      → (u.options.headers.content_length ≤ utf8_length u.body)
        × ((u.options.headers.content_length ≡ utf8_length u.body) ↔ IsAscii u.body)
  get_update_request-content_length u h =
      let (_, _, size, _) = get_update_request-json_parse platform config p d u h in
      rw size (
        length-utf8_length u.body,
        (
          λ same. (utf8_length-IsAscii u.body).0 (sym same),
          λ ascii. sym ((utf8_length-IsAscii u.body).1 ascii),
        ),
      )
