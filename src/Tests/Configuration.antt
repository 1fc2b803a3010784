-- ===== src/Tests/Configuration.antt =====
-- The theorems about the options, for concrete options.
use fiware_monitoring.Js.Text.Split.{is_free-Free}
use fiware_monitoring.Adapter.Endpoints.{endpoints}
use fiware_monitoring.Adapter.Endpoints.Reads.{IsEndpoint, Parts, bound, endpoints-render}
use fiware_monitoring.Base.{◌++◌, All, Bool, [], arith, map, none, not, refl, some, ◌↔◌, ◌∷◌, ◌≡◌}
use fiware_monitoring.Config.{Config, defaults}
use fiware_monitoring.Config.Check.{all_dirs, broker_api_of, check_dirs, is_terminator}
use fiware_monitoring.Config.Check.BrokerApi.{broker_api_of-path}
use fiware_monitoring.Config.Check.Resolve.{CanRead, IsDenied}
use fiware_monitoring.Config.Check.Dirs.{IsUnique, check_dirs-IsUnique, check_dirs_iff}
use fiware_monitoring.Domain.{Error}
use fiware_monitoring.Js.Number.{is_digit}
use fiware_monitoring.Js.Text.{JsString, codes, contains, equal, join, split}
use fiware_monitoring.Tests.Sample.{all-All, node}

abbrev repeated : Config
repeated = record defaults { parsers_path = codes "lib/parsers:mine" }

abbrev readable : JsString → Bool
readable dir = not (equal dir (codes "/closed"))

check_dirs_iff_example :
    (((check_dirs node readable (codes "adapter") repeated).1 ≡ none)
      ↔ All (CanRead node readable) (all_dirs repeated))
    × ((e : Error)
        → ((check_dirs node readable (codes "adapter") repeated).1 ≡ some e) ↔ (
            (path : JsString) × IsDenied node readable (all_dirs repeated) path
            × (e
                ≡ codes "Server user \""
                  ++ (codes "adapter"
                      ++ (codes "\" cannot access parsers directory \"" ++ (path ++ codes "\""))))))
check_dirs_iff_example = check_dirs_iff node readable (codes "adapter") repeated

check_dirs-IsUnique_example :
    IsUnique (split b':' (check_dirs node readable (codes "adapter") repeated).0.parsers_path)
    × ((s : JsString)
        → contains
            (split b':' (check_dirs node readable (codes "adapter") repeated).0.parsers_path)
            s
          ≡ contains (map node.path_resolve (all_dirs repeated)) s)
unfolding split equal
check_dirs-IsUnique_example =
    check_dirs-IsUnique node readable (codes "adapter") repeated (refl, (refl, (refl, (refl, tt))))
      (λ dir h. (omega arith, h))

broker_api_of-path_example :
    (broker_api_of node (codes "/V2") ≡ codes "v2")
    × (broker_api_of node (codes "/V2/") ≡ codes "v2")
unfolding is_terminator
broker_api_of-path_example =
    broker_api_of-path node b'V' b'v' (codes "2") (codes "2") (refl, (refl, (omega arith))) refl
      refl

abbrev load_endpoint : Parts
load_endpoint = record { host = codes "127.0.0.1"; port = codes "1337"; name = codes "check_load" }

abbrev with_endpoint : Config
with_endpoint = record defaults { udp_endpoints = some (codes "127.0.0.1:1337:check_load") }

load_endpoint-IsEndpoint : IsEndpoint load_endpoint
unfolding is_digit
load_endpoint-IsEndpoint = record {
  host_ne = cc;
  host_free =
      (is_free-Free b':' (codes "127.0.0.1") refl, is_free-Free b',' (codes "127.0.0.1") refl);
  port_digits = all-All is_digit (codes "1337") refl;
  port_ne = cc;
  name_ne = cc;
  name_free =
      (is_free-Free b':' (codes "check_load") refl, is_free-Free b',' (codes "check_load") refl);
}

endpoints-render_example : endpoints with_endpoint ≡ map bound (load_endpoint ∷ [])
unfolding join
endpoints-render_example =
    endpoints-render with_endpoint load_endpoint [] refl (load_endpoint-IsEndpoint, tt)
