-- ===== src/Tests/Search.antt =====
-- The theorems about the parser factory, for the installed parsers.
use fiware_monitoring.Parsers.Factory.Order.{load_abstract, load_abstract_comm}
use mathlib.Core.Quot
use fiware_monitoring.Parsers.Factory.Sound.{
  Sound, empty-Sound, get_parser-Sound, get_parser_by_name-Sound,
}
use fiware_monitoring.Base.{All, List, [], err, ok, refl, some, ◌↔◌, ◌∷◌, ◌≡◌}
use fiware_monitoring.Config.{defaults}
use fiware_monitoring.Js.Object.{lookup}
use fiware_monitoring.Js.Text.{JsString, codes, split, contains}
use fiware_monitoring.Parsers.Bundled.{check_load}
use fiware_monitoring.Parsers.Factory.{
  Module, alien, create, derived, get_parser_by_name, module_not_found, parser, search_dirs, thrown,
  Cache, get_parser,
}
use fiware_monitoring.Parsers.Factory.Caching.{
  get_parser_by_name-inherited, get_parser_by_name_again,
}
use fiware_monitoring.Parsers.Factory.Search.{
  IsFirst, IsMissing, search_dirs-IsFirst_iff, search_dirs-not_found_iff,
}
use fiware_monitoring.Tests.Sample.{installed, node}

abbrev dirs : List JsString
dirs = codes "lib/parsers" ∷ codes "lib/parsers/nagios" ∷ []

search_dirs-IsFirst_iff_example :
    (search_dirs node installed (codes "check_load") dirs module_not_found
      ≡ ok (create (derived check_load)))
    ↔ IsFirst node installed (codes "check_load") dirs (create (derived check_load))
search_dirs-IsFirst_iff_example =
    search_dirs-IsFirst_iff node installed (codes "check_load") dirs module_not_found
      (create (derived check_load))

search_dirs-not_found_iff_example :
    (search_dirs node installed (codes "check_none") dirs module_not_found ≡ err module_not_found)
    ↔ All (IsMissing node installed (codes "check_none")) dirs
search_dirs-not_found_iff_example =
    search_dirs-not_found_iff node installed (codes "check_none") dirs

-- No module can be loaded any more.
abbrev removed : JsString → Module
removed file = thrown (some (codes "MODULE_NOT_FOUND"))

get_parser_by_name_again_example :
    get_parser_by_name node removed defaults
      ((codes "check_load", parser check_load) ∷ [])
      (codes "check_load")
    ≡ ((codes "check_load", parser check_load) ∷ [], ok (parser check_load))
unfolding get_parser_by_name search_dirs split
get_parser_by_name_again_example =
    get_parser_by_name_again node installed removed defaults []
      ((codes "check_load", parser check_load) ∷ []) (codes "check_load") (parser check_load) refl

get_parser_by_name-inherited_example :
    get_parser_by_name node removed defaults [] (codes "constructor") ≡ ([], ok alien)
unfolding contains lookup
get_parser_by_name-inherited_example =
    get_parser_by_name-inherited node removed defaults [] (codes "constructor") refl refl

-- The cache after a request for a probe.
abbrev warm : Cache
warm = (get_parser_by_name node installed defaults [] (codes "check_load")).0

get_parser-Sound_example :
    Sound node installed defaults (get_parser node installed defaults warm (codes "/check_load")).0
    × ((get_parser node installed defaults warm (codes "/check_load")).1
        ≡ (get_parser node installed defaults [] (codes "/check_load")).1)
get_parser-Sound_example = get_parser-Sound node installed defaults warm (codes "/check_load") (
    get_parser_by_name-Sound node installed defaults [] (codes "check_load")
      (empty-Sound node installed defaults))

load_abstract_comm_example :
    load_abstract node installed defaults
      (codes "check_load")
      (load_abstract node installed defaults (codes "none") (Quot.mk []))
    ≡ load_abstract node installed defaults
        (codes "none")
        (load_abstract node installed defaults (codes "check_load") (Quot.mk []))
load_abstract_comm_example =
    load_abstract_comm node installed defaults (codes "check_load") (codes "none") (Quot.mk [])
