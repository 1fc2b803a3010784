-- ===== src/Parsers/Factory.antt =====
-- ngsi_adapter/lib/parsers/common/factory.js: the parser factory and its cache.
pub mod Caching
pub mod Search
pub mod Sound
pub mod Order
use fiware_monitoring.Base.{
  Bool, List, Option, Result, [], code, err, false, if◌then◌else◌, none, not, ok, some, ◌++◌, ◌∷◌,
}
use fiware_monitoring.Config.{Config}
use fiware_monitoring.Domain.{Domain, Error}
use fiware_monitoring.Js.Object.{Attrs, insert, lookup}
use fiware_monitoring.Js.Text.{JsString, codes, equal, is_truthy, split, contains}
use fiware_monitoring.Parsers.BaseParser.{Parser, base_parser}
use fiware_monitoring.Parsers.Nagios.{EntityData, parse_request}
use fiware_monitoring.Platform.{Platform}

-- The methods that a module's prototype defines itself.
pub record Overrides : Type 0 where
  pub parse_request : Option (Domain → Result Error (EntityData × Domain))
  pub get_context_attrs : Option (EntityData → Result Error Attrs)

-- The export `parser` of a module, by what its prototype chain is: null, one that ends in
-- `baseParser`, or another one.
pub data Prototype : Type 0 where
  rootless : Overrides → Prototype
  derived : Parser → Prototype
  foreign : Prototype

-- What `require(file).parser` gives: a prototype, undefined, or an exception with its code.
pub data Module : Type 0 where
  loaded : Prototype → Module
  undefined : Module
  thrown : Option JsString → Module

-- An object used as a parser: one with the methods of `baseParser`, or one without
-- `getUpdateRequest`, such as a member of `Object.prototype`.
pub data ParserObject : Type 0 where
  parser : Parser → ParserObject
  alien : ParserObject

-- `parsersCache`, an object that inherits from `Object.prototype`.
abbrev pub Cache : Type 0
Cache = List (JsString × ParserObject)

abbrev pub object_prototype_names : List JsString
object_prototype_names =
    codes "constructor"
    ∷ codes "toString"
    ∷ codes "toLocaleString"
    ∷ codes "valueOf"
    ∷ codes "hasOwnProperty"
    ∷ codes "isPrototypeOf"
    ∷ codes "propertyIsEnumerable"
    ∷ codes "__proto__"
    ∷ codes "__defineGetter__"
    ∷ codes "__defineSetter__"
    ∷ codes "__lookupGetter__"
    ∷ codes "__lookupSetter__"
    ∷ []

-- `parsersCache[name]`: an own member, or an inherited one.
abbrev pub own_or_inherited : JsString → Option ParserObject → Option ParserObject
own_or_inherited name (some p) = some p
own_or_inherited name none = if contains object_prototype_names name then some alien else none

unfoldable pub cached : Cache → JsString → Option ParserObject
unfolding lookup contains
cached cache name = own_or_inherited name (lookup name cache)

abbrev pub or_default {ℓ} : {A : Type ℓ} → Option A → A → A
or_default none d = d
or_default (some a) d = a

-- `Object.create(prototype)`, after `baseParser` was made the root of a chain that had none.
abbrev pub create : Prototype → ParserObject
create (rootless o) = parser (record {
  parse_request = or_default o.parse_request base_parser.parse_request;
  get_context_attrs = or_default o.get_context_attrs base_parser.get_context_attrs;
})
create (derived p) = parser p
create foreign = alien

-- `errorCode`
pub data ErrorCode : Type 0 where
  module_not_found invalid : ErrorCode

abbrev pub is_not_found : Option JsString → Bool
is_not_found none = false
is_not_found (some code) = equal code (codes "MODULE_NOT_FOUND")

-- One directory: an object, or `errorCode` after it.
abbrev pub try_module : Module → ErrorCode → Result ErrorCode ParserObject
try_module (loaded prototype) error_code = ok (create prototype)
try_module undefined error_code = err invalid
try_module (thrown code) error_code = err (if is_not_found code then error_code else invalid)

-- `return false` goes on with the next directory.
abbrev pub or_else :
    Result ErrorCode ParserObject
    → (ErrorCode → Result ErrorCode ParserObject)
    → Result ErrorCode ParserObject
or_else (ok p) next = ok p
or_else (err code) next = next code

module _ (platform : Platform) (require : JsString → Module) where
  -- The module of the parser in a directory.
  abbrev pub module_in : JsString → JsString → Module
  module_in name dir = require (platform.path_join dir (name ++ codes ".js"))

  -- `parsersPath.split(':').some(…)`: the first directory that has a parser.
  unfoldable pub search_dirs : JsString → List JsString → ErrorCode → Result ErrorCode ParserObject
  search_dirs name [] error_code = err error_code
  search_dirs name (dir ∷ dirs) error_code =
      or_else (try_module (module_in name dir) error_code) (λ code. search_dirs name dirs code)

  -- `errorMsg`
  pub error_msg : Config → JsString → ErrorCode → Error
  error_msg config name module_not_found =
      codes "Module \""
      ++ (name ++ (codes ".js\" could not be found at path " ++ config.parsers_path))
  error_msg config name invalid =
      codes "Invalid parser module \""
      ++ (name ++ (codes ".js\" found at path " ++ config.parsers_path))

  -- The result of the search, and the cache after it.
  pub keep_parser :
      Config → Cache → JsString → Result ErrorCode ParserObject → Cache × Result Error ParserObject
  unfolding error_msg insert
  keep_parser config cache name (ok p) = (insert name p cache, ok p)
  keep_parser config cache name (err code) = (cache, err (error_msg config name code))

  pub load_parser :
      Config → Cache → JsString → Option ParserObject → Cache × Result Error ParserObject
  unfolding search_dirs keep_parser split
  load_parser config cache name (some p) = (cache, ok p)
  load_parser config cache name none =
      keep_parser config cache name
        (search_dirs name (split b':' config.parsers_path) module_not_found)

  unfoldable pub get_parser_by_name : Config → Cache → JsString → Cache × Result Error ParserObject
  unfolding load_parser cached
  get_parser_by_name config cache name = load_parser config cache name (cached cache name)

  -- The `catch` of `getParser`.
  pub probe_error : JsString → Error → Error
  probe_error name message =
      if not (is_truthy name)
      then codes "Missing resource in request"
      else codes "Unknown probe \"" ++ (name ++ (codes "\" (Error: " ++ (message ++ codes ")")))

  pub rename_error :
      JsString → Cache × Result Error ParserObject → Cache × Result Error ParserObject
  unfolding probe_error
  rename_error name (cache, ok p) = (cache, ok p)
  rename_error name (cache, err message) = (cache, err (probe_error name message))

  -- `pathname.slice(1)`
  abbrev pub slice_one : JsString → JsString
  slice_one [] = []
  slice_one (c ∷ s) = s

  pub parser_of_path : Config → Cache → Option JsString → Cache × Result Error ParserObject
  unfolding get_parser_by_name rename_error
  parser_of_path config cache none = (cache, err (codes "Cannot read property 'slice' of null"))
  parser_of_path config cache (some pathname) =
      let name = slice_one pathname in rename_error name (get_parser_by_name config cache name)

  -- `getParser`, for the URL of the request.
  unfoldable pub get_parser : Config → Cache → JsString → Cache × Result Error ParserObject
  unfolding parser_of_path
  get_parser config cache url = parser_of_path config cache (platform.parse_url url).pathname
