-- ===== src/Config/Check.antt =====
-- `config.check` of ngsi_adapter/lib/config.js.
pub mod Resolve
pub mod Dirs
pub mod BrokerApi
use fiware_monitoring.Base.{
  Bool, List, Option, Result, [], err, if◌then◌else◌, ltb, none, not, ok, some, ℕ, ◌&&◌, ◌*◌, ◌++◌,
  ◌+◌, ◌==◌, ◌>>=◌, ◌||◌, ◌∷◌,
}
use fiware_monitoring.Config.{Config, defaults}
use fiware_monitoring.Domain.{Error}
use fiware_monitoring.Js.Text.{JsString, codes, contains, equal, join, split}
use fiware_monitoring.Platform.{Platform}

-- The command line beyond the options: `this.help`, the number of other arguments, and the number
-- of keys that optimist has set.
pub record Arguments : Type 0 where
  pub help : Bool
  pub others : ℕ
  pub key_count : ℕ

-- Eight options and the help, each with its short name, and three fixed keys.
abbrev pub expected_key_count : ℕ
expected_key_count = 2 * (8 + 1) + 3

-- How the check ends: the process exits after the help was shown, an exception is thrown, or the
-- options are normalized; the callback was called with an error, or not at all.
pub data Checked : Type 0 where
  exits : Checked
  crashes : Error → Option Error → Checked
  done : Config → Option Error → Checked

-- A line terminator, which `.` does not match.
unfoldable pub is_terminator : ℕ → Bool
is_terminator c = c == b'\n' || c == b'\r' || c == 8232 || c == 8233

-- `s.replace(/(.+)\/$/, '$1')`
pub strip_slash : JsString → JsString
unfolding is_terminator equal
strip_slash [] = []
strip_slash (c ∷ s) =
    let rest = strip_slash s in
    if equal s (b'/' ∷ []) && not (is_terminator c) then c ∷ [] else c ∷ rest

-- `s.replace(/^\/(.+)/, '$1')`
pub drop_slash : JsString → JsString
unfolding is_terminator
drop_slash (c ∷ d ∷ s) = if c == b'/' && not (is_terminator d) then d ∷ s else c ∷ d ∷ s
drop_slash s = s

-- `list.filter(function (item, index) { return list.indexOf(item) === index; })`, after the items
-- that were seen.
pub unique_from : List JsString → List JsString → List JsString
unfolding contains
unique_from seen [] = []
unique_from seen (item ∷ list) =
    let rest = unique_from (item ∷ seen) list in if contains seen item then rest else item ∷ rest

-- `this.parsersPath`, and the error for the callback.
pub normalize : JsString → Config → Result JsString (List JsString) → Config × Option Error
unfolding unique_from join
normalize user config (ok list) =
    (record config { parsers_path = join (b':' ∷ []) (unique_from [] list) }, none)
normalize user config (err dir) = (
  config,
  some (
      codes "Server user \""
      ++ (user ++ (codes "\" cannot access parsers directory \"" ++ (dir ++ codes "\"")))),
)

-- The directories of the option, and then those of the default.
abbrev pub all_dirs : Config → List JsString
all_dirs config = split b':' (config.parsers_path ++ (b':' ∷ defaults.parsers_path))

module _ (platform : Platform) where
  -- `this.brokerApi`, for the path of the URL.
  unfoldable pub broker_api_of : JsString → JsString
  unfolding strip_slash drop_slash equal
  broker_api_of pathname =
      let path = platform.to_lower (strip_slash pathname) in
      if equal path (codes "/") then defaults.broker_api else drop_slash path

module _ (platform : Platform) (can_read : JsString → Bool) where
  -- The loop over the directories: the absolute ones, or the first that cannot be read.
  pub resolve_dirs : List JsString → Result JsString (List JsString)
  resolve_dirs [] = ok []
  resolve_dirs (dir ∷ dirs) =
      let later = resolve_dirs dirs in
      if can_read (platform.path_resolve dir)
      then (later >>= λ list. ok (platform.path_resolve dir ∷ list))
      else err (platform.path_resolve dir)

  pub check_dirs : JsString → Config → Config × Option Error
  unfolding resolve_dirs normalize
  check_dirs user config = normalize user config (resolve_dirs (all_dirs config))

  unfoldable pub check_broker : Config × Option Error → Option JsString → Checked
  unfolding broker_api_of
  check_broker (config, error_) none =
      crashes (codes "Cannot read property 'replace' of null") error_
  check_broker (config, error_) (some pathname) =
      done
        (record config {
          broker_url = platform.format_url config.broker_url (codes "/");
          broker_api = broker_api_of platform pathname;
        })
        error_

  unfoldable pub check : JsString → Arguments → Config → Checked
  unfolding check_dirs check_broker
  check user arguments config =
      if arguments.help || ltb 0 arguments.others || not (arguments.key_count == expected_key_count)
      then exits
      else check_broker (check_dirs user config) (platform.parse_url config.broker_url).pathname
