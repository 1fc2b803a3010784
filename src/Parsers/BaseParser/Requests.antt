-- ===== src/Parsers/BaseParser/Requests.antt =====
-- When `getUpdateRequest` builds a request, and which one.
use fiware_monitoring.Base.{
  >>=-eq-ok, All, Bool, Bool-cases, inl, inr, [], err, false, if◌then◌else◌, not, ok, refl, true,
  ◌||◌, ◌↔◌, ◌∷◌, ◌≡◌, ◌≢◌, Result,
}
use fiware_monitoring.Config.{Config, timestamp_attr_name}
use fiware_monitoring.Domain.{Domain, Error}
use fiware_monitoring.Js.Object.{Attrs, Value, insert, integer, nullish, number, string}
use fiware_monitoring.Js.Text.{JsString, codes, equal}
use fiware_monitoring.Parsers.BaseParser.{
  Parser, UpdateRequest, build_update, check_update, check_values, timestamped, get_update_request,
  is_given,
}
use fiware_monitoring.Parsers.Nagios.{EntityData}
use fiware_monitoring.Platform.{Platform}

check_update_iff :
    (d : Domain) (attrs : Attrs)
    → (check_update d attrs ≡ ok tt)
      ↔ ((attrs ≢ []) × (is_given d.entity_id ≡ true) × (is_given d.entity_type ≡ true))
unfolding check_update
check_update_iff d [] = (λ h. absurd (cc h), λ h. absurd (h.0 refl))
check_update_iff d (a ∷ attrs) = given_cases (is_given d.entity_id) (is_given d.entity_type)
  where
    given_cases :
        (x y : Bool)
        → ◌≡◌ {A = Result Error (Unit {0})}
            (if not x || not y then err (codes "Missing entityId and/or entityType") else ok tt)
            (ok tt)
          ↔ ((a ∷ attrs ≢ []) × (x ≡ true) × (y ≡ true))
    given_cases true true = (λ h. (cc, refl, refl), λ h. refl)
    given_cases true false = (λ h. absurd (cc h), λ h. absurd (cc (h.2)))
    given_cases false y = (λ h. absurd (cc h), λ h. absurd (cc (h.1)))

-- A value that is neither undefined nor null.
abbrev pub HasText : JsString × Value → Type 0
HasText (name, nullish s) = ⊥
HasText (name, v) = Unit

check_values_iff : (attrs : Attrs) → (check_values attrs ≡ ok tt) ↔ All HasText attrs
unfolding check_values
check_values_iff [] = (λ _. tt, λ _. refl)
check_values_iff ((name, number n) ∷ attrs) =
    (λ h. (tt, (check_values_iff attrs).0 h), λ h. (check_values_iff attrs).1 h.1)
check_values_iff ((name, integer n) ∷ attrs) =
    (λ h. (tt, (check_values_iff attrs).0 h), λ h. (check_values_iff attrs).1 h.1)
check_values_iff ((name, string s) ∷ attrs) =
    (λ h. (tt, (check_values_iff attrs).0 h), λ h. (check_values_iff attrs).1 h.1)
check_values_iff ((name, nullish s) ∷ attrs) = (λ h. absurd (cc h), λ h. absurd h.0)

-- The timestamp is a number.
pub timestamped-HasText :
    (d : Domain) (attrs : Attrs) → All HasText attrs → All HasText (timestamped d attrs)
unfolding timestamped insert
timestamped-HasText d [] h = (tt, tt)
timestamped-HasText d ((name, v) ∷ attrs) h = elim (Bool-cases (equal name timestamp_attr_name)) [
  | inl e ↦ rw e (tt, h.1)
  | inr e ↦ rw e (h.0, timestamped-HasText d attrs h.1)
]

-- The parser's two methods succeed, there is an attribute, and the entity has an identifier and a
-- type once the request is parsed; and no attribute is undefined or null, but perhaps one in the
-- place of the timestamp.
pub record IsUpdate (platform : Platform) (config : Config) (p : Parser) (d : Domain)
    (u : UpdateRequest) : Type 0 where
  pub entity_data : EntityData
  pub reqdomain : Domain
  pub attrs : Attrs
  pub parsed : p.parse_request d ≡ ok (entity_data, reqdomain)
  pub read : p.get_context_attrs entity_data ≡ ok attrs
  pub attrs_ne : attrs ≢ []
  pub has_id : is_given reqdomain.entity_id ≡ true
  pub has_type : is_given reqdomain.entity_type ≡ true
  pub have_text : All HasText (timestamped reqdomain attrs)
  pub built : u ≡ build_update platform config reqdomain attrs

get_update_request_sound :
    (platform : Platform) (config : Config) (p : Parser) (d : Domain) (u : UpdateRequest)
    → get_update_request platform config p d ≡ ok u
    → IsUpdate platform config p d u
unfolding get_update_request
get_update_request_sound platform config p d u h =
    let ((e, d'), parsed, h1) = >>=-eq-ok (p.parse_request d) _ h in
    let (attrs, read, h2) = >>=-eq-ok (p.get_context_attrs e) _ h1 in
    let (t, checked, h3) = >>=-eq-ok (check_update d' attrs) _ h2 in
    let (t', filled, h4) = >>=-eq-ok (check_values (timestamped d' attrs)) _ h3 in
    let (ne, has_id, has_type) = (check_update_iff d' attrs).0 checked in
    record {
      entity_data = e;
      reqdomain = d';
      attrs = attrs;
      parsed = parsed;
      read = read;
      attrs_ne = ne;
      has_id = has_id;
      has_type = has_type;
      have_text = (check_values_iff (timestamped d' attrs)).0 filled;
      built = cc h4;
    }

-- getUpdateRequest returns a request exactly when both methods of the parser succeed, there is an
-- attribute, the entity has an identifier and a type after parsing, and no attribute is undefined
-- or null once the timestamp is set, and the request is then the one built from these.
pub get_update_request-IsUpdate :
    (platform : Platform) (config : Config) (p : Parser) (d : Domain) (u : UpdateRequest)
    → (get_update_request platform config p d ≡ ok u) ↔ IsUpdate platform config p d u
unfolding get_update_request
get_update_request-IsUpdate platform config p d u = (
  get_update_request_sound platform config p d u,
  λ i.
      rw
        (
          i.parsed,
          i.read,
          (check_update_iff i.reqdomain i.attrs).1 (i.attrs_ne, i.has_id, i.has_type),
          (check_values_iff (timestamped i.reqdomain i.attrs)).1 i.have_text,
          i.built,
        )
        refl,
)
