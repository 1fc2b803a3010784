-- ===== src/Adapter/Listener/Status.antt =====
-- The status with which the HTTP listener answers.
use fiware_monitoring.Js.Text.Equality.{equal_iff, equal_self}
use fiware_monitoring.Adapter.Effect.{heads, replies, requests, error, log}
use fiware_monitoring.Adapter.Listener.{
  Fresh, Handled, Request, entity_id, entity_type, on_request, request_context, missing_entity,
  with_parser, without_parser, new_domain,
}
use fiware_monitoring.Base.{
  Bool, Bool-cases, Result, [], err, false, inl, inr, ok, true, ℕ, ◌&&◌, ◌∷◌, ◌≡◌, ◌≢◌, ap, arith,
  not, refl, sym, ◌||◌, ◌↔◌, ◌∙◌, List, none, some, ◌⊎◌,
}
use fiware_monitoring.Config.{Config}
use fiware_monitoring.Domain.{Error}
use fiware_monitoring.Js.Text.{JsString, codes, equal}
use fiware_monitoring.Parsers.BaseParser.{is_given}
use fiware_monitoring.Parsers.Factory.{Cache, Module, ParserObject, get_parser}
use fiware_monitoring.Platform.{Platform}

module _ (platform : Platform) (require : JsString → Module) (config : Config) (fresh : Fresh)
    (req : Request) (cache : Cache) where
  abbrev pub given : Bool
  given = is_given (entity_id platform req) && is_given (entity_type platform req)

  abbrev pub found : Result Error ParserObject
  found = (get_parser platform require config cache req.url).1

  -- The status that the documentation asks for: POST is the only method, the query names an entity
  -- with its type, and the path names a probe.
  pub data StatusOf (status : ℕ) : Type 0 where
    not_allowed : req.method ≢ codes "POST" → status ≡ 405 → StatusOf status
    bad_request : req.method ≡ codes "POST" → given ≡ false → status ≡ 400 → StatusOf status
    not_found :
        (e : Error)
        → req.method ≡ codes "POST"
        → given ≡ true
        → found ≡ err e
        → status ≡ 404
        → StatusOf status
    accepted :
        (object : ParserObject)
        → req.method ≡ codes "POST"
        → given ≡ true
        → found ≡ ok object
        → status ≡ 200
        → StatusOf status

  pub StatusOf-unique : {s t : ℕ} → StatusOf s → StatusOf t → s ≡ t
  StatusOf-unique (not_allowed n e) (not_allowed n' f) = cc
  StatusOf-unique (not_allowed n e) (bad_request m g f) = absurd (n m)
  StatusOf-unique (not_allowed n e) (not_found _ m g h f) = absurd (n m)
  StatusOf-unique (not_allowed n e) (accepted _ m g h f) = absurd (n m)
  StatusOf-unique (bad_request m g e) (not_allowed n f) = absurd (n m)
  StatusOf-unique (not_found _ m g h e) (not_allowed n f) = absurd (n m)
  StatusOf-unique (accepted _ m g h e) (not_allowed n f) = absurd (n m)
  StatusOf-unique (bad_request m g e) (bad_request m' g' f) = cc
  StatusOf-unique (bad_request m g e) (not_found _ m' g' h f) = absurd (cc (g, g'))
  StatusOf-unique (bad_request m g e) (accepted _ m' g' h f) = absurd (cc (g, g'))
  StatusOf-unique (not_found _ m g h e) (bad_request m' g' f) = absurd (cc (g, g'))
  StatusOf-unique (not_found _ m g h e) (not_found _ m' g' h' f) = cc
  StatusOf-unique (not_found _ m g h e) (accepted _ m' g' h' f) = absurd (cc (h, h'))
  StatusOf-unique (accepted _ m g h e) (bad_request m' g' f) = absurd (cc (g, g'))
  StatusOf-unique (accepted _ m g h e) (not_found _ m' g' h' f) = absurd (cc (h, h'))
  StatusOf-unique (accepted _ m g h e) (accepted _ m' g' h' f) = cc

  abbrev pub own_corr : JsString
  own_corr = (request_context fresh req).corr

  -- What the listener does is one of these.
  pub record Answers (h : Handled) : Type 0 where
    pub status : ℕ
    pub is_status : StatusOf status
    pub one_head : heads h.effects ≡ (status, own_corr) ∷ []
    pub no_request : requests h.effects ≡ []
    pub no_reply : replies h.effects ≡ []
    pub awaited :
        ((h.pending ≡ none) × (status ≢ 200))
        ⊎ ((object : ParserObject) × (status ≡ 200)
            × (found ≡ ok object)
            × (h.pending
                ≡ some (record { object = object; reqdomain = new_domain platform fresh req })))

  pub with_parser-Answers :
      (r : Cache × Result Error ParserObject)
      → req.method ≡ codes "POST"
      → given ≡ true
      → found ≡ r.1
      → Answers (with_parser platform fresh req r)
  unfolding with_parser heads requests replies
  with_parser-Answers (c, ok object) m g e = record {
    status = 200;
    is_status = accepted object m g e refl;
    one_head = refl;
    no_request = refl;
    no_reply = refl;
    awaited = inr (object, refl, e, refl);
  }
  with_parser-Answers (c, err e') m g e = record {
    status = 404;
    is_status = not_found e' m g e refl;
    one_head = refl;
    no_request = refl;
    no_reply = refl;
    awaited = inl (refl, omega arith);
  }

  without_parser-Answers :
      (e : Error)
      → (StatusOf 405 → Answers (without_parser platform fresh req cache [] 405))
        × (StatusOf 400 → Answers (without_parser platform fresh req cache (log error e ∷ []) 400))
  unfolding without_parser heads requests replies
  without_parser-Answers e = (
    λ s. record {
      status = 405;
      is_status = s;
      one_head = refl;
      no_request = refl;
      no_reply = refl;
      awaited = inl (refl, omega arith);
    },
    λ s. record {
      status = 400;
      is_status = s;
      one_head = refl;
      no_request = refl;
      no_reply = refl;
      awaited = inl (refl, omega arith);
    },
  )

  not_given :
      (a b : Bool)
      → ((not a || not b) ≡ true → (a && b) ≡ false) × ((not a || not b) ≡ false → (a && b) ≡ true)
  not_given true true = ground arith
  not_given true false = ground arith
  not_given false b = ground arith

  pub on_request-Answers : Answers (on_request platform require config fresh req cache)
  unfolding on_request
  on_request-Answers = elim (Bool-cases (equal req.method (codes "POST"))) [
    | inr other ↦ rw other (
        (without_parser-Answers missing_entity).0 (
          not_allowed
            (λ e. cc (other, ap (λ m. equal m (codes "POST")) e, equal_self (codes "POST"))) refl))
    | inl post ↦
        let m = (equal_iff req.method (codes "POST")).0 post in
        let split_given =
          not_given (is_given (entity_id platform req)) (is_given (entity_type platform req)) in
        elim (Bool-cases
          (not (is_given (entity_id platform req)) || not (is_given (entity_type platform req)))) [
            | inl none_given ↦
                rw (post, none_given)
                  ((without_parser-Answers missing_entity).1
                    (bad_request m (split_given.0 none_given) refl))
            | inr all_given ↦
                rw (post, all_given)
                  (with_parser-Answers (get_parser platform require config cache req.url) m
                    (split_given.1 all_given) refl)
          ]
  ]

  -- The HTTP listener answers a request by a single head with the own correlator and a status
  -- exactly when the status is the one that the method, the entity in the query and the search for
  -- the parser decide: 405, 400, 404 or 200.
  pub on_request-StatusOf :
      (status : ℕ)
      → (heads (on_request platform require config fresh req cache).effects
          ≡ (status, own_corr) ∷ [])
        ↔ StatusOf status
  on_request-StatusOf status =
      let a = on_request-Answers in
      (
        λ h. rw (status_of (a.status) status (sym a.one_head ∙ h)) at a.is_status,
        λ s. rw (StatusOf-unique s a.is_status) a.one_head,
      )
    where
      status_of :
          (s t : ℕ)
          → ◌≡◌ {A = List (ℕ × JsString)} ((s, own_corr) ∷ []) ((t, own_corr) ∷ [])
          → s ≡ t
      status_of s t e = cc e

  -- The HTTP listener itself neither asks ContextBroker nor reports, whatever the request.
  pub on_request_quiet :
      (requests (on_request platform require config fresh req cache).effects ≡ [])
      × (replies (on_request platform require config fresh req cache).effects ≡ [])
  on_request_quiet = (on_request-Answers.no_request, on_request-Answers.no_reply)
