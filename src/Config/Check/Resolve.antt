-- ===== src/Config/Check/Resolve.antt =====
-- The loop over the directories of parsers: when it reads all of them, and the first that it cannot read.
use fiware_monitoring.Adapter.Update.{after}
use fiware_monitoring.Base.{
  >>=-eq-ok, ap, ◌>>=◌, All, Bool, Bool-cases, List, [], false, inl, inr, map, ok, refl, true, ◌∷◌,
  ◌≡◌, Result, err, ◌++◌,
}
use fiware_monitoring.Config.Check.{resolve_dirs}
use fiware_monitoring.Js.Text.{JsString, first}
use fiware_monitoring.Platform.{Platform}

module _ (platform : Platform) (can_read : JsString → Bool) where
  abbrev pub CanRead : JsString → Type 0
  CanRead dir = can_read (platform.path_resolve dir) ≡ true

  pub resolve_dirs-All :
      (dirs : List JsString)
      → All CanRead dirs
      → resolve_dirs platform can_read dirs ≡ ok (map platform.path_resolve dirs)
  unfolding resolve_dirs
  resolve_dirs-All [] h = refl
  resolve_dirs-All (dir ∷ dirs) (p, h) = rw (p, resolve_dirs-All dirs h) refl

  pub resolve_dirs-CanRead :
      (dirs list : List JsString) → resolve_dirs platform can_read dirs ≡ ok list → All CanRead dirs
  unfolding resolve_dirs
  resolve_dirs-CanRead [] list e = tt
  resolve_dirs-CanRead (dir ∷ dirs) list e =
      elim (Bool-cases (can_read (platform.path_resolve dir))) [
        | inl p ↦
            let (later, run, _) =
              >>=-eq-ok (resolve_dirs platform can_read dirs)
                (λ l. ok (platform.path_resolve dir ∷ l)) (rw p at e) in
            (p, resolve_dirs-CanRead dirs later run)
        | inr p ↦ absurd (cc (rw p at e))
      ]

  -- `path` is the absolute path of the first directory that cannot be read.
  pub record IsDenied (dirs : List JsString) (path : JsString) : Type 0 where
    pub before : List JsString
    pub dir : JsString
    pub after : List JsString
    pub splits : dirs ≡ before ++ (dir ∷ after)
    pub read_before : All CanRead before
    pub denied : can_read (platform.path_resolve dir) ≡ false
    pub is_path : path ≡ platform.path_resolve dir

  then_err :
      (m : Result JsString (List JsString)) (first path : JsString)
      → (m >>= λ list. ok (first ∷ list)) ≡ err path
      → m ≡ err path
  then_err (ok list) first path e = absurd (cc e)
  then_err (err dir) first path e = cc e

  pub resolve_dirs-IsDenied :
      (dirs : List JsString) (path : JsString)
      → resolve_dirs platform can_read dirs ≡ err path
      → IsDenied dirs path
  unfolding resolve_dirs
  resolve_dirs-IsDenied [] path e = absurd (cc e)
  resolve_dirs-IsDenied (dir ∷ dirs) path e =
      elim (Bool-cases (can_read (platform.path_resolve dir))) [
        | inl p ↦
            let later =
              resolve_dirs-IsDenied dirs path
                (then_err _ (platform.path_resolve dir) path (rw p at e)) in
            record {
              before = dir ∷ later.before;
              dir = later.dir;
              after = later.after;
              splits = ap (◌∷◌ dir) later.splits;
              read_before = (p, later.read_before);
              denied = later.denied;
              is_path = later.is_path;
            }
        | inr p ↦ record {
          before = [];
          dir = dir;
          after = dirs;
          splits = refl;
          read_before = tt;
          denied = p;
          is_path = cc (rw p at e);
        }
      ]

  pub resolve_dirs_denied :
      (before : List JsString) (dir : JsString) (after : List JsString)
      → All CanRead before
      → can_read (platform.path_resolve dir) ≡ false
      → resolve_dirs platform can_read (before ++ (dir ∷ after)) ≡ err (platform.path_resolve dir)
  unfolding resolve_dirs
  resolve_dirs_denied [] dir after h denied = rw denied refl
  resolve_dirs_denied (d ∷ before) dir after (p, h) denied =
      rw (p, resolve_dirs_denied before dir after h denied) refl
