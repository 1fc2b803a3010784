-- ===== src/Js/Text/Split.antt =====
-- `split` and `join` with a separator of one character.
use fiware_monitoring.Base.{
  ℕ, Bool-cases, List, [], ◌∷◌, ◌++◌, ◌≡◌, ◌≢◌, inl, inr, refl, ap, ◌∙◌, arith, ◌==◌, All,
  append_assoc, Bool, not, true, ◌&&◌,
}
use fiware_monitoring.Js.Text.{JsString, split, join, cons_head}

-- The separator does not occur in the string.
abbrev pub Free : ℕ → JsString → Type 0
Free c [] = Unit
Free c (x ∷ s) = (x ≢ c) × Free c s

-- A test of it, for texts that are known.
abbrev pub is_free : ℕ → JsString → Bool
is_free c [] = true
is_free c (x ∷ s) = not (x == c) && is_free c s

pub is_free-Free : (c : ℕ) (s : JsString) → is_free c s ≡ true → Free c s
is_free-Free c [] h = tt
is_free-Free c (x ∷ s) h = elim (Bool-cases (x == c)) [
  | inl e ↦ absurd (cc (rw e at h))
  | inr e ↦ (grind arith, is_free-Free c s (rw e at h))
]

pub Free-append : (c : ℕ) (s t : JsString) → Free c s → Free c t → Free c (s ++ t)
Free-append c [] t h k = k
Free-append c (x ∷ s) t (p, h) k = (p, Free-append c s t h k)

pub Free-append_left : (c : ℕ) (s t : JsString) → Free c (s ++ t) → Free c s
Free-append_left c [] t h = tt
Free-append_left c (x ∷ s) t (p, h) = (p, Free-append_left c s t h)

pub Free-append_right : (c : ℕ) (s t : JsString) → Free c (s ++ t) → Free c t
Free-append_right c [] t h = h
Free-append_right c (x ∷ s) t (p, h) = Free-append_right c s t h

-- A string has at least one piece.
pub split-cons :
    (c : ℕ) (s : JsString) → (p : JsString) × (ps : List JsString) × (split c s ≡ p ∷ ps)
unfolding split
split-cons c [] = ([], [], refl)
split-cons c (x ∷ s) = elim (Bool-cases (x == c)) [
  | inl e ↦ ([], split c s, rw e refl)
  | inr e ↦ let (p, ps, h) = split-cons c s in (x ∷ p, ps, rw (e, h) refl)
]

pub split-step_ne : (c x : ℕ) (s : JsString) → x ≢ c → split c (x ∷ s) ≡ cons_head x (split c s)
unfolding split
split-step_ne c x s h = ground arith

pub split_sep : (c : ℕ) (s : JsString) → split c (c ∷ s) ≡ [] ∷ split c s
unfolding split
split_sep c s = ground arith

pub split-append : (c : ℕ) (s t : JsString) → Free c s → split c (s ++ (c ∷ t)) ≡ s ∷ split c t
split-append c [] t h = split_sep c t
split-append c (x ∷ s) t (p, h) = split-step_ne c x _ p ∙ rw (split-append c s t h) refl

pub split-Free : (c : ℕ) (s : JsString) → Free c s → split c s ≡ s ∷ []
split-Free c [] h = unfold split in refl
split-Free c (x ∷ s) (p, h) = split-step_ne c x s p ∙ rw (split-Free c s h) refl

pub All-Free-split : (c : ℕ) (s : JsString) → All (Free c) (split c s)
unfolding split
All-Free-split c [] = (tt, tt)
All-Free-split c (x ∷ s) = elim (Bool-cases (x == c)) [
  | inl e ↦ rw e (tt, All-Free-split c s)
  | inr e ↦
      let (p, ps, h) = split-cons c s in
      let ih : All (Free c) (p ∷ ps) = rw h at (All-Free-split c s) in
      rw (e, h) (((λ k. ground (arith)), ih.0), ih.1)
]

-- Joining what was split gives the string back.
pub join-split : (c : ℕ) (s : JsString) → join (c ∷ []) (split c s) ≡ s
unfolding split join
join-split c [] = refl
join-split c (x ∷ s) = elim (Bool-cases (x == c)) [
  | inl e ↦
      let (p, ps, h) = split-cons c s in
      let ih : join (c ∷ []) (p ∷ ps) ≡ s = rw h at (join-split c s) in
      rw (e, h) (ground (arith, ih))
  | inr e ↦
      let (p, ps, h) = split-cons c s in
      rw (e, h) (join-cons_head c x p ps ∙ ap (◌∷◌ x) (rw h at (join-split c s)))
]
  where
    join-cons_head :
        (c x : ℕ) (p : JsString) (ps : List JsString)
        → join (c ∷ []) ((x ∷ p) ∷ ps) ≡ x ∷ join (c ∷ []) (p ∷ ps)
    join-cons_head c x p [] = refl
    join-cons_head c x p (q ∷ ps) = refl

-- Splitting what was joined gives the pieces back.
pub split-join :
    (c : ℕ) (p : JsString) (ps : List JsString)
    → All (Free c) (p ∷ ps)
    → split c (join (c ∷ []) (p ∷ ps)) ≡ p ∷ ps
unfolding join
split-join c p [] (h, _) = split-Free c p h
split-join c p (q ∷ ps) (h, k) = split-append c p _ h ∙ ap (◌∷◌ p) (split-join c q ps k)

pub join-append :
    (sep p : JsString) (ps : List JsString) (q : JsString)
    → join sep ((p ∷ ps) ++ (q ∷ [])) ≡ join sep (p ∷ ps) ++ (sep ++ q)
unfolding join
join-append sep p [] q = refl
join-append sep p (x ∷ ps) q = simp (join-append sep x ps q, append_assoc)
