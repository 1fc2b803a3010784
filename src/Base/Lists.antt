-- ===== src/Base/Lists.antt =====
-- Lists measured and indexed by native numbers, under the library's names.
use Prim.Native.Nat.{ℕ, zero, suc, ◌+◌}
use mathlib.Core.Path.{◌≡◌, refl, sym, subst}
use mathlib.Core.Logic.{◌≢◌}
use mathlib.Core.Option.{Option, none, some}
use mathlib.Core.List.{List, [], ◌∷◌, ◌++◌, Memᴰ}
use native.Mathlib.Omega.{arith}
use fiware_monitoring.Base.Tests.{some_inj}

module _ {ℓ} {A : Type ℓ} where
  abbrev pub length : List A → ℕ
  length [] = 0
  length (x ∷ xs) = suc (length xs)

  -- `a[i]`, where `none` is JavaScript's `undefined`.
  abbrev pub get_elem? : List A → ℕ → Option A
  get_elem? [] i = none
  get_elem? (x ∷ xs) zero = some x
  get_elem? (x ∷ xs) (suc i) = get_elem? xs i

  pub append-ne : (xs ys : List A) → xs ≢ [] → xs ++ ys ≢ []
  append-ne [] ys h = absurd (h refl)
  append-ne (x ∷ xs) ys h = cc

  pub length-append : (xs ys : List A) → length (xs ++ ys) ≡ length xs + length ys
  length-append [] ys = omega arith
  length-append (x ∷ xs) ys = omega (arith, length-append xs ys)

module _ {ℓ κ} {A : Type ℓ} (P : A → Type κ) where
  abbrev pub All : List A → Type κ
  All [] = Unit
  All (x ∷ xs) = P x × All xs

  pub All-append : (xs ys : List A) → All xs → All ys → All (xs ++ ys)
  All-append [] ys hx hy = hy
  All-append (x ∷ xs) ys (p, hx) hy = (p, All-append xs ys hx hy)

  -- What holds of all items holds of the one between two parts, and of the parts.
  pub All-parts :
      (xs ys : List A) (x : A)
      → All (xs ++ (x ∷ ys))
      → record { before : All xs; here : P x; after : All ys }
  All-parts [] ys x h = record { before = tt; here = h.0; after = h.1 }
  All-parts (y ∷ xs) ys x h =
      let rest = All-parts xs ys x h.1 in
      record { before = (h.0, rest.before); here = rest.here; after = rest.after }

  -- What holds of all members holds of each.
  pub All-Memᴰ : (xs : List A) {x : A} → All xs → Memᴰ x xs → P x
  All-Memᴰ [] h m = elim m [ ]
  All-Memᴰ (y ∷ xs) h (Memᴰ.head e) = subst P (sym e) h.0
  All-Memᴰ (y ∷ xs) h (Memᴰ.tail m) = All-Memᴰ xs h.1 m

-- A weaker property.
pub All-weaken {ℓ κ κ'} :
    {A : Type ℓ} (P : A → Type κ) (Q : A → Type κ') (xs : List A)
    → ((x : A) → P x → Q x)
    → All P xs
    → All Q xs
All-weaken P Q [] f h = tt
All-weaken P Q (x ∷ xs) f h = (f x h.0, All-weaken P Q xs f h.1)

-- What of all items that fit is at an index.
pub All-get_elem? {ℓ κ} :
    {A : Type ℓ} (P : A → Type κ) (xs : List A) (n : ℕ) {x : A}
    → All P xs
    → get_elem? xs n ≡ some x
    → P x
All-get_elem? P [] n h e = absurd (cc e)
All-get_elem? P (y ∷ xs) zero h e = subst P (some_inj y _ e) h.0
All-get_elem? P (y ∷ xs) (suc n) h e = All-get_elem? P xs n h.1 e
