-- ===== src/Base/Sublists.antt =====
-- Lists that leave elements of another list out and keep its order.
use mathlib.Core.Path.{refl, ◌∙◌}
use mathlib.Core.List.{List, [], ◌∷◌, ◌++◌}
use mathlib.Core.List.Sublistᴰ.{slnil, cons, cons-cons, refl as Sublistᴰ-refl}
pub use mathlib.Core.List.{Sublistᴰ}

module _ {ℓ} {A : Type ℓ} where
  pub empty_Sublist : (ys : List A) → Sublistᴰ [] ys
  empty_Sublist [] = slnil
  empty_Sublist (y ∷ ys) = cons (empty_Sublist ys)

  pub Sublist-self : (xs : List A) → Sublistᴰ xs xs
  Sublist-self = Sublistᴰ-refl

  -- Both lists get the same end.
  pub Sublist-append :
      {xs ys : List A} (zs : List A) → Sublistᴰ xs ys → Sublistᴰ (xs ++ zs) (ys ++ zs)
  Sublist-append zs slnil = Sublistᴰ-refl zs
  Sublist-append zs (cons h) = cons (Sublist-append zs h)
  Sublist-append zs (cons-cons e h) = cons-cons e (Sublist-append zs h)

  -- Both lists get the same start.
  pub append-Sublist :
      (zs : List A) {xs ys : List A} → Sublistᴰ xs ys → Sublistᴰ (zs ++ xs) (zs ++ ys)
  append-Sublist [] h = h
  append-Sublist (z ∷ zs) h = cons-cons refl (append-Sublist zs h)

  -- The longer list gets an end.
  pub Sublist-wider : {xs ys : List A} (zs : List A) → Sublistᴰ xs ys → Sublistᴰ xs (ys ++ zs)
  Sublist-wider zs slnil = empty_Sublist zs
  Sublist-wider zs (cons h) = cons (Sublist-wider zs h)
  Sublist-wider zs (cons-cons e h) = cons-cons e (Sublist-wider zs h)

  pub Sublist-trans :
      {ys zs : List A} → Sublistᴰ ys zs → (xs : List A) → Sublistᴰ xs ys → Sublistᴰ xs zs
  Sublist-trans slnil xs h = h
  Sublist-trans (cons k) xs h = cons (Sublist-trans k xs h)
  Sublist-trans (cons-cons e k) xs (cons h) = cons (Sublist-trans k xs h)
  Sublist-trans (cons-cons e k) _ (cons-cons {l₁ = xs} d h) =
      cons-cons (d ∙ e) (Sublist-trans k xs h)

  -- The shorter list loses its end.
  pub Sublist-start : (xs zs : List A) {ys : List A} → Sublistᴰ (xs ++ zs) ys → Sublistᴰ xs ys
  Sublist-start xs zs h = Sublist-trans h xs (Sublist-wider zs (Sublistᴰ-refl xs))

  -- The shorter list loses a part between its start and its end.
  pub Sublist-cut :
      (xs zs ws : List A) {ys : List A} → Sublistᴰ (xs ++ (zs ++ ws)) ys → Sublistᴰ (xs ++ ws) ys
  Sublist-cut xs zs ws h =
      Sublist-trans h (xs ++ ws) (append-Sublist xs (Sublist-append ws (empty_Sublist zs)))
