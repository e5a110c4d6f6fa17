-- ===== src/Base/Perm.antt =====
-- Lists that differ in their order only, with the library's `Permᴰ`.
use mathlib.Core.Path.{◌≡◌, sym, ap, subst, ◌∙◌}
use mathlib.Core.List.{List, [], ◌∷◌, ◌++◌, map, append_assoc}
use mathlib.Core.List.Permᴰ
pub use mathlib.Core.List.{Permᴰ}

module _ {A : Type 0} where
  abbrev pub same_order : {xs ys : List A} → xs ≡ ys → Permᴰ xs ys
  same_order {xs = xs} e = subst (λ l. Permᴰ xs l) e (Permᴰ.refl xs)

  pub swap_front : (xs ys zs : List A) → Permᴰ (xs ++ (ys ++ zs)) (ys ++ (xs ++ zs))
  swap_front xs ys zs = Permᴰ.trans (same_order (sym (append_assoc xs ys zs))) (
      Permᴰ.trans (Permᴰ.append_right zs (Permᴰ.append_comm xs ys))
        (same_order (append_assoc ys xs zs)))

module _ {A B : Type 0} where
  -- The lists that `f` makes of the elements, one behind the other.
  abbrev pub flat : (A → List B) → List A → List B
  flat f [] = []
  flat f (x ∷ xs) = f x ++ flat f xs

  pub flat-Permᴰ : (f : A → List B) {xs ys : List A} → Permᴰ xs ys → Permᴰ (flat f xs) (flat f ys)
  flat-Permᴰ f Permᴰ.nil = Permᴰ.nil
  flat-Permᴰ f (Permᴰ.cons {a = a} {l₂ = l₂} e d) =
      Permᴰ.trans (Permᴰ.append_left (f a) (flat-Permᴰ f d))
        (same_order (ap (λ x. f x ++ flat f l₂) e))
  flat-Permᴰ f (Permᴰ.swap {a = a} {b = b} {a' = a'} {l = l} e₁ e₂) =
      Permᴰ.trans (swap_front (f a) (f b) (flat f l)) (
        same_order (ap (λ x. f x ++ (f a ++ flat f l)) e₂ ∙ ap (λ x. f a' ++ (f x ++ flat f l)) e₁))
  flat-Permᴰ f (Permᴰ.trans d₁ d₂) = Permᴰ.trans (flat-Permᴰ f d₁) (flat-Permᴰ f d₂)

  pub map-Permᴰ : (f : A → B) {xs ys : List A} → Permᴰ xs ys → Permᴰ (map f xs) (map f ys)
  map-Permᴰ f Permᴰ.nil = Permᴰ.nil
  map-Permᴰ f (Permᴰ.cons e d) = Permᴰ.cons (ap f e) (map-Permᴰ f d)
  map-Permᴰ f (Permᴰ.swap e₁ e₂) = Permᴰ.swap (ap f e₁) (ap f e₂)
  map-Permᴰ f (Permᴰ.trans d₁ d₂) = Permᴰ.trans (map-Permᴰ f d₁) (map-Permᴰ f d₂)
