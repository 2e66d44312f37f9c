-- ===== src/Api/Router/Layers.antt =====
-- What holds of every route of a router, carried through the operations of `Axum`.
use mathlib.Core.List.{Memᴰ}
use fullstackhex.Base.{
  Bool, true, false, if◌then◌else◌, Text, List, [], ◌∷◌, map, All, All-append, All-at, subst, sym,
  ◌≡◌,
}
use fullstackhex.Auth.Request.{Method}
use fullstackhex.Api.Router.{Handler, Layer, Route, Axum, wrap, under}

All-map :
    {A B : Type 0} (P : A → Type 0) (Q : B → Type 0) (f : A → B) (xs : List A)
    → ((x : A) → P x → Q (f x))
    → All P xs
    → All Q (map f xs)
All-map P Q f [] h a = tt
All-map P Q f (x ∷ xs) h (p, a) = (h x p, All-map P Q f xs h a)

All-weaken :
    {A : Type 0} (P Q : A → Type 0) (xs : List A) → ((x : A) → P x → Q x) → All P xs → All Q xs
All-weaken P Q [] h a = tt
All-weaken P Q (x ∷ xs) h (p, a) = (h x p, All-weaken P Q xs h a)

module _ {R : Type 0} (axum : Axum R) where
  pub record Every (P : Route → Type 0) (r : R) : Type 0 where
    pub holds : All P (axum.routes r)

  module _ {P : Route → Type 0} where
    pub Every-new : Every P axum.new
    Every-new = record { holds = subst (All P) (sym axum.routes-new) tt }

    pub Every-route :
        {path : Text} {m : Method} {h : Handler} {r : R}
        → P (record { method = m; path = path; layers = []; handler = h })
        → Every P r
        → Every P (axum.route path m h r)
    Every-route {path} {m} {h} {r} q e = record {
      holds = subst (All P) (sym (axum.routes-route path m h r)) (q, e.holds);
    }

    pub Every-merge : {a r : R} → Every P a → Every P r → Every P (axum.merge a r)
    Every-merge {a} {r} ea er =
        let all = All-append P (axum.routes a) (axum.routes r) ea.holds er.holds in
        record { holds = subst (All P) (sym (axum.routes-merge a r)) all }

    pub Every-nest :
        {Q : Route → Type 0} {prefix : Text} {a r : R}
        → ((x : Route) → Q x → P (under prefix x))
        → Every Q a
        → Every P r
        → Every P (axum.nest prefix a r)
    Every-nest {Q} {prefix} {a} {r} f ea er =
        let inner = All-map Q P (under prefix) (axum.routes a) f ea.holds in
        let all =
          All-append P (map (under prefix) (axum.routes a)) (axum.routes r) inner er.holds in
        record { holds = subst (All P) (sym (axum.routes-nest prefix a r)) all }

    pub Every-layer :
        {Q : Route → Type 0} {l : Layer} {r : R}
        → ((x : Route) → Q x → P (wrap l x))
        → Every Q r
        → Every P (axum.layer l r)
    Every-layer {Q} {l} {r} f e =
        let all = All-map Q P (wrap l) (axum.routes r) f e.holds in
        record { holds = subst (All P) (sym (axum.routes-layer l r)) all }

    pub Every-at : {x : Route} {r : R} → Every P r → Memᴰ x (axum.routes r) → P x
    Every-at {r} e m = All-at P (axum.routes r) e.holds m

    pub Every-weaken :
        {Q : Route → Type 0} {r : R} → ((x : Route) → Q x → P x) → Every Q r → Every P r
    Every-weaken {Q} {r} f e = record { holds = All-weaken Q P (axum.routes r) f e.holds }

    -- The router that a test chooses.
    pub Every-then :
        (b : Bool) {r : R} (o : R) → b ≡ true → Every P r → Every P (if b then r else o)
    Every-then true o h e = e
    Every-then false o h e = absurd (cc h)

    pub Every-else :
        (b : Bool) (r : R) {o : R} → b ≡ false → Every P o → Every P (if b then r else o)
    Every-else true r h e = absurd (cc h)
    Every-else false r h e = e
