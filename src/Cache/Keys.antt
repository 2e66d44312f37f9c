-- ===== src/Cache/Keys.antt =====
-- The keys that `make_key` of backend/cache/src/lib.rs builds.
use fullstackhex.Base.{
  arith, ◌≡◌, ◌∙◌, refl, sym, Bool, true, false, ◌==◌, ◌||◌, Text, [], ◌∷◌, ◌++◌, text_eq,
  text_eq_iff, contains,
}
use fullstackhex.Cache.Client.{make_key}

pub text_eq-append : (p a b : Text) → text_eq (p ++ a) (p ++ b) ≡ text_eq a b
text_eq-append [] a b = refl
text_eq-append (x ∷ p) a b = ground (arith, text_eq-append p a b)

or_false : (x y : Bool) → (x || y) ≡ false → (x ≡ false) × (y ≡ false)
or_false false y h = (refl, h)
or_false true y h = (h, cc)

-- Two texts that go on after a colon that neither has before it.
split_colon :
    (a b k l : Text)
    → contains 58 a ≡ false
    → contains 58 b ≡ false
    → a ++ 58 ∷ k ≡ b ++ 58 ∷ l
    → (a ≡ b) × (k ≡ l)
unfolding contains
split_colon [] [] k l ha hb h = grind arith
split_colon [] (y ∷ b) k l ha hb h = ground arith
split_colon (x ∷ a) [] k l ha hb h = ground arith
split_colon (x ∷ a) (y ∷ b) k l ha hb h =
    let tails : a ++ 58 ∷ k ≡ b ++ 58 ∷ l = grind arith in
    let heads : x ≡ y = grind arith in
    let (e, q) =
      split_colon a b k l (or_false (x == 58) _ ha).1 (or_false (y == 58) _ hb).1 tails in
    (cc (heads, e), q)

pub make_key-prefix :
    (prefix n k m l : Text)
    → text_eq (make_key prefix n k) (make_key prefix m l) ≡ text_eq (n ++ 58 ∷ k) (m ++ 58 ∷ l)
unfolding make_key
make_key-prefix prefix n k m l = text_eq-append prefix (58 ∷ (n ++ 58 ∷ k)) (58 ∷ (m ++ 58 ∷ l))

append-cancel : (p a b : Text) → p ++ a ≡ p ++ b → a ≡ b
append-cancel p a b h =
    (text_eq_iff a b).0 (sym (text_eq-append p a b) ∙ (text_eq_iff (p ++ a) (p ++ b)).1 h)

-- Under one prefix, and for namespaces without a colon, keys of different namespaces or for
-- different names never collide.
pub make_key-injective :
    (prefix n m k l : Text)
    → contains 58 n ≡ false
    → contains 58 m ≡ false
    → make_key prefix n k ≡ make_key prefix m l
    → (n ≡ m) × (k ≡ l)
unfolding make_key
make_key-injective prefix n m k l hn hm h =
    let tails : n ++ 58 ∷ k ≡ m ++ 58 ∷ l =
      grind (arith, append-cancel prefix (58 ∷ (n ++ 58 ∷ k)) (58 ∷ (m ++ 58 ∷ l)) h) in
    split_colon n m k l hn hm tails
