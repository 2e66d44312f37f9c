-- ===== src/Storage/Keys/Confined.antt =====
-- A validated key of backend/storage/src/routes.rs stays below its user's directory.
use fullstackhex.Base.{
  ◌≡◌, ◌∙◌, refl, inl, inr, ◌==◌, false, ◌||◌, Text, codes, List, [], ◌∷◌, ◌++◌, append_assoc,
  Option, some, text_eq, contains, split, is_empty, any, ok, if◌then◌else◌, Bool-cases, sym,
}
use fullstackhex.Storage.Keys.{validate_storage_key, user_key, has_parent_dir}

abbrev up : List Text → List Text
up [] = []
up (c ∷ stack) = stack

-- Where a path leads when it is followed from the root: the directories entered, the last one first.
pub follow : List Text → List Text → List Text
follow stack [] = stack
follow stack (c ∷ cs) =
    let above = follow (up stack) cs in
    let here = follow stack cs in
    let below = follow (c ∷ stack) cs in
    if text_eq (codes "..") c
    then above
    else if is_empty c || text_eq c (codes ".")
    then here
    else below

follow-below :
    (cs stack : List Text)
    → any (text_eq (codes "..")) cs ≡ false
    → (ys : List Text) × (follow stack cs ≡ ys ++ stack)
unfolding follow
follow-below [] stack h = ([], refl)
follow-below (c ∷ cs) stack h = elim (Bool-cases (text_eq (codes "..") c)) [
  | inl e ↦ absurd (cc (rw e at h))
  | inr e ↦ elim (Bool-cases (is_empty c || text_eq c (codes "."))) [
    | inl f ↦ rw (e, f) (follow-below cs stack (rw e at h))
    | inr f ↦
        let (ys, q) = follow-below cs (c ∷ stack) (rw e at h) in
        (ys ++ c ∷ [], rw (e, f) (q ∙ sym (append_assoc ys (c ∷ []) stack)))
  ]
]

split-slash : (id d : Text) → contains 47 id ≡ false → split 47 (id ++ 47 ∷ d) ≡ id ∷ split 47 d
unfolding split contains
split-slash [] d h = refl
split-slash (x ∷ id) d h = elim (Bool-cases (x == 47)) [
  | inl e ↦ absurd (cc (rw e at h))
  | inr e ↦ rw (e, split-slash id d (rw e at h)) refl
]

no_parent :
    (decode : Text → Option Text) (key decoded : Text)
    → decode key ≡ some decoded
    → validate_storage_key decode key ≡ ok tt
    → any (text_eq (codes "..")) (split 47 decoded) ≡ false
unfolding validate_storage_key has_parent_dir
no_parent decode key decoded e h =
    elim (Bool-cases (any (text_eq (codes "..")) (split 47 decoded))) [
      | inr f ↦ f
      | inl f ↦ elim (Bool-cases (is_empty key)) [
        | inl g ↦ absurd (cc (rw g at h))
        | inr g ↦ elim (Bool-cases (contains 0 decoded || contains 92 decoded)) [
          | inl k ↦ absurd (cc (rw (g, e, k) at h))
          | inr k ↦ absurd (cc (rw (g, e, k, f) at h))
        ]
      ]
    ]

-- For a user id that is one plain component, a key that validates leads, once decoded and put under
-- the user's prefix, to a place at or below the directory of that user.
pub validate_storage_key-confined :
    (decode : Text → Option Text) (user_id key decoded : Text)
    → contains 47 user_id ≡ false
    → is_empty user_id ≡ false
    → text_eq user_id (codes ".") ≡ false
    → text_eq (codes "..") user_id ≡ false
    → decode key ≡ some decoded
    → validate_storage_key decode key ≡ ok tt
    → (ys : List Text) × (follow [] (split 47 (user_key user_id decoded))
        ≡ ys ++ user_id ∷ codes "users" ∷ [])
unfolding validate_storage_key user_key has_parent_dir follow split
validate_storage_key-confined decode user_id key decoded plain filled not_here not_up e h =
    let (ys, q) =
      follow-below (split 47 decoded) (user_id ∷ codes "users" ∷ [])
        (no_parent decode key decoded e h) in
    (ys, rw (split-slash user_id decoded plain, not_up, filled, not_here) q)
