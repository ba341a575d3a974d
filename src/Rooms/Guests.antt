-- ===== src/Rooms/Guests.antt =====
-- Whom a host may invite (backend/app/application/enrollment.py).
use gd_classroom.Prelude.{
  ℕ, ◌≡◌, refl, sym, ap, ◌∙◌, inl, inr, arith, Bool, true, false, not, ◌&&◌, List, [], ◌∷◌, ◌++◌,
  is_nonempty, if◌then◌else◌, Bool-cases, Text, strip, text_eq, ok,
}
use gd_classroom.Rooms.Classrooms.{Settings, SessionUser}
use gd_classroom.Rooms.Enrollment.{Kit, holds_text, clean_onto, clean_emails}

-- No address twice.
abbrev pub is_distinct : List Text → Bool
is_distinct [] = true
is_distinct (x ∷ xs) = not (holds_text x xs) && is_distinct xs

text_eq_sym : (s t : Text) → text_eq s t ≡ text_eq t s
unfolding text_eq
text_eq_sym [] [] = refl
text_eq_sym [] (d ∷ t) = refl
text_eq_sym (c ∷ s) [] = refl
text_eq_sym (c ∷ s) (d ∷ t) = ground (arith, text_eq_sym s t)

holds_text-append :
    (x : Text) (xs : List Text) (e : Text)
    → holds_text x xs ≡ false
    → text_eq x e ≡ false
    → holds_text x (xs ++ e ∷ []) ≡ false
holds_text-append x [] e h k = ground arith
holds_text-append x (y ∷ ys) e h k = ground (arith, holds_text-append x ys e)

is_distinct-append :
    (xs : List Text) (e : Text)
    → is_distinct xs ≡ true
    → holds_text e xs ≡ false
    → is_distinct (xs ++ e ∷ []) ≡ true
is_distinct-append [] e h k = refl
is_distinct-append (x ∷ xs) e h k =
    let turned = text_eq_sym e x in
    ground (arith, is_distinct-append xs e, holds_text-append x xs e)

kept-is_distinct :
    (email : Text) (seen : List Text)
    → is_distinct seen ≡ true
    → is_distinct (if holds_text email seen then seen else seen ++ email ∷ []) ≡ true
kept-is_distinct email seen h = elim (Bool-cases (holds_text email seen)) [
  | inl e ↦ rw e h
  | inr e ↦ rw e (is_distinct-append seen email h e)
]

kept-holds_text :
    (host email : Text) (seen : List Text)
    → holds_text host seen ≡ false
    → text_eq host email ≡ false
    → holds_text host (if holds_text email seen then seen else seen ++ email ∷ []) ≡ false
kept-holds_text host email seen h k = elim (Bool-cases (holds_text email seen)) [
  | inl e ↦ rw e h
  | inr e ↦ rw e (holds_text-append host seen email h k)
]

module _ (kit : Kit) (settings : Settings) (now : ℕ) where
  clean_onto-is_distinct :
      (host : Text) (seen raws out : List Text)
      → is_distinct seen ≡ true
      → holds_text host seen ≡ false
      → clean_onto kit settings now host seen raws ≡ ok out
      → (is_distinct out ≡ true) × (holds_text host out ≡ false)
  unfolding clean_onto
  clean_onto-is_distinct host seen [] out h k e =
      let same : seen ≡ out = cc in
      (ap is_distinct (sym same) ∙ h, ap (holds_text host) (sym same) ∙ k)
  clean_onto-is_distinct host seen (raw ∷ raws) out h k e =
      let email = strip (kit.ciphers.lower raw) in
      elim (Bool-cases (is_nonempty email)) [
        | inr f ↦
            let e' = rw (f, clean_onto) at e in clean_onto-is_distinct host seen raws out h k e'
        | inl f ↦ elim (Bool-cases (text_eq email host)) [
          | inl g ↦ let e' = rw (f, g, clean_onto) at e in absurd cc
          | inr g ↦
              let e' = rw (f, g, clean_onto) at e in
              clean_onto-is_distinct host
                (if holds_text email seen then seen else seen ++ email ∷ []) raws out
                (kept-is_distinct email seen h)
                (kept-holds_text host email seen k (text_eq_sym host email ∙ g)) e'
        ]
      ]

  -- Whom a host may invite: the cleaned addresses are all different, and none of them is the host's own.
  pub clean_emails-is_distinct :
      (emails out : List Text) (host : SessionUser)
      → clean_emails kit settings now emails host ≡ ok out
      → (is_distinct out ≡ true) × (holds_text (kit.ciphers.lower host.email) out ≡ false)
  unfolding clean_emails
  clean_emails-is_distinct emails out host e =
      clean_onto-is_distinct (kit.ciphers.lower host.email) [] emails out refl refl e
