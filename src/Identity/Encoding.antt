-- ===== src/Identity/Encoding.antt =====
-- What tokens.py relies on of Base64, and that its stripping and padding of the signs undo each other.
use mathlib.Core.Path.{subst}
use porfirium.Prelude.{
  ℕ, ◌+◌, ◌%◌, ◌<◌, ◌≡◌, ◌∙◌, ap, refl, sym, suc, zero, Bool, true, ◌&&◌, ◌||◌, some, [], ◌∷◌, ◌++◌,
  ◌==◌, leb, length, Text, All, arith,
}
use porfirium.Identity.Tokens.{
  Codec, dot, prepend, rstrip, signs, missing, split_dot, decode, encode,
}

-- The URL-safe alphabet: letters, digits, `-` and `_`.
abbrev pub is_digit64 : ℕ → Bool
is_digit64 c =
    leb 65 c && leb c 90 || leb 97 c && leb c 122 || leb 48 c && leb c 57 || c == 45 || c == 95

abbrev pub IsData : Text → Type 0
IsData = All λ c. is_digit64 c ≡ true

-- Base64 is digits of the alphabet, padded with fewer than four signs to a length that four divides, and
-- decodes to what was encoded.
pub record Base64Laws (c : Codec) : Type 0 where
  pub padded :
      (t : Text)
      → (digits : Text) × (k : ℕ) × (c.urlsafe_b64encode t ≡ digits ++ signs k)
        × (k < 4)
        × ((length digits + k) % 4 ≡ 0)
        × IsData digits
  pub decodes : (t : Text) → c.urlsafe_b64decode (c.urlsafe_b64encode t) ≡ some t

rstrip-signs : (k : ℕ) → rstrip (signs k) ≡ []
unfolding rstrip signs
rstrip-signs zero = refl
rstrip-signs (suc k) = ground (arith, rstrip-signs k)

digit_stays : (c : ℕ) (t : Text) → is_digit64 c ≡ true → prepend c t ≡ c ∷ t
digit_stays c [] h = ground arith
digit_stays c (d ∷ ds) h = refl

rstrip-append : (digits : Text) (k : ℕ) → IsData digits → rstrip (digits ++ signs k) ≡ digits
unfolding rstrip
rstrip-append [] k d = rstrip-signs k
rstrip-append (c ∷ cs) k (h, d) = ap (prepend c) (rstrip-append cs k d) ∙ digit_stays c cs h

missing_lem : (n k : ℕ) → k < 4 → (n + k) % 4 ≡ 0 → missing n ≡ k
missing_lem n k h e = omega arith

pub split_dot-append :
    (digits t : Text) → IsData digits → split_dot (digits ++ dot ∷ t) ≡ some (digits, t)
unfolding split_dot
split_dot-append [] t d = refl
split_dot-append (c ∷ cs) t (h, d) = ground (arith, split_dot-append cs t d)

module _ (c : Codec) (laws : Base64Laws c) where
  pub encode-IsData : (t : Text) → IsData (encode c t)
  unfolding encode
  encode-IsData t =
      let (digits, k, eq, small, whole, d) = laws.padded t in
      subst (λ x. IsData (rstrip x)) (sym eq) (subst IsData (sym (rstrip-append digits k d)) d)

  pub decode-encode : (t : Text) → decode c (encode c t) ≡ some t
  unfolding encode decode
  decode-encode t =
      let (digits, k, eq, small, whole, d) = laws.padded t in
      let stripped : rstrip (c.urlsafe_b64encode t) ≡ digits =
        ap rstrip eq ∙ rstrip-append digits k d in
      subst (λ x. decode c x ≡ some t) (sym stripped)
        (ap (λ j. c.urlsafe_b64decode (digits ++ signs j))
            (missing_lem (length digits) k small whole)
          ∙ ap c.urlsafe_b64decode (sym eq)
          ∙ laws.decodes t)
