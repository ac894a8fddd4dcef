-- ===== src/Identity/SampleCodec.antt =====
-- A codec at which the laws of Encoding.antt hold, for runs: each code point is a tally.
use porfirium.Prelude.{
  ℕ, ◌+◌, ◌%◌, ◌<◌, ◌≡◌, ◌∙◌, ap, refl, zero, suc, Option, none, some, [], ◌∷◌, ◌++◌, ◌==◌, length,
  if◌then◌else◌, Text, Json, codes, obj, str, get, arith,
}
use porfirium.Identity.Claims.{Python}
use porfirium.Identity.Tokens.{Codec, signs, missing}
use porfirium.Identity.Encoding.{IsData, Base64Laws}

unfoldable pub ones : ℕ → Text → Text
ones zero t = t
ones (suc n) t = 65 ∷ ones n t

unfoldable pub tallies : Text → Text
tallies [] = []
tallies (c ∷ cs) = 66 ∷ ones c (tallies cs)

abbrev count_in : ℕ → ℕ × Text → ℕ × Text
count_in x (m, ts) = if x == 65 then (m + 1, ts) else if x == 66 then (0, m ∷ ts) else (m, ts)

-- The tally that a text starts with, and those after it.
unfoldable pub counted : Text → ℕ × Text
counted [] = (0, [])
counted (x ∷ xs) = count_in x (counted xs)

counted-ones : (n m : ℕ) (t ts : Text) → counted t ≡ (m, ts) → counted (ones n t) ≡ (n + m, ts)
unfolding counted ones
counted-ones zero m t ts h = h ∙ ap (λ x. (x, ts)) (omega arith)
counted-ones (suc n) m t ts h =
    ap (count_in 65) (counted-ones n m t ts h) ∙ ap (λ x. (x, ts)) (omega arith)

counted-signs : (k : ℕ) → counted (signs k) ≡ (0, [])
unfolding counted signs
counted-signs zero = refl
counted-signs (suc k) = ap (count_in 61) (counted-signs k)

append-ones : (m : ℕ) (t u : Text) → ones m t ++ u ≡ ones m (t ++ u)
unfolding ones
append-ones zero t u = refl
append-ones (suc m) t u = ap (λ x. 65 ∷ x) (append-ones m t u)

counted-tallies : (t : Text) (k : ℕ) → counted (tallies t ++ signs k) ≡ (0, t)
unfolding tallies counted
counted-tallies [] k = counted-signs k
counted-tallies (c ∷ cs) k =
    ap (λ x. count_in 66 (counted x)) (append-ones c (tallies cs) (signs k))
    ∙ ap (count_in 66) (counted-ones c 0 (tallies cs ++ signs k) cs (counted-tallies cs k))
    ∙ ap (λ x. (0, x ∷ cs)) (omega arith)

ones-IsData : (m : ℕ) (t : Text) → IsData t → IsData (ones m t)
unfolding ones
ones-IsData zero t h = h
ones-IsData (suc m) t h = (refl, ones-IsData m t h)

tallies-IsData : (t : Text) → IsData (tallies t)
unfolding tallies
tallies-IsData [] = tt
tallies-IsData (c ∷ cs) = (refl, ones-IsData c (tallies cs) (tallies-IsData cs))

missing-completes : (n : ℕ) → (n + missing n) % 4 ≡ 0
missing-completes n = omega arith

missing-small : (n : ℕ) → missing n < 4
missing-small n = omega arith

abbrev python : Python
python = record {
  number_value = λ t. none;
  number_int = λ t. none;
  read_int = λ t. none;
  show = λ v. [];
}

-- The audience of the claims in a JSON value.
abbrev audience_of : Json → Text
audience_of (obj claims) = elim (get (codes "aud") claims) [ some (str t) ↦ t | _ ↦ [] ]
audience_of _ = []

-- The JSON of claims is the length of their audience, by which `loads` finds the claims.
abbrev pub sample : (Text → Option Json) → Codec
sample loads = record {
  urlsafe_b64encode = λ t. tallies t ++ signs (missing (length (tallies t)));
  urlsafe_b64decode = λ t. some (counted t).1;
  hmac_sha256 = λ secret t. 3 ∷ [];
  dumps = λ v. length (audience_of v) ∷ [];
  loads = loads;
  python = python;
}

pub sample-Base64Laws : (loads : Text → Option Json) → Base64Laws (sample loads)
sample-Base64Laws loads = record {
  padded = λ t. (
    tallies t,
    missing (length (tallies t)),
    refl,
    missing-small (length (tallies t)),
    missing-completes (length (tallies t)),
    tallies-IsData t,
  );
  decodes = λ t. ap (λ x. some x.1) (counted-tallies t (missing (length (tallies t))));
}
