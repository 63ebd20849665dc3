-- ===== src/Client/Text/Decimal.antt =====
-- A prefix as text is read back.
use librefw.Base.{
  ℕ, ◌+◌, ◌/◌, ◌%◌, ◌<◌, ◌≡◌, refl, ap, false, some, [], ◌∷◌, ◌++◌, arith, ltb, ◌==◌, if◌then◌else◌,
  All,
}
use librefw.Base.Int.{pos}
use librefw.Client.Text.{
  Text, slash, before_slash, find_slash, after_slash, skip_space, digits_from, digits, stoi_at,
  stoi,
}

-- A number below 100 in decimal
unfoldable pub decimal : ℕ → Text
decimal n = if ltb n 10 then (48 + n) ∷ [] else (48 + n / 10) ∷ (48 + n % 10) ∷ []

-- `text/len`
abbrev pub line_of : Text → ℕ → Text
line_of text len = text ++ (slash ∷ decimal len)

abbrev pub HasNoSlash : Text → Type 0
HasNoSlash text = All (λ c. (c == slash) ≡ false) text

pub before_slash-line :
    (text rest : Text) → HasNoSlash text → before_slash (text ++ (slash ∷ rest)) ≡ text
unfolding before_slash
before_slash-line [] rest h = refl
before_slash-line (c ∷ cs) rest h = rw h.0 (ap (λ t. c ∷ t) (before_slash-line cs rest h.1))

find_slash-line :
    (text rest : Text) → HasNoSlash text → find_slash (text ++ (slash ∷ rest)) ≡ some rest
unfolding find_slash
find_slash-line [] rest h = refl
find_slash-line (c ∷ cs) rest h = rw h.0 (find_slash-line cs rest h.1)

pub after_slash-line :
    (text rest : Text) → HasNoSlash text → after_slash (text ++ (slash ∷ rest)) ≡ rest
unfolding after_slash
after_slash-line text rest h = rw (find_slash-line text rest h, after_slash) refl

pub stoi-decimal : (n : ℕ) → n < 100 → stoi (decimal n) ≡ some (pos n)
unfolding stoi stoi_at skip_space digits digits_from decimal
stoi-decimal n h = ground arith
