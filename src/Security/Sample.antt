-- ===== src/Security/Sample.antt =====
-- A codec for the tests: tokens are their claims, and numbers are written in strokes.
use system_uni.Prelude.{
  ℕ, zero, suc, ◌<◌, ◌≡◌, refl, ap, String, Option, none, some, ltb, if◌then◌else◌, arith,
}
use system_uni.Security.{Claims, Jwt, whole_seconds}

abbrev pub strokes : ℕ → String
strokes zero = String.[]
strokes (suc n) = String.◌∷◌ "I" (strokes n)

abbrev pub count : String → ℕ
count String.[] = 0
count (String.◌∷◌ c s) = suc (count s)

pub count-strokes : (n : ℕ) → count (strokes n) ≡ n
count-strokes zero = refl
count-strokes (suc n) = ap suc (count-strokes n)

abbrev pub unexpired : ℕ → Claims → Option Claims
unexpired now c =
    if ltb now (whole_seconds c.exp)
    then some (record { sub = c.sub; ver = c.ver; exp = whole_seconds c.exp })
    else none

pub unexpired_lem :
    (now : ℕ) (c : Claims)
    → now < whole_seconds c.exp
    → unexpired now c ≡ some (record { sub = c.sub; ver = c.ver; exp = whole_seconds c.exp })
unexpired_lem now c h = ground arith

abbrev pub plain : Jwt Claims
plain = record {
  encode = λ c. c;
  decode = unexpired;
  str = strokes;
  int = λ s. some (count s);
  decode-encode = unexpired_lem;
  int-str = λ n. ap some (count-strokes n);
}
