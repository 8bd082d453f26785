-- ===== src/Sng/Words.antt =====
-- What the program uses of `std::istream`: its text, its state, and `in >> str`.
use Prim.Native.Char.{Char, code}
use Prim.Native.String.{String, ◌++◌ as ◌<>◌}
use text.Mathlib.TextLemmas.{nil-append, cons-append}
use systemoc_syste_mo_c.Common.{
  ◌≡◌, refl, Bool, true, false, ◌&&◌, ◌||◌, leb, ◌==◌, if◌then◌else◌, arith,
}

-- The text that is left, and the three bits of the state.
pub record Istream : Type 0 where
  pub rest : String
  pub eof : Bool
  pub fail : Bool
  pub bad : Bool

-- `isspace` of the classic locale.
unfoldable pub is_space : Char → Bool
is_space c = (leb 9 (code c) && leb (code c) 13) || (code c == 32)

unfoldable pub skip_spaces : String → String
unfolding is_space
skip_spaces String.[] = String.[]
skip_spaces (String.◌∷◌ c s) =
    let rest = skip_spaces s in if is_space c then rest else String.◌∷◌ c s

-- The characters up to the first space, and those from it on.
unfoldable pub word : String → String
unfolding is_space
word String.[] = String.[]
word (String.◌∷◌ c s) = let rest = word s in if is_space c then String.[] else String.◌∷◌ c rest

unfoldable pub after_word : String → String
unfolding is_space
after_word String.[] = String.[]
after_word (String.◌∷◌ c s) = let rest = after_word s in if is_space c then String.◌∷◌ c s else rest

unfoldable pub is_empty : String → Bool
is_empty String.[] = true
is_empty (String.◌∷◌ c s) = false

-- `in >> str` of an empty `str`: the word, and the stream after it. A stream that is not good, or
-- has no word left, fails, and leaves `str` empty.
unfoldable pub extract : Istream → String × Istream
unfolding skip_spaces word after_word is_empty
extract s =
    let t = skip_spaces s.rest in
    if s.eof || s.fail || s.bad
    then (String.[], record s { fail = true })
    else if is_empty t
    then (String.[], record s { rest = String.[]; eof = true; fail = true })
    else (word t, record s { rest = after_word t; eof = is_empty (after_word t) })

-- Every character is a space, and none is.
unfoldable pub is_gap : String → Bool
unfolding is_space
is_gap String.[] = true
is_gap (String.◌∷◌ c s) = is_space c && is_gap s

unfoldable pub is_word : String → Bool
unfolding is_space
is_word String.[] = true
is_word (String.◌∷◌ c s) = (if is_space c then false else true) && is_word s

-- Nothing, or a space first.
unfoldable pub ends_word : String → Bool
unfolding is_space
ends_word String.[] = true
ends_word (String.◌∷◌ c s) = is_space c

pub skip_spaces-gap : (g s : String) → is_gap g ≡ true → skip_spaces (g <> s) ≡ skip_spaces s
unfolding skip_spaces is_gap
skip_spaces-gap String.[] s h = rw (nil-append s) refl
skip_spaces-gap (String.◌∷◌ c g) s h =
    rw (cons-append c g s) (ground (arith, h, skip_spaces-gap g s))

pub skip_spaces-word :
    (c : Char) (w s : String)
    → is_word (String.◌∷◌ c w) ≡ true
    → skip_spaces (String.◌∷◌ c w <> s) ≡ String.◌∷◌ c w <> s
unfolding skip_spaces is_word
skip_spaces-word c w s h = rw (cons-append c w s) (ground (arith, h))

pub word-append : (w s : String) → is_word w ≡ true → ends_word s ≡ true → word (w <> s) ≡ w
unfolding word is_word ends_word
word-append String.[] String.[] h e = refl
word-append String.[] (String.◌∷◌ d s) h e = rw (nil-append (String.◌∷◌ d s), e) refl
word-append (String.◌∷◌ c w) s h e = rw (cons-append c w s) (ground (arith, h, word-append w s))

pub after_word-append :
    (w s : String) → is_word w ≡ true → ends_word s ≡ true → after_word (w <> s) ≡ s
unfolding after_word is_word ends_word
after_word-append String.[] String.[] h e = refl
after_word-append String.[] (String.◌∷◌ d s) h e = rw (nil-append (String.◌∷◌ d s), e) refl
after_word-append (String.◌∷◌ c w) s h e =
    rw (cons-append c w s) (ground (arith, h, after_word-append w s))
