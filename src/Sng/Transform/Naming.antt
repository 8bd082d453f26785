-- ===== src/Sng/Transform/Naming.antt =====
-- What `>>` makes of what `<<` writes, and of any other word.
use Prim.Native.String.{String, ◌++◌ as ◌<>◌}
use text.Mathlib.TextEquality.{eq_iff}
use text.Mathlib.TextLemmas.{cons-append, append_assoc}
use systemoc_syste_mo_c.Common.{◌≡◌, refl, ap, ◌∙◌, Bool, true, false, arith, Bool-cases, inl, inr}
use systemoc_syste_mo_c.Sng.Words.{
  Istream, extract, skip_spaces, word, after_word, is_empty, is_gap, is_word, ends_word,
  skip_spaces-gap, skip_spaces-word, word-append, after_word-append, is_space,
}
use systemoc_syste_mo_c.Sng.Transform.{
  Transform, fifos_no_merging, fifos_same_content_merging, fifos_same_producer_merging,
  chans_are_dropped_no_merging, chans_are_dropped_same_content_merging, print, choose, parse,
}

-- A stream that is good, with this text.
abbrev pub good : String → Istream
good t = record { rest = t; eof = false; fail = false; bad = false }

-- The stream after a word that these characters follow.
abbrev pub good_after : String → Istream
good_after t = record { rest = t; eof = is_empty t; fail = false; bad = false }

-- What `>>` leaves in the value, by whether the stream is bad after it and the word that it read.
abbrev pub Reads : Bool → Transform → Transform → String → Type 0
Reads true t old w = t ≡ old
Reads false t old w = print String.[] t ≡ w

extract_lem :
    (t u w r : String)
    → skip_spaces t ≡ u
    → is_empty u ≡ false
    → word u ≡ w
    → after_word u ≡ r
    → extract (good t) ≡ (w, good_after r)
unfolding extract
extract_lem t u w r skip more first left = rw (skip, more, first, left) refl

extract-word :
    (g w s : String)
    → is_gap g ≡ true
    → is_word w ≡ true
    → is_empty w ≡ false
    → ends_word s ≡ true
    → extract (good (g <> (w <> s))) ≡ (w, good_after s)
unfolding is_empty
extract-word g String.[] s hg hw ne he = cc
extract-word g (String.◌∷◌ c w) s hg hw ne he =
    extract_lem (g <> (String.◌∷◌ c w <> s)) (String.◌∷◌ c w <> s) (String.◌∷◌ c w) s
      (skip_spaces-gap g (String.◌∷◌ c w <> s) hg ∙ skip_spaces-word c w s hw)
      (rw (cons-append c w s) refl) (word-append (String.◌∷◌ c w) s hw he)
      (after_word-append (String.◌∷◌ c w) s hw he)

print-append : (out : String) (t : Transform) → print out t ≡ out <> print String.[] t
unfolding print
print-append out fifos_no_merging = refl
print-append out fifos_same_content_merging = refl
print-append out fifos_same_producer_merging = refl
print-append out chans_are_dropped_no_merging = refl
print-append out chans_are_dropped_same_content_merging = refl

choose-print : (t old : Transform) (s : Istream) → choose (print String.[] t) s old ≡ (s, t)
unfolding choose print
choose-print fifos_no_merging old s = refl
choose-print fifos_same_content_merging old s = refl
choose-print fifos_same_producer_merging old s = refl
choose-print chans_are_dropped_no_merging old s = refl
choose-print chans_are_dropped_same_content_merging old s = refl

print-IsWord :
    (t : Transform) → (is_word (print String.[] t) ≡ true) × (is_empty (print String.[] t) ≡ false)
unfolding print is_word is_empty is_space
print-IsWord fifos_no_merging = (refl, refl)
print-IsWord fifos_same_content_merging = (refl, refl)
print-IsWord fifos_same_producer_merging = (refl, refl)
print-IsWord chans_are_dropped_no_merging = (refl, refl)
print-IsWord chans_are_dropped_same_content_merging = (refl, refl)

parse_lem :
    (s : Istream) (old : Transform) (w : String) (after : Istream)
    → extract s ≡ (w, after)
    → after.bad ≡ false
    → parse s old ≡ choose w after old
unfolding parse
parse_lem s old w after e h = rw (e, h) refl

-- What `<<` writes of a value, after any spaces `g` and before a space or the end of the text,
-- `>>` reads back as the same value. The stream stays good, apart from the end of its text, and
-- goes on right after the name.
pub parse-print :
    (g s : String) (t old : Transform)
    → is_gap g ≡ true
    → ends_word s ≡ true
    → parse (good (print g t <> s)) old ≡ (good_after s, t)
parse-print g s t old hg he =
    let (whole, some) = print-IsWord t in
    let text = ap (λ p. p <> s) (print-append g t) ∙ append_assoc g (print String.[] t) s in
    ap (λ p. parse (good p) old) text
    ∙ parse_lem _ old (print String.[] t) (good_after s)
        (extract-word g (print String.[] t) s hg whole some he) refl
    ∙ choose-print t old (good_after s)

choose_names :
    (w : String) (s : Istream) (old : Transform)
    → s.bad ≡ false
    → Reads (choose w s old).0.bad (choose w s old).1 old w
unfolding choose print
choose_names w s old h = ground (
  arith,
  h,
  eq_iff w "FIFOS_NO_MERGING",
  eq_iff w "FIFOS_SAME_CONTENT_MERGING",
  eq_iff w "FIFOS_SAME_PRODUCER_MERGING",
  eq_iff w "CHANS_ARE_DROPPED_NO_MERGING",
  eq_iff w "CHANS_ARE_DROPPED_SAME_CONTENT_MERGING",
)

-- What `>>` does to any stream: if the stream is not bad after it, the word that it read is the one
-- that `<<` writes of the new value; else the value is the old one.
pub parse-print_only :
    (s : Istream) (old : Transform) → Reads (parse s old).0.bad (parse s old).1 old (extract s).0
unfolding parse
parse-print_only s old = elim (Bool-cases (extract s).1.bad) [
  | inl bad ↦ rw (bad, bad) refl
  | inr fine ↦ rw fine (choose_names (extract s).0 (extract s).1 old fine)
]
