-- ===== src/Sng/Tests.antt =====
-- Streams with a name, with another word, and with none.
use systemoc_syste_mo_c.Common.{◌≡◌, refl, true}
use systemoc_syste_mo_c.Sng.Words.{
  Istream, extract, is_gap, is_space, ends_word, skip_spaces, word, after_word, is_empty,
}
use systemoc_syste_mo_c.Sng.Transform.{
  fifos_no_merging, fifos_same_producer_merging, print, choose, parse,
}
use systemoc_syste_mo_c.Sng.Transform.Naming.{
  good, good_after, Reads, parse-print, parse-print_only,
}

parse-print_example :
    parse (good "  FIFOS_SAME_PRODUCER_MERGING out.sng") fifos_no_merging
    ≡ (good_after " out.sng", fifos_same_producer_merging)
unfolding print is_gap ends_word is_space
parse-print_example =
    parse-print "  " " out.sng" fifos_same_producer_merging fifos_no_merging refl refl

abbrev shouted : Istream
shouted = good "FIFOS_MERGING"

parse-print_only_example :
    Reads
      (parse shouted fifos_no_merging).0.bad
      (parse shouted fifos_no_merging).1
      fifos_no_merging
      (extract shouted).0
parse-print_only_example = parse-print_only shouted fifos_no_merging

shouted_is_bad : (parse shouted fifos_no_merging).0.bad ≡ true
unfolding parse choose extract skip_spaces word after_word is_space is_empty
shouted_is_bad = refl

-- A stream with no word left turns bad too.
nothing_is_bad : (parse (good " ") fifos_no_merging).0.bad ≡ true
unfolding parse choose extract skip_spaces word after_word is_space is_empty
nothing_is_bad = refl
