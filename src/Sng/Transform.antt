-- ===== src/Sng/Transform.antt =====
-- `Transform` of src/systemoc-sng/headers/smoc/sng/transform.hpp with its `<<` and `>>` in
-- cpp/transform/transform.cpp.
pub mod Naming
use Prim.Native.String.{String, ◌++◌ as ◌<>◌}
use text.Mathlib.Text.{◌==◌}
use systemoc_syste_mo_c.Common.{Bool, true, false, if◌then◌else◌}
use systemoc_syste_mo_c.Sng.Words.{Istream, extract}

pub data Transform : Type 0 where
  fifos_no_merging fifos_same_content_merging fifos_same_producer_merging : Transform
  chans_are_dropped_no_merging chans_are_dropped_same_content_merging : Transform

-- `out << transform`, where `out` is the text written so far.
unfoldable pub print : String → Transform → String
print out fifos_no_merging = out <> "FIFOS_NO_MERGING"
print out fifos_same_content_merging = out <> "FIFOS_SAME_CONTENT_MERGING"
print out fifos_same_producer_merging = out <> "FIFOS_SAME_PRODUCER_MERGING"
print out chans_are_dropped_no_merging = out <> "CHANS_ARE_DROPPED_NO_MERGING"
print out chans_are_dropped_same_content_merging = out <> "CHANS_ARE_DROPPED_SAME_CONTENT_MERGING"

-- The tests of `str`, with the value that `transform` has before them.
unfoldable pub choose : String → Istream → Transform → Istream × Transform
choose str s old =
    if str == "FIFOS_NO_MERGING"
    then (s, fifos_no_merging)
    else if str == "FIFOS_SAME_CONTENT_MERGING"
    then (s, fifos_same_content_merging)
    else if str == "FIFOS_SAME_PRODUCER_MERGING"
    then (s, fifos_same_producer_merging)
    else if str == "CHANS_ARE_DROPPED_NO_MERGING"
    then (s, chans_are_dropped_no_merging)
    else if str == "CHANS_ARE_DROPPED_SAME_CONTENT_MERGING"
    then (s, chans_are_dropped_same_content_merging)
    else (record s { bad = true }, old)

-- `in >> transform`
unfoldable pub parse : Istream → Transform → Istream × Transform
unfolding choose
parse s old =
    let (str, after) = extract s in if after.bad then (after, old) else choose str after old
