-- ===== src/CpuMap/Examples.antt =====
-- Lists of processors and the whole setting at concrete values.
use vstreamer.Base.{pos, ◌≡◌, negsuc, [], ◌∷◌, ◌++◌, arith, refl, ok, true, ◌++◌}
use vstreamer.KeyUtil.{key_parse_i64}
use vstreamer.Rtp.Pay.{same_bytes}
use vstreamer.CpuMap.{
  to_int, parse_cpulist, format_cpulist, parse_cpu_map, default_map, key_source, key_rx,
  parse_tokens, skip_separators, parse_token, find_dash, token, parse_range, range, parse_single,
  count_up, parse_entries, split_at, enter, set_stage, set_stage_int,
}
use vstreamer.CpuMap.RoundTrip.{parse_cpulist-format_cpulist}

parse_cpulist-format_cpulist_example :
    parse_cpulist (format_cpulist (pos 4 ∷ negsuc 0 ∷ pos 17 ∷ []))
    ≡ ok (pos 4 ∷ negsuc 0 ∷ pos 17 ∷ [], true)
parse_cpulist-format_cpulist_example =
    parse_cpulist-format_cpulist (pos 4) (negsuc 0 ∷ pos 17 ∷ [])
      (omega arith, (omega arith, (omega arith, tt)))

-- The list `4-6, 9`.
ranges_test :
    parse_cpulist (52 ∷ 45 ∷ 54 ∷ 44 ∷ 32 ∷ 57 ∷ []) ≡ ok (pos 4 ∷ pos 5 ∷ pos 6 ∷ pos 9 ∷ [], true)
unfolding parse_cpulist parse_tokens skip_separators parse_token find_dash token parse_range
    key_parse_i64 range parse_single count_up to_int
ranges_test = refl

-- In `source=x;rx=9` the entry that is no number is passed over.
passed_over_test :
    parse_cpu_map (key_source ++ 61 ∷ 120 ∷ 59 ∷ key_rx ++ 61 ∷ 57 ∷ [])
    ≡ ok (record default_map { rx = pos 9 })
unfolding parse_cpu_map parse_entries split_at enter set_stage same_bytes set_stage_int
    key_parse_i64 to_int
passed_over_test = refl

-- On its own it gives the default.
alone_test : parse_cpu_map (key_source ++ 61 ∷ 120 ∷ []) ≡ ok default_map
unfolding parse_cpu_map parse_entries split_at enter set_stage same_bytes set_stage_int
    key_parse_i64 to_int
alone_test = refl
