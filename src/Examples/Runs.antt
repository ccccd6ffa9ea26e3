-- ===== src/Examples/Runs.antt =====
-- The theorems on slices, comparators, codings, statuses and masks at concrete inputs.
use mini_leveldb.Base.{◌+◌, ◌^◌, ◌≤◌, ◌≡◌, refl, [], ◌∷◌, ◌++◌, arith, some, length, replicate}
use mini_leveldb.Slice.{Slice, compare}
use mini_leveldb.Slice.Order.{lex, never_equal, compare-lex}
use mini_leveldb.Comparator.{find_shortest_separator}
use mini_leveldb.Comparator.Separator.{IsSeparator, find_shortest_separator-IsSeparator}
use mini_leveldb.Coding
use mini_leveldb.Coding.Varint.{varint32_agrees}
use mini_leveldb.Coding.VarintRoundTrip.{get-encode_varint32}
use mini_leveldb.Coding.VarintRoundTrip.{get-encode_varint64, get-put_length_prefixed_slice}
use mini_leveldb.Status.{not_found, make, to_string}
use mini_leveldb.Status.Messages.{code_text, message, to_string-make}
use mini_leveldb.Crc32c.{mask, unmask, unmask-mask}

abbrev ab : Slice
ab = 97 ∷ 98 ∷ []

abbrev abc : Slice
abc = 97 ∷ 98 ∷ 99 ∷ []

-- Long enough to need two bytes of length.
abbrev two_hundred : Slice
two_hundred = replicate 200 7

compare-lex_example : compare ab abc ≡ never_equal (lex ab abc)
compare-lex_example = compare-lex ab abc

find_shortest_separator-IsSeparator_example :
    IsSeparator abc (99 ∷ []) (find_shortest_separator abc (99 ∷ []))
find_shortest_separator-IsSeparator_example =
    find_shortest_separator-IsSeparator abc (99 ∷ []) (unfold lex in refl)

varint32_agrees_example :
    (Coding.encode_varint32 300 ≡ Coding.encode_varint64 300)
    × (length (Coding.encode_varint32 300) ≡ Coding.varint_length 300)
    × (Coding.varint_length 300 ≤ 5)
varint32_agrees_example = varint32_agrees 300 (omega arith)

get-encode_varint32_example :
    Coding.get_varint32 (Coding.encode_varint32 300 ++ ab) ≡ some (300, ab)
get-encode_varint32_example = get-encode_varint32 300 ab (omega arith)

get-encode_varint64_example :
    Coding.get_varint64 (Coding.encode_varint64 (2 ^ 63 + 5) ++ ab) ≡ some (2 ^ 63 + 5, ab)
get-encode_varint64_example = get-encode_varint64 (2 ^ 63 + 5) ab (omega arith)

get-put_length_prefixed_slice_example :
    Coding.get_length_prefixed_slice (Coding.put_length_prefixed_slice [] abc ++ ab)
    ≡ (some abc, ab)
get-put_length_prefixed_slice_example = get-put_length_prefixed_slice abc ab (omega arith)

to_string-make_example : to_string (make not_found ab abc) ≡ code_text not_found ++ message ab abc
to_string-make_example = to_string-make not_found ab abc (omega arith)

unmask-mask_example : unmask (mask 0x12345678) ≡ 0x12345678
unmask-mask_example = unmask-mask 0x12345678 (omega arith)
