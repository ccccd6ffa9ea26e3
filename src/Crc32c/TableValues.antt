-- ===== src/Crc32c/TableValues.antt =====
-- What the tables of util/crc32c.cc hold, entry by entry.
use mini_leveldb.Base.{ℕ, zero, suc, ◌+◌, ◌*◌, ◌^◌, ◌<◌, ◌≡◌, refl, ap, ◌∙◌, arith}
use mini_leveldb.Base.{List, [], ◌∷◌, get_or}
use mini_leveldb.Crc32c.Tables.{
  byte_extension_table, stride_extension_table0, stride_extension_table1, stride_extension_table2,
  stride_extension_table3,
}
use mini_leveldb.Crc32c.Bitwise.{digit_steps}

-- The table of a function, from one index on.
tabulate : (ℕ → ℕ) → (from count : ℕ) → List ℕ
tabulate f from zero = []
tabulate f from (suc count) = f from ∷ tabulate f (from + 1) count

get_or-tabulate :
    (f : ℕ → ℕ) (from count x : ℕ) → x < count → get_or (tabulate f from count) x 0 ≡ f (from + x)
unfolding tabulate
get_or-tabulate f from zero x h = absurd (omega arith)
get_or-tabulate f from (suc count) zero h = let here : from ≡ from + 0 = omega arith in ap f here
get_or-tabulate f from (suc count) (suc x) h =
    let next : from + 1 + x ≡ from + suc x = omega arith in
    get_or-tabulate f (from + 1) count x (omega arith) ∙ ap f next

-- A table that is the one of a function has its values.
get_or_table :
    (f : ℕ → ℕ) (table : List ℕ) (x : ℕ)
    → table ≡ tabulate f 0 256
    → x < 256
    → get_or table x 0 ≡ f x
get_or_table f table x e h =
    let index : 0 + x ≡ x = omega arith in
    ap (λ t. get_or t x 0) e ∙ get_or-tabulate f 0 256 x h ∙ ap f index

-- A byte, placed a number of digits up, after a number of digit steps.
abbrev pub placed : (steps shift x : ℕ) → ℕ
placed steps shift x = digit_steps steps (x * 2 ^ shift)

byte_table_tabulate : byte_extension_table ≡ tabulate (placed 8 0) 0 256
unfolding tabulate byte_extension_table digit_steps
byte_table_tabulate = refl

pub byte_table_value : (x : ℕ) → x < 256 → get_or byte_extension_table x 0 ≡ placed 8 0 x
byte_table_value x h = get_or_table (placed 8 0) byte_extension_table x byte_table_tabulate h

stride_table0_tabulate : stride_extension_table0 ≡ tabulate (placed 128 24) 0 256
unfolding tabulate stride_extension_table0 digit_steps
stride_table0_tabulate = refl

pub stride_table0_value : (x : ℕ) → x < 256 → get_or stride_extension_table0 x 0 ≡ placed 128 24 x
stride_table0_value x h =
    get_or_table (placed 128 24) stride_extension_table0 x stride_table0_tabulate h

stride_table1_tabulate : stride_extension_table1 ≡ tabulate (placed 128 16) 0 256
unfolding tabulate stride_extension_table1 digit_steps
stride_table1_tabulate = refl

pub stride_table1_value : (x : ℕ) → x < 256 → get_or stride_extension_table1 x 0 ≡ placed 128 16 x
stride_table1_value x h =
    get_or_table (placed 128 16) stride_extension_table1 x stride_table1_tabulate h

stride_table2_tabulate : stride_extension_table2 ≡ tabulate (placed 128 8) 0 256
unfolding tabulate stride_extension_table2 digit_steps
stride_table2_tabulate = refl

pub stride_table2_value : (x : ℕ) → x < 256 → get_or stride_extension_table2 x 0 ≡ placed 128 8 x
stride_table2_value x h =
    get_or_table (placed 128 8) stride_extension_table2 x stride_table2_tabulate h

stride_table3_tabulate : stride_extension_table3 ≡ tabulate (placed 128 0) 0 256
unfolding tabulate stride_extension_table3 digit_steps
stride_table3_tabulate = refl

pub stride_table3_value : (x : ℕ) → x < 256 → get_or stride_extension_table3 x 0 ≡ placed 128 0 x
stride_table3_value x h =
    get_or_table (placed 128 0) stride_extension_table3 x stride_table3_tabulate h
