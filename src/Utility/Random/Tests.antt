-- ===== src/Utility/Random/Tests.antt =====
-- `get_rand` at the address of a function in a program that is not moved about in memory.
use facebooc.Base.{◌≡◌, replicate, ok, arith}
use facebooc.Utility.Random.{gen_random_dummy_string, gen_random_dummy_string-zeros}

gen_random_dummy_string-zeros_example :
    gen_random_dummy_string 4200000 1000 64 ≡ ok (replicate 64 b'0', 1064)
gen_random_dummy_string-zeros_example =
    gen_random_dummy_string-zeros 4200000 1000 64 (omega arith) (omega arith)
