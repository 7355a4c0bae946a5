-- ===== src/Utility/Random.antt =====
-- `get_rand` and `gen_random_dummy_string` of src/utility.c, which make the text of a session. The
-- address of `get_rand` is an argument, and its static counter is given and returned.
mod Tests
use facebooc.Base.{
  ℕ, zero, suc, ◌+◌, ◌-◌, ◌*◌, ◌%◌, ◌^◌, ◌≡◌, ◌≤◌, ◌<◌, refl, ap, sym, ◌∙◌, Bool, true, false, List,
  [], ◌∷◌, Bytes, codes, get_or, replicate, bit_and, if◌then◌else◌, ◌==◌, arith, Run, ok, fault,
  ◌>>=◌,
}
use native.Mathlib.Nat.{
  mul_assoc, mul-mod_right, mod-eq_of_lt, mul-le-mul_left, le-mul_of_pos_right,
}

-- `get_rand`: the products are of type `size_t`, and the remainder is cut to the 32 bits of an
-- `int`. The counter, an `int`, must not overflow.
unfoldable pub get_rand : ℕ → ℕ → Run (ℕ × ℕ)
get_rand address counter =
    let magic_number = address in
    let product = address * magic_number % 2 ^ 64 * (counter + 1) % 2 ^ 64 in
    if counter == 2 ^ 31 - 1 then fault else ok (product % magic_number % 2 ^ 32, counter + 1)

abbrev pub table : Bytes
table = codes "0123456789abcdefghijklmnopqrstuvwxyzABCDEFGHIJKLMNOPQRSTUVWXYZ-~"

-- `gen_random_dummy_string`: so many bytes of the table.
unfoldable pub gen_random_dummy_string : ℕ → ℕ → ℕ → Run (Bytes × ℕ)
gen_random_dummy_string address counter zero = ok ([], counter)
gen_random_dummy_string address counter (suc len) = do
  (n, counted) ← get_rand address counter
  (rest, after) ← gen_random_dummy_string address counted len
  ok (get_or table (bit_and n 63) 0 ∷ rest, after)

-- A product that does not wrap round is a multiple of the address.
get_rand-zero :
    (address counter : ℕ)
    → counter + 1 < 2 ^ 31
    → address * address * (counter + 1) < 2 ^ 64
    → get_rand address counter ≡ ok (0, counter + 1)
unfolding get_rand
get_rand-zero address counter small fits =
    let last : (counter == 2 ^ 31 - 1) ≡ false = ground arith in
    let square : address * address % 2 ^ 64 ≡ address * address = mod-eq_of_lt (
      omega
        (arith, fits, le-mul_of_pos_right {m = counter + 1} (address * address) (omega arith))) in
    let whole : address * address * (counter + 1) % 2 ^ 64 ≡ address * address * (counter + 1) =
      mod-eq_of_lt fits in
    let multiple : address * address * (counter + 1) % address ≡ 0 =
      ap (λ n. n % address) (mul_assoc address address (counter + 1))
      ∙ mul-mod_right address (address * (counter + 1)) in
    rw (last, square, whole, multiple) refl

-- While the square of the address times the counter after the call is below 2 ^ 64, and the counter
-- below 2 ^ 31, every byte is `0`.
pub gen_random_dummy_string-zeros :
    (address counter len : ℕ)
    → counter + len < 2 ^ 31
    → address * address * (counter + len) < 2 ^ 64
    → gen_random_dummy_string address counter len ≡ ok (replicate len b'0', counter + len)
unfolding gen_random_dummy_string
gen_random_dummy_string-zeros address counter zero small fits = ap (λ n. ok ([], n)) (omega arith)
gen_random_dummy_string-zeros address counter (suc len) small fits =
    let less : address * address * (counter + 1) ≤ address * address * (counter + suc len) =
      mul-le-mul_left (address * address) (omega arith) in
    let again : address * address * (counter + 1 + len) < 2 ^ 64 = omega (
      arith,
      fits,
      ap (λ n. address * address * n) {x = counter + 1 + len} {y = counter + suc len} (omega arith),
    ) in
    rw
      (
        get_rand-zero address counter (omega arith) (omega (arith, less, fits)),
        gen_random_dummy_string-zeros address (counter + 1) len (omega arith) again,
      )
      (ap (λ n. ok (b'0' ∷ replicate len b'0', n)) (omega arith))
