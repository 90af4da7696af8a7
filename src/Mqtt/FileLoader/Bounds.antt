-- ===== src/Mqtt/FileLoader/Bounds.antt =====
-- The buffer of loadfile against the file's size.
use anu_db.Base.{
  ℕ, zero, suc, ◌+◌, ◌-◌, ◌*◌, ◌%◌, ◌^◌, ◌≤◌, ◌<◌, ◌≡◌, refl, ◌∙◌, ap, true, false, [], ◌∷◌, ◌++◌,
  Bytes, length, take, drop, ltb, leb, eqb, arith, append_assoc, length-append, dec_lt,
}
use anu_db.Mqtt.FileLoader.{clear, loaded, Calls, load_loop, load_file, round, after_read, finish}

take_all : (n : ℕ) (xs : Bytes) → length xs < n → take n xs ≡ xs
take_all zero xs h = absurd (omega arith)
take_all (suc n) [] h = refl
take_all (suc n) (x ∷ xs) h = ap (◌∷◌ x) (take_all n xs (omega arith))

length-take : (n : ℕ) (xs : Bytes) → n ≤ length xs → length (take n xs) ≡ n
length-take zero xs h = ground arith
length-take (suc n) [] h = absurd (omega arith)
length-take (suc n) (x ∷ xs) h = omega (arith, length-take n xs (omega arith))

take-drop : (n : ℕ) (xs : Bytes) → take n xs ++ drop n xs ≡ xs
take-drop zero xs = refl
take-drop (suc n) [] = refl
take-drop (suc n) (x ∷ xs) = ap (◌∷◌ x) (take-drop n xs)

length-drop : (n : ℕ) (xs : Bytes) → n ≤ length xs → length (drop n xs) + n ≡ length xs
length-drop n xs h =
    omega
      (arith, ap length (take-drop n xs), length-append (take n xs) (drop n xs), length-take n xs h)

-- No fault, and no failing realloc.
pub record IsQuiet (calls : Calls) : Type 0 where
  pub no_fault : (n : ℕ) → calls.fault n ≡ clear
  pub reallocates : (n : ℕ) → calls.can_realloc n ≡ true

-- A round that fills the buffer goes on with one of twice the size.
load_loop_fills :
    (calls : Calls) (q : IsQuiet calls) (fuel n size : ℕ) (rest fdata : Bytes)
    → length fdata < size
    → size < 2 ^ 63
    → size - length fdata ≤ length rest
    → load_loop calls (suc fuel) n size rest fdata
      ≡ load_loop calls fuel
          (n + 1)
          (size * 2)
          (drop (size - length fdata) rest)
          (fdata ++ take (size - length fdata) rest)
unfolding load_loop round after_read
load_loop_fills calls q fuel n size rest fdata a b c =
    let asked_is : (size + 2 ^ 64 - length fdata) % 2 ^ 64 ≡ size - length fdata = omega arith in
    let full : length (fdata ++ take (size - length fdata) rest) ≡ size = omega (
      arith,
      length-append fdata (take (size - length fdata) rest),
      length-take (size - length fdata) rest c,
    ) in
    let fits : ltb (size + 1) (length (fdata ++ take (size - length fdata) rest)) ≡ false =
      ground (arith, full) in
    let more : ltb (length rest) (size - length fdata) ≡ false = ground arith in
    let at_end : eqb (length (fdata ++ take (size - length fdata) rest)) size ≡ true =
      ground (arith, full) in
    let twice : size * 2 % 2 ^ 64 ≡ size * 2 = omega arith in
    rw (asked_is, fits, q.no_fault, more, at_end, q.reallocates, twice)

-- A round that meets the end of the file is the last.
load_loop_ends :
    (calls : Calls) (q : IsQuiet calls) (fuel n size : ℕ) (rest fdata : Bytes)
    → length fdata < size
    → size < 2 ^ 63
    → length rest < size - length fdata
    → load_loop calls (suc fuel) n size rest fdata ≡ loaded (fdata ++ rest) size
unfolding load_loop round after_read finish
load_loop_ends calls q fuel n size rest fdata a b c =
    let asked_is : (size + 2 ^ 64 - length fdata) % 2 ^ 64 ≡ size - length fdata = omega arith in
    let whole = take_all (size - length fdata) rest c in
    let fits : ltb (size + 1) (length (fdata ++ rest)) ≡ false =
      ground (arith, length-append fdata rest) in
    let under : leb (length (fdata ++ rest)) size ≡ true =
      ground (arith, length-append fdata rest) in
    let ended : ltb (length rest) (size - length fdata) ≡ true = ground arith in
    rw (asked_is, whole, fits, q.no_fault, ended, under)

load_loop_lem :
    (calls : Calls) (q : IsQuiet calls) (fuel n size : ℕ) (rest fdata : Bytes)
    → length fdata < size
    → size < 2 ^ 63
    → length fdata + length rest < 2 ^ 62
    → length rest < fuel
    → (size' : ℕ) × (load_loop calls fuel n size rest fdata ≡ loaded (fdata ++ rest) size')
      × (length (fdata ++ rest) ≤ size')
load_loop_lem calls q zero n size rest fdata a b c d = absurd (omega arith)
load_loop_lem calls q (suc fuel) n size rest fdata a b c d =
    elim (dec_lt (length rest) (size - length fdata)) [
      | yes ends ↦ (
        size,
        load_loop_ends calls q fuel n size rest fdata a b ends,
        omega (arith, ends, length-append fdata rest),
      )
      | no fills ↦
          let k = size - length fdata in
          let enough : k ≤ length rest = omega (arith, fills) in
          let full = length-append fdata (take k rest) in
          let taken = length-take k rest enough in
          let left = length-drop k rest enough in
          let (size', r, l) =
            load_loop_lem calls q fuel (n + 1) (size * 2) (drop k rest) (fdata ++ take k rest)
              (omega (arith, full, taken)) (omega arith) (omega (arith, full, taken, left))
              (omega (arith, left)) in
          let whole : (fdata ++ take k rest) ++ drop k rest ≡ fdata ++ rest =
            append_assoc fdata (take k rest) (drop k rest)
            ∙ ap (λ t. fdata ++ t) (take-drop k rest) in
          (
            size',
            load_loop_fills calls q fuel n size rest fdata a b enough
                ∙ r
                ∙ ap (λ t. loaded t size') whole,
            omega (arith, l, ap length whole),
          )
    ]

-- Of a file of fewer than 2 ^ 62 bytes, with a BUFSIZ that is positive and below 2 ^ 63, where no
-- call fails and the fuel is more than the length of the file, loadfile reads all the bytes, and
-- they and the zero that ends them lie in the buffer.
pub load_file_lem :
    (calls : Calls) (fuel bufsiz : ℕ) (contents : Bytes)
    → IsQuiet calls
    → 0 < bufsiz
    → bufsiz < 2 ^ 63
    → length contents < 2 ^ 62
    → length contents < fuel
    → (size : ℕ) × (load_file calls fuel bufsiz contents ≡ loaded contents size)
      × (length contents ≤ size)
unfolding load_file
load_file_lem calls fuel bufsiz contents q p b c f =
    load_loop_lem calls q fuel 0 bufsiz contents [] p b (omega arith) f
