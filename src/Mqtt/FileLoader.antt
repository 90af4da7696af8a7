-- ===== src/Mqtt/FileLoader.antt =====
-- mqtt/AnuDBMqttClient.cpp: loadfile, which reads a file into a buffer that it doubles. The buffer has
-- `allocation_size + 1` bytes; size_t has 64 bits. fread() at the end of a file reads what is left and
-- sets the end-of-file flag if that is less than what was asked.
pub mod Bounds
use anu_db.Base.{
  ℕ, zero, suc, ◌+◌, ◌-◌, ◌*◌, ◌%◌, ◌^◌, Bool, true, false, List, [], ◌∷◌, ◌++◌, Bytes, length,
  take, drop, if◌then◌else◌, ltb, leb, eqb,
}

-- ferror() after a call of fread: no error, one with errno EINTR, or another.
pub data Fault : Type 0 where
  clear interrupted broken : Fault

-- The buffer's bytes with its size at the end; exit(1); a write outside the buffer; fuel that ran out.
pub data Load : Type 0 where
  loaded : Bytes → ℕ → Load
  exits overflows stops : Load

-- What the calls return: the fault of fread and whether realloc succeeds, by the calls before.
pub record Calls : Type 0 where
  pub fault : ℕ → Fault
  pub can_realloc : ℕ → Bool

-- fdata[total_read] = 0
finish : ℕ → Bytes → Load
finish size fdata = if leb (length fdata) size then loaded fdata size else overflows

-- The rest of a round after fread. A size over SIZE_MAX / 2 is reported, and doubled all the same.
after_read : (ℕ → Load) → Calls → ℕ → ℕ → Bool → Bytes → Load
unfolding finish
after_read again calls n size ended fdata =
    let doubled = again (size * 2 % 2 ^ 64) in
    let grown = if calls.can_realloc n then doubled else exits in
    let same = again size in
    if ended then finish size fdata else if eqb (length fdata) size then grown else same

round : (ℕ → Load) → Calls → ℕ → ℕ → Bool → Bytes → Fault → Load
unfolding after_read
round again calls n size ended fdata clear = after_read again calls n size ended fdata
round again calls n size ended fdata interrupted = again size
round again calls n size ended fdata broken = exits

-- The loop, with the calls so far, the size, what is left of the file, and what was read.
unfoldable pub load_loop : Calls → ℕ → ℕ → ℕ → Bytes → Bytes → Load
unfolding round
load_loop calls zero n size rest fdata = stops
load_loop calls (suc fuel) n size rest fdata =
    let asked = (size + 2 ^ 64 - length fdata) % 2 ^ 64 in
    let fdata' = fdata ++ take asked rest in
    let again = λ (size' : ℕ). load_loop calls fuel (n + 1) size' (drop asked rest) fdata' in
    let next = round again calls n size (ltb (length rest) asked) fdata' (calls.fault n) in
    if ltb (size + 1) (length fdata') then overflows else next

-- `bufsiz` is BUFSIZ of the C library.
unfoldable pub load_file : Calls → ℕ → ℕ → Bytes → Load
unfolding load_loop
load_file calls fuel bufsiz contents = load_loop calls fuel 0 bufsiz contents []
