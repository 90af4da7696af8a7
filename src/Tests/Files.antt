-- ===== src/Tests/Files.antt =====
-- A file of three bytes that loadfile reads into a buffer of two.
use anu_db.Base.{ℕ, ◌≡◌, refl, true, ◌≤◌, [], ◌∷◌, arith, Bytes}
use anu_db.Mqtt.FileLoader.{Fault, Calls, loaded, load_file}
use anu_db.Mqtt.FileLoader.Bounds.{load_file_lem}

abbrev quiet : Calls
quiet = record { fault = λ n. Fault.clear; can_realloc = λ n. true }

abbrev contents : Bytes
contents = 10 ∷ 20 ∷ 30 ∷ []

load_file_lem_example :
    (size : ℕ) × (load_file quiet 4 2 contents ≡ loaded contents size) × (3 ≤ size)
load_file_lem_example =
    load_file_lem quiet 4 2 contents (record { no_fault = λ n. refl; reallocates = λ n. refl })
      (omega arith) (omega arith) (omega arith) (omega arith)
