-- ===== src/Executor/Ids.antt =====
-- `_create_job_id`: a letter for the kind of the call and the number of the job.
use lithops.Base.{
  ℕ, zero, suc, ◌+◌, ◌-◌, ◌*◌, ◌/◌, ◌%◌, [], ◌∷◌, ◌++◌, Text, length, map, ltb, ◌==◌, if◌then◌else◌,
}

-- str(n), of a natural number, on fuel: one more than n is enough.
abbrev pub digits : ℕ → ℕ → Text
digits zero n = []
digits (suc fuel) n =
    let front = digits fuel (n / 10) in
    if ltb n 10 then (b'0' + n) ∷ [] else front ++ (b'0' + n % 10) ∷ []

abbrev pub str : ℕ → Text
str n = digits (suc n) n

abbrev pub zeros : ℕ → Text
zeros zero = []
zeros (suc n) = b'0' ∷ zeros n

-- s.zfill(width), of a text without a sign.
abbrev pub zfill : ℕ → Text → Text
zfill width s = zeros (width - length s) ++ s

-- The number that digits stand for, and int(s).
abbrev pub value_from : ℕ → Text → ℕ
value_from acc [] = acc
value_from acc (c ∷ s) = value_from (acc * 10 + (c - b'0')) s

abbrev pub int : Text → ℕ
int s = value_from 0 s

unfoldable pub job_name : ℕ → ℕ → Text
job_name call_type total_jobs = call_type ∷ zfill 3 (str total_jobs)

-- s.replace(a, b), of two characters.
abbrev pub replace : ℕ → ℕ → Text → Text
replace a b s = map (λ c. if c == a then b else c) s
