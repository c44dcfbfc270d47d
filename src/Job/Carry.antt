-- ===== src/Job/Carry.antt =====
-- How the data of a job reaches the workers.
use lithops.Base.{
  ℕ, ◌+◌, ◌*◌, ◌<◌, ◌≤◌, ◌≡◌, refl, ap, sym, ◌∙◌, Bool, true, false, ◌||◌, Option, some, List, [],
  ◌∷◌, ◌++◌, Text, take, drop, length, ltb, ltb-false→le, ltb→lt, text_eq_refl, Bool-cases, inl,
  inr, arith,
}
use mathlib.Core.Option.{some-injective}
use lithops.Payload.{Last, agg_data, ranges, get_function_data, iterchunks, create_data_key}
use lithops.Payload.Pieces.{flatten, AllWithin, iterchunks_lem}
use lithops.Payload.Ranges.{NonEmpty, AnswersRanges, get_function_data-agg_data}
use lithops.Job.Upload.{fetch}
use lithops.Job.Create.{
  Config, Libraries, Request, World, upload_data, store_job, or_else, max_data_in_payload,
}

or-false : (a b : Bool) → a || b ≡ false → a ≡ false
or-false true b h = h
or-false false b h = refl

-- The bytes of some data.
abbrev pub bytes : List Text → ℕ
bytes [] = 0
bytes (s ∷ ss) = length s + bytes ss

abbrev pub AllFit : ℕ → List (List Text) → Type 0
AllFit n [] = Unit
AllFit n (c ∷ cs) = (bytes c ≤ n) × AllFit n cs

upload_data-append :
    (cz : ℕ) (xs ys : List Text)
    → upload_data cz (xs ++ ys) ≡ false
    → (upload_data cz xs ≡ false) × (upload_data cz ys ≡ false)
unfolding upload_data
upload_data-append cz [] ys h = (refl, h)
upload_data-append cz (x ∷ xs) ys h = ground (arith, upload_data-append cz xs ys)

upload_data-bytes :
    (cz : ℕ) (xs : List Text)
    → upload_data cz xs ≡ false
    → bytes xs * cz ≤ length xs * max_data_in_payload
unfolding upload_data
upload_data-bytes cz [] h = omega arith
upload_data-bytes cz (x ∷ xs) h =
    let short = ltb-false→le max_data_in_payload (length x * cz) in
    let rest = upload_data-bytes cz xs in grind arith

bytes_fit : (cz b n : ℕ) → 0 < cz → b * cz ≤ n * max_data_in_payload → n ≤ cz → b ≤ 8192
bytes_fit cz b n p h le = elim (Bool-cases (ltb 8192 b)) [
  | inl more ↦ let lt = ltb→lt 8192 b more in absurd (grind arith)
  | inr most ↦ ltb-false→le 8192 b most
]

chunks_fit :
    (cz : ℕ) (cs : List (List Text))
    → 0 < cz
    → upload_data cz (flatten cs) ≡ false
    → AllWithin cz cs
    → AllFit max_data_in_payload cs
chunks_fit cz [] p h w = tt
chunks_fit cz (c ∷ cs) p h (_, le, w) =
    let (here, there) = upload_data-append cz c (flatten cs) h in
    (
      bytes_fit cz (bytes c) (length c) p (upload_data-bytes cz c here) le,
      chunks_fit cz cs p there w,
    )

-- Where a job carries its data itself, and its chunk size is not 0, the data in chunks of calls
-- are all the data in order, and each chunk, which is one payload, has 8 KB of data at most.
pub store_job_payload :
    {F D : Type 0} (libs : Libraries F D) (config : Config) (r : Request F D)
    (func_module_str : Text) (data_strs : List Text) (w : World) {strs : List Text}
    → (store_job libs config r func_module_str data_strs w).0.data_byte_strs ≡ some strs
    → 0 < (store_job libs config r func_module_str data_strs w).0.chunksize
    → (chunks : List (List Text)) × (iterchunks strs
          (store_job libs config r func_module_str data_strs w).0.chunksize
        ≡ some chunks)
      × (flatten chunks ≡ data_strs)
      × AllFit max_data_in_payload chunks
unfolding store_job
store_job_payload libs config r func_module_str data_strs w {strs} own p =
    let cz = or_else r.chunksize config.chunksize in
    elim (Bool-cases (upload_data cz data_strs || config.batch)) [
      | inl up ↦ let e = rw up at own in absurd (cc)
      | inr keep ↦
          let same : data_strs ≡ strs = some-injective _ _ (rw keep at own) in
          let (chunks, e, whole, within, _) = iterchunks_lem strs cz p in
          let small : upload_data cz data_strs ≡ false =
            or-false (upload_data cz data_strs) config.batch keep in
          (
            chunks,
            e,
            whole ∙ sym same,
            chunks_fit cz chunks p (ap (upload_data cz) (whole ∙ sym same) ∙ small) within,
          )
    ]

-- Where a job carries its data under a key, the data are stored under it, and a worker that asks
-- for the calls from i on, n at most and n not 0, where i is one of them, gets their data, if none
-- is empty, from a storage that answers ranges of what was stored.
pub store_job_data :
    {F D : Type 0} (libs : Libraries F D) (config : Config) (r : Request F D)
    (func_module_str : Text) (data_strs : List Text) (w : World) {dbrs : List (ℕ × Last)} (i n : ℕ)
    (get_data : Option (ℕ × Last) → Text)
    → (store_job libs config r func_module_str data_strs w).0.data_byte_ranges ≡ some dbrs
    → NonEmpty data_strs
    → i < length data_strs
    → 0 < n
    → AnswersRanges get_data (agg_data data_strs).0
    → (key : Text) × ((store_job libs config r func_module_str data_strs w).0.data_key ≡ some key)
      × (fetch key (store_job libs config r func_module_str data_strs w).1.stored
          ≡ some (agg_data data_strs).0)
      × (get_function_data get_data (ranges (take n (drop i dbrs)))
          ≡ some (take n (drop i data_strs)))
unfolding store_job
store_job_data libs config r func_module_str data_strs w {dbrs} i n get_data own full lt p answers =
    let cz = or_else r.chunksize config.chunksize in
    elim (Bool-cases (upload_data cz data_strs || config.batch)) [
      | inl up ↦
          let same : (agg_data data_strs).1 ≡ dbrs = some-injective _ _ (rw up at own) in
          let key = create_data_key r.executor_id r.job_id in
          let here = text_eq_refl key in
          (
            key,
            (rw up refl),
            (rw (up, here) refl),
            ap (λ ds. get_function_data get_data (ranges (take n (drop i ds)))) (sym same)
                ∙ get_function_data-agg_data data_strs i n get_data full answers lt p,
          )
      | inr keep ↦ let e = rw keep at own in absurd (cc)
    ]
