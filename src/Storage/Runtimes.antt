-- ===== src/Storage/Runtimes.antt =====
-- What `get_runtime_meta` finds.
use lithops.Base.{ℕ, ◌≡◌, Bool, Option, none, some, if◌then◌else◌, arith}
use lithops.Storage.RuntimeMeta.{
  Places, set, download, get_runtime_meta, put_runtime_meta, delete_runtime_meta,
}

-- The memory is looked at first.
abbrev pub or_else : {M : Type 0} → Option M → Option M → Option M
or_else none m = m
or_else (some m) m' = some m

module _ {M : Type 0} where
  set_here : (key : ℕ) (m : Option M) (place : ℕ → Option M) → set key m place key ≡ m
  set_here key m place = ground arith

  get_runtime_meta_lem :
      (is_worker writable : Bool) (key : ℕ) (places : Places M)
      → (get_runtime_meta is_worker writable key places).0
        ≡ or_else
            (places.memory key)
            (or_else (if is_worker then none else places.disk key) (places.stored key))
  unfolding get_runtime_meta download
  get_runtime_meta_lem is_worker writable key places = ground arith

  -- Metadata that were put are found, and metadata that were deleted are not, unless the key is in
  -- the memory: then the memory's are given, whatever was put or deleted. What was found is found
  -- again by a worker or a client with the same places.
  pub get_runtime_meta-after :
      (is_worker is_worker' writable : Bool) (key : ℕ) (m : M) (places : Places M)
      → ((get_runtime_meta is_worker writable key (put_runtime_meta is_worker key m places)).0
          ≡ or_else (places.memory key) (some m))
        × ((get_runtime_meta is_worker writable key (delete_runtime_meta key places)).0
            ≡ places.memory key)
        × (let (found, later) = get_runtime_meta is_worker writable key places in
            (get_runtime_meta is_worker' writable key later).0
            ≡ or_else found (get_runtime_meta is_worker' writable key places).0)
  unfolding put_runtime_meta delete_runtime_meta get_runtime_meta download
  get_runtime_meta-after is_worker is_worker' writable key m places =
      (ground arith, ground arith, ground arith)
