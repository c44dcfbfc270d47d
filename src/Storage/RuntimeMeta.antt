-- ===== src/Storage/RuntimeMeta.antt =====
-- The metadata of runtimes: `get_runtime_meta`, `put_runtime_meta` and `delete_runtime_meta` of
-- InternalStorage in lithops/storage/storage.py. A runtime's key is a number, which stands for its
-- name in the memory, on the disk and in the storage; what JSON makes of the metadata is left out.
use lithops.Base.{ℕ, Bool, Option, none, some, ◌==◌, if◌then◌else◌}

-- RUNTIME_META_CACHE, the files in CACHE_DIR, and the objects of the storage.
pub record Places (M : Type 0) : Type 0 where
  pub memory : ℕ → Option M
  pub disk : ℕ → Option M
  pub stored : ℕ → Option M

module _ {M : Type 0} where
  abbrev pub set : ℕ → Option M → (ℕ → Option M) → ℕ → Option M
  set key m place = λ k. if k == key then m else place k

  -- The metadata from the storage, kept in the memory and, if the disk can be written, there.
  unfoldable pub download : (writable : Bool) → ℕ → Places M → Option M × Places M
  download writable key places = elim (places.stored key) [
    | none ↦ (none, places)
    | some m ↦
        let disk = if writable then set key (some m) places.disk else places.disk in
        (some m, record places { memory = set key (some m) places.memory; disk = disk })
  ]

  unfoldable pub get_runtime_meta : (is_worker writable : Bool) → ℕ → Places M → Option M × Places M
  unfolding download
  get_runtime_meta is_worker writable key places = elim (places.memory key) [
    | some m ↦ (some m, places)
    | none ↦ elim (if is_worker then none else places.disk key) [
      | some m ↦ (some m, record places { memory = set key (some m) places.memory })
      | none ↦ download writable key places
    ]
  ]

  unfoldable pub put_runtime_meta : (is_worker : Bool) → ℕ → M → Places M → Places M
  put_runtime_meta is_worker key m places = record places {
    stored = set key (some m) places.stored;
    disk = if is_worker then places.disk else set key (some m) places.disk;
  }

  unfoldable pub delete_runtime_meta : ℕ → Places M → Places M
  delete_runtime_meta key places = record places {
    disk = set key none places.disk;
    stored = set key none places.stored;
  }
