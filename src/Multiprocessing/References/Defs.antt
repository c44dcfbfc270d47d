-- ===== src/Multiprocessing/References/Defs.antt =====
-- RemoteReference of lithops/multiprocessing/util.py: the count of a resource's references, under a
-- key of its own, and the deletion of its keys. Expiry times are left out.
use lithops.Base.{
  ℕ, suc, ◌<◌, ◌≡◌, Bool, true, false, Option, none, some, if◌then◌else◌, ℤ, pos, negsuc, suc_ℤ,
  pred_ℤ,
}

-- A process's own object; a managed one is collected by its manager.
pub record RemoteReference : Type 0 where
  pub managed : Bool

-- What the server holds: the counter, `none` where its key is missing, and whether the keys that are
-- referenced are there.
pub record Resource : Type 0 where
  pub counter : Option ℤ
  pub present : Bool

-- incr and decr begin with 0.
abbrev pub number : Option ℤ → ℤ
number none = pos 0
number (some n) = n

unfoldable pub incref : RemoteReference → Resource → Resource
incref ref r = if ref.managed then r else record r { counter = some (suc_ℤ (number r.counter)) }

unfoldable pub decref : RemoteReference → Resource → Resource
decref ref r = if ref.managed then r else record r { counter = some (pred_ℤ (number r.counter)) }

unfoldable pub refcount : Resource → ℤ
refcount r = elim r.counter [ none ↦ pos 1 | some n ↦ suc_ℤ n ]

-- collect, and the `delete` of _finalize: the counter is among the referenced keys.
unfoldable pub collect : Resource → Resource
collect r = record { counter = none; present = false }

abbrev pub is_negative : ℤ → Bool
is_negative (pos n) = false
is_negative (negsuc n) = true

-- __setstate__: an unpickled reference counts itself.
unfoldable pub set_state : RemoteReference → Resource → Resource
unfolding incref
set_state ref r = incref ref r

-- The callback of an object that is not managed.
unfoldable pub finalize : Resource → Resource
unfolding collect
finalize r =
    let count = pred_ℤ (number r.counter) in
    if is_negative count then collect r else record r { counter = some count }

-- The end of an object's life; a managed one has no callback.
unfoldable pub drop_ref : RemoteReference → Resource → Resource
unfolding finalize
drop_ref ref r = if ref.managed then r else finalize r

-- A resource and how many references to it live; the first is its creator's.
pub record World : Type 0 where
  pub resource : Resource
  pub live : ℕ

unfoldable pub created : World
created = record { resource = record { counter = none; present = true }; live = 1 }

-- References are pickled where they live and unpickled elsewhere, and end, in any order.
pub data RefStep (ref : RemoteReference) : World → World → Type 0 where
  copied :
      (w : World)
      → 0 < w.live
      → RefStep ref w (record { resource = set_state ref w.resource; live = suc w.live })
  dropped :
      (w : World) (n : ℕ)
      → w.live ≡ suc n
      → RefStep ref w (record { resource = drop_ref ref w.resource; live = n })

pub data RefReach (ref : RemoteReference) (v : World) : World → Type 0 where
  at_start : RefReach ref v v
  then_step : {w u : World} → RefReach ref v w → RefStep ref w u → RefReach ref v u
