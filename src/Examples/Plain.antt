-- ===== src/Examples/Plain.antt =====
-- A server that is a function from keys to lists.
use lithops.Base.{
  ℕ, ◌≡◌, ◌≢◌, refl, not, is_none, position, List, [], ◌∷◌, ◌++◌, length, ◌==◌, if◌then◌else◌,
  arith,
}
use lithops.Redis.{
  Redis, IsRedis, first, rest, last, front, at_index, with_index, range_of, remove_first,
}

abbrev pub Lists : Type 0
Lists = ℕ → List ℕ

abbrev pub put : ℕ → List ℕ → Lists → Lists
put k xs s = λ j. if j == k then xs else s j

abbrev pub plain : Redis Lists
plain = record {
  llen = λ k s. length (s k);
  lpush = λ k x s. put k (x ∷ s k) s;
  rpush = λ k x s. put k (s k ++ x ∷ []) s;
  rpush_all = λ k xs s. put k (s k ++ xs) s;
  lpop = λ k s. (first (s k), put k (rest (s k)) s);
  rpop = λ k s. (last (s k), put k (front (s k)) s);
  lindex = λ k i s. at_index (s k) i;
  lset = λ k i x s. (not (is_none (position (length (s k)) i)), put k (with_index (s k) i x) s);
  lrange = λ k a b s. range_of a b (s k);
  lrem = λ k x s. put k (remove_first x (s k)) s;
  delete = λ k s. put k [] s;
}

pub put_here : (k : ℕ) (xs : List ℕ) (s : Lists) → put k xs s k ≡ xs
put_here k xs s = ground arith

pub put_there : (j k : ℕ) (xs : List ℕ) (s : Lists) → j ≢ k → put k xs s j ≡ s j
put_there j k xs s ne = ground arith

unfoldable pub plain-IsRedis : IsRedis plain
plain-IsRedis = record {
  items = λ k s. s k;
  llen-items = λ k s. refl;
  lpush-items = λ k x s. put_here k (x ∷ s k) s;
  rpush-items = λ k x s. put_here k (s k ++ x ∷ []) s;
  rpush_other = λ j k x s. put_there j k (s k ++ x ∷ []) s;
  rpush_all-items = λ k xs s. put_here k (s k ++ xs) s;
  lpop-first = λ k s. refl;
  lpop-items = λ k s. put_here k (rest (s k)) s;
  lpop_other = λ j k s. put_there j k (rest (s k)) s;
  rpop-last = λ k s. refl;
  rpop-items = λ k s. put_here k (front (s k)) s;
  lindex-items = λ k i s. refl;
  lset-done = λ k i x s. refl;
  lset-items = λ k i x s. put_here k (with_index (s k) i x) s;
  lrange-items = λ k a b s. refl;
  lrem-items = λ k x s. put_here k (remove_first x (s k)) s;
  delete-items = λ k s. put_here k [] s;
  delete_other = λ j k s. put_there j k [] s;
}

abbrev pub no_lists : Lists
no_lists = λ k. []
