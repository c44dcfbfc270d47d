-- ===== src/Multiprocessing/References/Counts.antt =====
-- A resource lives as long as a reference to it.
use lithops.Base.{
  ℕ, zero, suc, ◌≡◌, refl, sym, ap, subst, ◌-◌, true, false, none, Option-cases, inl, inr, ltb,
  ◌==◌, if◌then◌else◌, pos, suc_ℤ, arith,
}
use lithops.Multiprocessing.References.Defs.{
  RemoteReference, Resource, number, refcount, incref, set_state, finalize, drop_ref, collect,
  World, created, RefStep, copied, dropped, RefReach, at_start, then_step,
}

-- More references than one are counted from 0, and none leaves nothing.
abbrev Counted : ℕ → Resource → Type 0
Counted zero r = (r.counter ≡ none) × (r.present ≡ false)
Counted (suc n) r = (number r.counter ≡ pos n) × (r.present ≡ true)

Counted-set_state :
    (ref : RemoteReference) (r : Resource) (n : ℕ)
    → ref.managed ≡ false
    → Counted (suc n) r
    → Counted (suc (suc n)) (set_state ref r)
unfolding set_state incref
Counted-set_state ref r n own (count, there) = rw own (ap suc_ℤ count, there)

Counted-drop_ref :
    (ref : RemoteReference) (r : Resource) (n : ℕ)
    → ref.managed ≡ false
    → Counted (suc n) r
    → Counted n (drop_ref ref r)
unfolding drop_ref finalize collect
Counted-drop_ref ref r zero own (count, there) = rw (own, count, drop_ref, finalize) (refl, refl)
Counted-drop_ref ref r (suc n) own (count, there) =
    rw (own, count, drop_ref, finalize) (refl, there)

Counted-RefStep :
    (ref : RemoteReference) {w u : World}
    → ref.managed ≡ false
    → Counted w.live w.resource
    → RefStep ref w u
    → Counted u.live u.resource
Counted-RefStep ref own h (copied w some_live) =
    let n = w.live - 1 in
    let one : w.live ≡ suc n = omega arith in
    let live = subst (λ m. Counted m w.resource) one h in
    let counted = Counted-set_state ref w.resource n own live in
    subst (λ m. Counted (suc m) (set_state ref w.resource)) (sym one) counted
Counted-RefStep ref own h (dropped w n one) =
    Counted-drop_ref ref w.resource n own (subst (λ m. Counted m w.resource) one h)

Counted-RefReach :
    (ref : RemoteReference) {w : World}
    → ref.managed ≡ false
    → RefReach ref created w
    → Counted w.live w.resource
unfolding created
Counted-RefReach ref own at_start = (refl, refl)
Counted-RefReach ref own (then_step r step) =
    Counted-RefStep ref own (Counted-RefReach ref own r) step

refcount-Counted :
    (n : ℕ) (r : Resource)
    → Counted n r
    → (r.present ≡ ltb 0 n) × (refcount r ≡ (if n == 0 then pos 1 else pos n))
unfolding refcount
refcount-Counted zero r (gone, left) = (left, rw (gone, refcount) refl)
refcount-Counted (suc n) r (count, there) =
    let some_live : ltb 0 (suc n) ≡ true = ground arith in
    let not_none : (suc n == 0) ≡ false = ground arith in
    rw (some_live, not_none)
      (
        there,
        elim (Option-cases r.counter) [
          | inl e ↦ rw (e, refcount) (ap suc_ℤ (rw e at count))
          | inr (c, e) ↦ rw (e, refcount) (ap suc_ℤ (rw e at count))
        ],
      )

-- Of a resource whose references are not managed, whatever the order in which they are copied to
-- other processes and end there, a copy being made while its original lives: its keys are on the
-- server exactly as long as a reference lives, and `refcount` is the number of those that live, and
-- 1 where none does.
pub refcount-live :
    (ref : RemoteReference) {w : World}
    → ref.managed ≡ false
    → RefReach ref created w
    → (w.resource.present ≡ ltb 0 w.live)
      × (refcount w.resource ≡ (if w.live == 0 then pos 1 else pos w.live))
refcount-live ref {w} own r = refcount-Counted w.live w.resource (Counted-RefReach ref own r)
