-- ===== src/Delete/Released.antt =====
-- The locks that deleting a local instance takes and gives back.
use tools_acloud.Report.Status
use tools_acloud.Base.{true, false, String, Bool, ◌≡◌, ◌⊎◌, refl, if◌then◌else◌, not, inl, inr, ◌∙◌}
use tools_acloud.Exec.{Result, resume, ok, Exec, err, and_then, finally}
use tools_acloud.Delete.{
  Effects, release, locked_by_another, delete_local_cuttlefish_instance,
  delete_local_goldfish_instance, delete_cuttlefish, delete_goldfish,
}
use tools_acloud.Report.Steps.{world, change, note_failure, method}
use tools_acloud.Listing.{Instance}
use tools_acloud.Report.{Report, add_error, set_status}
use tools_acloud.Errors.{Exc}

-- What the code relies on of the lock files: an Unlock that returns frees the lock, and a Lock that does
-- not succeed takes nothing. Unlock and SetInUse may raise, and nothing is said of the lock if they do.
-- `held` says whether this process holds the lock of a name.
abbrev pub Freed : {W : Type 0} → (W → String → Bool) → String → Result (Unit {0}) × W → Type 0
Freed held name (ok _, w) = held w name ≡ false
Freed held name (err e, w) = Unit

pub record IsLocking {W : Type 0} (io : Effects W) (held : W → String → Bool) : Type 0 where
  pub unlock_frees : (name : String) (w : W) → Freed held name (io.unlock name w)
  pub refused_takes_nothing :
      (name : String) (w : W)
      → ((io.lock name w).0 ≡ ok true) ⊎ (held (io.lock name w).1 name ≡ held w name)

-- Two steps on the report leave the world alone.
two_changes-world :
    {W : Type 0} (x : Result (Unit {0})) (r : Report) (w : W) (m : Exec Report (Unit {0}))
    → (and_then (x, (r, w)) (λ _. change m)).1.1 ≡ w
two_changes-world (ok _) r w m = refl
two_changes-world (err e) r w m = refl

note_failure-world :
    {W : Type 0} (message : String) (r : Report) (w : W) → (note_failure message (r, w)).1.1 ≡ w
unfolding note_failure method
note_failure-world message r w =
    two_changes-world (ok tt) (add_error message r) w (method (set_status Status.fail))

module _ {W : Type 0} (io : Effects W) (held : W → String → Bool) (i : Instance) where
  -- The exception is the one that SetInUse or Unlock raised, in the state that it left.
  abbrev pub ReleaseRaised : Exc → W → Type 0
  ReleaseRaised e w =
      (v : W) × ((io.set_in_use i.name false v ≡ (err e, w)) ⊎ (io.unlock i.name v ≡ (err e, w)))

  -- Without an exception the lock is not held; with one, neither, unless it is one of giving it back.
  abbrev pub Ended : Result (Unit {0}) × (Report × W) → Type 0
  Ended (ok _, (r, w)) = held w i.name ≡ false
  Ended (err e, (r, w)) = (held w i.name ≡ false) ⊎ ReleaseRaised e w

  free-Ended : (x : Result (Unit {0}) × (Report × W)) → held x.1.1 i.name ≡ false → Ended x
  free-Ended (ok _, (r, w)) h = h
  free-Ended (err e, (r, w)) h = inl h

  module _ (laws : IsLocking io held) where
    unlocked :
        (a : Result (Unit {0})) (r : Report) (v : W)
        → (x : Result (Unit {0}) × W) → io.unlock i.name v ≡ x
        → Freed held i.name x
        → Ended (resume (x.0, (r, x.1)) a)
    unlocked (ok _) r v (ok _, w) e h = h
    unlocked (err _) r v (ok _, w) e h = inl h
    unlocked a r v (err y, w) e h = inr (v, inr e)

    marked :
        (a : Result (Unit {0})) (r : Report) (w : W)
        → (x : Result (Unit {0}) × W) → io.set_in_use i.name false w ≡ x
        → Ended (resume (and_then (x.0, (r, x.1)) (λ _. world (io.unlock i.name))) a)
    marked a r w (ok _, v) e = unlocked a r v (io.unlock i.name v) refl (laws.unlock_frees i.name v)
    marked a r w (err y, v) e = inr (w, inl e)

    finally-Ended :
        (m : Exec (Report × W) (Unit {0})) (s : Report × W) → Ended (finally m (release io i) s)
    unfolding release
    finally-Ended m s =
        marked (m s).0 (m s).1.0 (m s).1.1 (io.set_in_use i.name false (m s).1.1) refl

    after_lock :
        (m : Exec (Report × W) (Unit {0})) (x : Result Bool × W) (r : Report)
        → (x.0 ≡ ok true) ⊎ (held x.1 i.name ≡ false)
        → Ended (
            and_then
              (x.0, (r, x.1))
              (λ got. if not got then locked_by_another io i else finally m (release io i)))
    unfolding locked_by_another
    after_lock m (ok true, w) r h = finally-Ended m (r, w)
    after_lock m (ok false, w) r (inl h) = absurd (cc)
    after_lock m (ok false, w) r (inr h) = free-Ended _ (rw (note_failure-world _ r w) h)
    after_lock m (err e, w) r (inl h) = absurd (cc)
    after_lock m (err e, w) r (inr h) = inl h

-- DeleteLocalCuttlefishInstance and DeleteLocalGoldfishInstance do not hold the lock of the instance
-- at their end, if this process did not hold it before: whether the lock was refused, the deletion
-- succeeded, or it raised any exception. The one way to keep it is that SetInUse or Unlock raises in the
-- `finally`, and then that exception is the one that leaves the function.
pub delete_local-frees :
    {W : Type 0} (io : Effects W) (held : W → String → Bool)
    → IsLocking io held
    → (i : Instance) (r : Report) (w : W) → held w i.name ≡ false
    → Ended io held i (delete_local_cuttlefish_instance io i (r, w))
      × Ended io held i (delete_local_goldfish_instance io i (r, w))
unfolding delete_local_cuttlefish_instance delete_local_goldfish_instance
delete_local-frees io held laws i r w h = (
  after_lock io held i laws (delete_cuttlefish io i) (io.lock i.name w) r
      (taken (laws.refused_takes_nothing i.name w)),
  after_lock io held i laws (delete_goldfish io i) (io.lock i.name w) r
      (taken (laws.refused_takes_nothing i.name w)),
)
  where
    taken :
        ((io.lock i.name w).0 ≡ ok true) ⊎ (held (io.lock i.name w).1 i.name ≡ held w i.name)
        → ((io.lock i.name w).0 ≡ ok true) ⊎ (held (io.lock i.name w).1 i.name ≡ false)
    taken (inl y) = inl y
    taken (inr n) = inr (n ∙ h)
