-- ===== src/Listing/Local/Probed.antt =====
-- The locks that listing takes and gives back, and which instances it lists.
use tools_acloud.Base.{
  ℕ, Bool, true, false, [], List, String, All, All-append, ◌∷◌, ◌++◌, ◌≡◌, ◌∙◌, ◌⊎◌, inl, inr, refl,
  if◌then◌else◌, not,
}
use tools_acloud.Errors.{Exc}
use tools_acloud.Exec.{Result, ok, err, and_then, ◌>>=◌, pure, resume, finally}
use tools_acloud.Listing.{Instance}
use tools_acloud.Listing.Local.{Probe, probe, list_one, get_local_cuttlefish_instances}
use tools_acloud.LocalCreate.{Locks, on_host, on_locks}
use tools_acloud.LocalCreate.Unlocked.{IsLocking, Quiet, Only, Told, Freed, after-Only, free}

module _ {L W : Type 0} (held marked : L → ℕ → Bool) (locks : Locks L)
    (laws : IsLocking held marked locks) (io : Probe W) where
  -- CvdStatus has said that the instance is active.
  abbrev pub IsUp : Instance → Type 0
  IsUp ins = (u : W) × (v : W) × (io.cvd_status ins u ≡ (ok true, v))

  abbrev pub UnlockRaised : Exc → L → Type 0
  UnlockRaised e l = (id : ℕ) × (k : L) × (locks.unlock id k ≡ (err e, l))

  abbrev pub Probed : Result (List Instance) × (L × W) → Type 0
  Probed (ok instances, (l, w)) = Quiet held marked l × All IsUp instances
  Probed (err e, (l, w)) = Quiet held marked l ⊎ UnlockRaised e l

  abbrev Up : Result (List Instance) × W → Type 0
  Up (ok instances, w) = All IsUp instances
  Up (err e, w) = Unit

  status-Up :
      (ins : Instance) (u : W) (x : Result Bool × W)
      → io.cvd_status ins u ≡ x
      → Up (and_then x (λ up. pure (if up then ins ∷ [] else [])))
  status-Up ins u (ok true, v) e = ((u, v, e), tt)
  status-Up ins u (ok false, v) e = tt
  status-Up ins u (err z, v) e = tt

  read-Up :
      (x : Result Instance × W)
      → Up (and_then x (λ ins. io.cvd_status ins >>= λ up. pure (if up then ins ∷ [] else [])))
  read-Up (ok ins, v) = status-Up ins v (io.cvd_status ins v) refl
  read-Up (err e, v) = tt

  there-Up :
      (cfg_path : String) (x : Result Bool × W)
      → Up (
          and_then x (λ there.
            if not there
            then pure []
            else (io.local_instance cfg_path >>= λ ins.
                io.cvd_status ins >>= λ up. pure (if up then ins ∷ [] else []))))
  there-Up cfg_path (ok true, v) = read-Up (io.local_instance cfg_path v)
  there-Up cfg_path (ok false, v) = tt
  there-Up cfg_path (err e, v) = tt

  probe-Up : (cfg_path : String) (w : W) → Up (probe locks io cfg_path w)
  unfolding probe
  probe-Up cfg_path w = there-Up cfg_path (io.is_file cfg_path w)

  unlocked :
      (id : ℕ) (l : L) (o : Only held marked id l) (x : Result (List Instance) × W)
      → Up x
      → (y : Result (Unit {0}) × L) → locks.unlock id l ≡ y
      → Freed held marked id l y
      → Probed (resume (y.0, (y.1, x.1)) x.0)
  unlocked id l o (ok is, w) up (ok _, k) e (f, _) =
      (λ j. free held marked id l k j (o j) (f j), up)
  unlocked id l o (err z, w) up (ok _, k) e (f, _) =
      inl (λ j. free held marked id l k j (o j) (f j))
  unlocked id l o (ok is, w) up (err z, k) e f = inr (id, l, e)
  unlocked id l o (err x, w) up (err z, k) e f = inr (id, l, e)

  list_one-Probed :
      (id : ℕ) (cfg_path : String) (l : L) (w : W)
      → Quiet held marked l
      → Probed (list_one locks io id cfg_path (l, w))
  unfolding list_one
  list_one-Probed id cfg_path l w q = by_lock (locks.lock id l) (laws.lock_tells id l)
    where
      by_lock :
          (x : Result Bool × L)
          → Told held marked id l x
          → Probed (
              and_then
                (x.0, (x.1, w))
                (λ got.
                  if not got
                  then pure []
                  else finally (on_host (probe locks io cfg_path)) (on_locks (locks.unlock id))))
      by_lock (ok true, k) s =
          unlocked id k (after-Only held marked id l k q s) (probe locks io cfg_path w)
            (probe-Up cfg_path w) (locks.unlock id k) refl (laws.unlock_frees id k)
      by_lock (ok false, k) s = ((λ j. s j ∙ q j), tt)
      by_lock (err e, k) s = inl (λ j. s j ∙ q j)

  joined :
      (first : List Instance)
      → All IsUp first
      → (y : Result (List Instance) × (L × W)) → Probed y
      → Probed (and_then y (λ rest. pure (first ++ rest)))
  joined first up (ok rest, (l, w)) (q, more) = (q, All-append IsUp first rest up more)
  joined first up (err e, (l, w)) p = p

  then_Probed :
      (pairs : List (ℕ × String)) (x : Result (List Instance) × (L × W))
      → Probed x
      → ((l : L) (w : W)
          → Quiet held marked l
          → Probed (get_local_cuttlefish_instances locks io pairs (l, w)))
      → Probed (
          and_then x (λ first.
            get_local_cuttlefish_instances locks io pairs >>= λ rest. pure (first ++ rest)))
  then_Probed pairs (ok first, (l, w)) (q, up) rest =
      joined first up (get_local_cuttlefish_instances locks io pairs (l, w)) (rest l w q)
  then_Probed pairs (err e, (l, w)) p rest = p

  -- Listing the local Cuttlefish instances holds no lock at its end, if none was held before, unless the
  -- exception that it ends with is one that Unlock itself raised; and it lists instances only for which
  -- CvdStatus has said that they are active.
  pub get_local_cuttlefish_instances-Probed :
      (pairs : List (ℕ × String)) (l : L) (w : W)
      → Quiet held marked l
      → Probed (get_local_cuttlefish_instances locks io pairs (l, w))
  unfolding get_local_cuttlefish_instances
  get_local_cuttlefish_instances-Probed [] l w q = (q, tt)
  get_local_cuttlefish_instances-Probed ((id, cfg_path) ∷ pairs) l w q =
      then_Probed pairs (list_one locks io id cfg_path (l, w)) (list_one-Probed id cfg_path l w q)
        (λ k v r. get_local_cuttlefish_instances-Probed pairs k v r)
