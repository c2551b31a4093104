-- ===== src/LocalCreate/Unlocked.antt =====
-- The locks that creating a local instance takes and gives back, and the ids that it marks as in use.
use tools_acloud.Base.{
  ℕ, zero, suc, Bool, true, false, none, some, Option, String, ◌==◌, ◌≡◌, ◌∙◌, refl, ◌⊎◌, inl, inr,
  if◌then◌else◌, not, sym, ap,
}
use tools_acloud.Exec.{Result, ok, err, and_then, ◌>>=◌, pure, raise, resume, user_exit}
use tools_acloud.LocalCreate.{
  Host, Locks, Spec, select_id, determine_id, lock_id, create_locked, on_host, on_locks,
  max_instance_id, check_running_cvd, create_instance, create_or_report, create_avd, error_report,
  fail_report, no_id_message,
}
use tools_acloud.Report.{Report, set_status, add_error, given}
use tools_acloud.Report.Status
use tools_acloud.Errors.{Exc}
use tools_acloud.Base.Dict.{lookup}

module _ {L : Type 0} (held marked : L → ℕ → Bool) where
  abbrev pub Same : L → L → Type 0
  Same l k = (j : ℕ) → held k j ≡ held l j

  -- Nothing but the lock of the id may have been taken.
  abbrev pub SameBut : ℕ → L → L → Type 0
  SameBut id l k = (j : ℕ) → ((id == j) ≡ true) ⊎ (held k j ≡ held l j)

  abbrev pub Told : ℕ → L → Result Bool × L → Type 0
  Told id l (ok true, k) = SameBut id l k
  Told id l (ok false, k) = Same l k
  Told id l (err e, k) = Same l k

  -- As Told, but that nothing is said of LockIfNotInUse where it raises.
  abbrev pub ToldUnused : ℕ → L → Result Bool × L → Type 0
  ToldUnused id l (ok true, k) = SameBut id l k
  ToldUnused id l (ok false, k) = Same l k
  ToldUnused id l (err e, k) = Unit

  -- An Unlock that returns frees the lock of the id, and leaves the marks.
  abbrev pub Freed : ℕ → L → Result (Unit {0}) × L → Type 0
  Freed id l (ok _, k) =
      ((j : ℕ) → (held k j ≡ false) ⊎ (((id == j) ≡ false) × (held k j ≡ held l j)))
      × ((j : ℕ) → marked k j ≡ marked l j)
  Freed id l (err e, k) = Unit

  abbrev pub Marked : ℕ → Bool → L → Result (Unit {0}) × L → Type 0
  Marked id b l (ok _, k) = Same l k × (marked k id ≡ b)
  Marked id b l (err e, k) = Same l k

  -- What creating relies on of the locks: `held` says whether this process holds the lock of an id, and
  -- `marked` whether the lock file says that the id is in use.
  pub record IsLocking (locks : Locks L) : Type 0 where
    pub lock_tells : (id : ℕ) (l : L) → Told id l (locks.lock id l)
    pub lock_if_not_in_use_tells :
        (id t : ℕ) (l : L) → ToldUnused id l (locks.lock_if_not_in_use id t l)
    pub unlock_frees : (id : ℕ) (l : L) → Freed id l (locks.unlock id l)
    pub set_in_use_marks : (id : ℕ) (b : Bool) (l : L) → Marked id b l (locks.set_in_use id b l)

  -- No lock is held; none but that of the id.
  abbrev pub Quiet : L → Type 0
  Quiet l = (j : ℕ) → held l j ≡ false

  abbrev pub Only : ℕ → L → Type 0
  Only id l = (j : ℕ) → ((id == j) ≡ true) ⊎ (held l j ≡ false)

  pub after-Only : (id : ℕ) (l k : L) → Quiet l → SameBut id l k → Only id k
  after-Only id l k q s j = either (s j)
    where
      either : ((id == j) ≡ true) ⊎ (held k j ≡ held l j) → ((id == j) ≡ true) ⊎ (held k j ≡ false)
      either (inl y) = inl y
      either (inr e) = inr (e ∙ q j)

  Only-Same : (id : ℕ) (l k : L) → Only id l → Same l k → Only id k
  Only-Same id l k o s j = either (o j)
    where
      either : ((id == j) ≡ true) ⊎ (held l j ≡ false) → ((id == j) ≡ true) ⊎ (held k j ≡ false)
      either (inl y) = inl y
      either (inr e) = inr (s j ∙ e)

  pub free :
      (id : ℕ) (l k : L) (j : ℕ)
      → ((id == j) ≡ true) ⊎ (held l j ≡ false)
      → (held k j ≡ false) ⊎ (((id == j) ≡ false) × (held k j ≡ held l j))
      → held k j ≡ false
  free id l k j p (inl h) = h
  free id l k j (inr h) (inr (n, s)) = s ∙ h
  free id l k j (inl y) (inr (n, s)) = absurd (let p : true ≡ false = sym y ∙ n in cc)

  module _ (locks : Locks L) (laws : IsLocking locks) where
    -- The exception is one of Unlock or of LockIfNotInUse, which ended in this state.
    abbrev pub LockRaised : Exc → L → Type 0
    LockRaised e l =
        (id : ℕ) × (k : L) × ((locks.unlock id k ≡ (err e, l))
          ⊎ (locks.lock_if_not_in_use id 0 k ≡ (err e, l)))

    abbrev Picked : Result (Option ℕ) × L → Type 0
    Picked (ok none, k) = Quiet k
    Picked (ok (some id), k) = Only id k
    Picked (err e, k) = Quiet k ⊎ LockRaised e k

    tried :
        (n c : ℕ) (l : L)
        → Quiet l
        → (x : Result Bool × L) → locks.lock_if_not_in_use c 0 l ≡ x
        → ToldUnused c l x
        → ((k : L) → Quiet k → Picked (select_id locks n (suc c) k))
        → Picked (and_then x (λ got. if got then pure (some c) else select_id locks n (suc c)))
    tried n c l q (ok true, k) e told rest = after-Only c l k q told
    tried n c l q (ok false, k) e told rest = rest k (λ j. told j ∙ q j)
    tried n c l q (err x, k) e told rest = inr (c, l, inr e)

    select_id-Picked : (n c : ℕ) (l : L) → Quiet l → Picked (select_id locks n c l)
    unfolding select_id
    select_id-Picked zero c l q = q
    select_id-Picked (suc n) c l q =
        tried n c l q (locks.lock_if_not_in_use c 0 l) refl (laws.lock_if_not_in_use_tells c 0 l)
          (λ k q'. select_id-Picked n (suc c) k q')

    lock_id-Picked : (id : ℕ) (l : L) → Quiet l → Picked (lock_id locks id l)
    unfolding lock_id
    lock_id-Picked id l q = by_result (locks.lock id l) (laws.lock_tells id l)
      where
        by_result :
            (x : Result Bool × L)
            → Told id l x
            → Picked (and_then x (λ got. pure (if got then some id else none)))
        by_result (ok true, k) s = after-Only id l k q s
        by_result (ok false, k) s = λ j. s j ∙ q j
        by_result (err e, k) s = inl (λ j. s j ∙ q j)

    determine_id-Picked : (o : Option ℕ) (l : L) → Quiet l → Picked (determine_id locks o l)
    unfolding determine_id
    determine_id-Picked none l q = select_id-Picked max_instance_id 1 l q
    determine_id-Picked (some id) l q = lock_id-Picked id l q

    module _ {W : Type 0} (io : Host W) (temp_dir : String) (spec : Spec) where
      -- The report is what the launch of the instance of this id gave.
      abbrev pub LaunchGave : ℕ → Report → Type 0
      LaunchGave id r =
          (image : String) × (host : String) × (u : W) × (v : W) × (create_instance io temp_dir id
              image host spec u
            ≡ (ok r, v))

      -- This is the id that was determined.
      abbrev pub Determined : Option ℕ → Type 0
      Determined o =
          (k : L) × (k' : L) × (determine_id locks (given spec.local_instance_id) k ≡ (ok o, k'))

      -- Nothing can be launched: the platform is not supported, or there is no id.
      abbrev pub Unable : Type 0
      Unable = ((u : W) × (v : W) × (io.is_supported_platform u ≡ (ok false, v))) ⊎ Determined none

      -- The report says that nothing could be launched, or it is the one of the instance of the id that was
      -- determined, and that id is marked as in use.
      abbrev pub Ended : Result Report × (L × W) → Type 0
      Ended (ok r, (l, w)) =
          Quiet l
          × (((r.status ≡ Status.fail) × Unable)
              ⊎ ((id : ℕ) × Determined (some id) × LaunchGave id r × (marked l id ≡ true)))
      Ended (err e, (l, w)) = Quiet l ⊎ LockRaised e l

      -- The body of the `try`.
      abbrev Body : ℕ → Result Report × (L × W) → Type 0
      Body id (ok r, (l, w)) = Only id l × LaunchGave id r × (marked l id ≡ true)
      Body id (err e, (l, w)) = Only id l

      after_mark :
          (id : ℕ) (l : L) (w : W) (o : Only id l) (r : Result Report)
          → ((r' : Report) → r ≡ ok r' → LaunchGave id r')
          → (x : Result (Unit {0}) × L) → Marked id true l x
          → Body id (and_then (x.0, (x.1, w)) (λ _ s. (r, s)))
      after_mark id l w o (ok r) gave (ok _, k) (s, m) = (Only-Same id l k o s, gave r refl, m)
      after_mark id l w o (err e) gave (ok _, k) (s, m) = Only-Same id l k o s
      after_mark id l w o r gave (err e, k) s = Only-Same id l k o s

      created :
          (id : ℕ) (l : L) (o : Only id l) (image host : String) (u : W) (x : Result Report × W)
          → create_instance io temp_dir id image host spec u ≡ x
          → Body id
              (and_then (x.0, (l, x.1)) (λ r. on_locks (locks.set_in_use id true) >>= λ _. pure r))
      created id l o image host u (ok r, w) e =
          after_mark id l w o (ok r) (λ r' same. (image, host, u, w, e ∙ ap (λ z. (z, w)) same)) _
            (laws.set_in_use_marks id true l)
      created id l o image host u (err e, w) h = o

      checked :
          (id : ℕ) (no_prompts : Bool) (image host : String) (l : L) (o : Only id l)
          → (w : W) → Body id (create_locked locks io temp_dir id no_prompts spec image host (l, w))
      unfolding create_locked
      checked id no_prompts image host l o w =
          by_result (check_running_cvd io temp_dir id no_prompts w)
        where
          by_result :
              (x : Result Bool × W)
              → Body id (
                  and_then
                    (x.0, (l, x.1))
                    (λ go_on.
                      if not go_on
                      then (on_locks (locks.set_in_use id true) >>= λ _. raise user_exit)
                      else (on_host (create_instance io temp_dir id image host spec) >>= λ r.
                          on_locks (locks.set_in_use id true) >>= λ _. pure r)))
          by_result (ok true, v) =
              created id l o image host v (create_instance io temp_dir id image host spec v) refl
          by_result (ok false, v) =
              after_mark id l v o (err user_exit) (λ r' h. absurd (cc)) _
                (laws.set_in_use_marks id true l)
          by_result (err e, v) = o

      unlocked :
          (id : ℕ) (r : Result Report) (l : L) (w : W)
          → Determined (some id)
          → Body id (r, (l, w))
          → (y : Result (Unit {0}) × L) → locks.unlock id l ≡ y
          → Freed id l y
          → Ended (resume (y.0, (y.1, w)) r)
      unlocked id (ok r) l w t (o, gave, m) (ok _, k) e (f, g) =
          (λ j. free id l k j (o j) (f j), inr (id, t, gave, g id ∙ m))
      unlocked id (err x) l w t o (ok _, k) e (f, g) = inl (λ j. free id l k j (o j) (f j))
      unlocked id (ok r) l w t b (err x, k) e f = inr (id, l, inl e)
      unlocked id (err z) l w t o (err x, k) e f = inr (id, l, inl e)

      create_or_report-Ended :
          (no_prompts : Bool) (image host message : String) (k : L) (x : Result (Option ℕ) × L)
          (w : W)
          → determine_id locks (given spec.local_instance_id) k ≡ x
          → Picked x
          → Ended (
              and_then
                (x.0, (x.1, w))
                (create_or_report locks io temp_dir no_prompts spec image host message))
      unfolding create_or_report error_report set_status lookup add_error
      create_or_report-Ended no_prompts image host message k (ok none, l) w e q =
          (q, inl (refl, inr (k, l, e)))
      create_or_report-Ended no_prompts image host message k (ok (some id), l) w e o =
          let x = create_locked locks io temp_dir id no_prompts spec image host (l, w) in
          unlocked id x.0 x.1.0 x.1.1 (k, l, e) (checked id no_prompts image host l o w)
            (locks.unlock id x.1.0) refl (laws.unlock_frees id x.1.0)
      create_or_report-Ended no_prompts image host message k (err e, l) w h p = p

      -- _CreateAVD holds no lock once it has ended, if it held none before, unless the exception that it
      -- ends with is one that Unlock or LockIfNotInUse itself raised; and a report that it returns either
      -- says that it failed, where the platform is not supported or no id could be determined, or it is what
      -- _CreateInstance gave for the id that was determined, and then that id is marked as in use.
      pub create_avd-unlocked :
          (no_prompts : Bool) (l : L) (w : W)
          → Quiet l
          → Ended (create_avd locks io temp_dir spec no_prompts (l, w))
      unfolding create_avd fail_report set_status lookup
      create_avd-unlocked no_prompts l w q = supported (io.is_supported_platform w) refl
        where
          located :
              (y : Result (String × String) × W)
              → Ended (
                  and_then
                    (y.0, (l, y.1))
                    (λ (image, host).
                      on_locks (determine_id locks (given spec.local_instance_id))
                      >>= create_or_report locks io temp_dir no_prompts spec image host
                          (no_id_message locks io temp_dir (given spec.local_instance_id))))
          located (ok (image, host), v) =
              create_or_report-Ended no_prompts image host _ l _ v refl
                (determine_id-Picked (given spec.local_instance_id) l q)
          located (err e, v) = inl q

          supported :
              (x : Result Bool × W)
              → io.is_supported_platform w ≡ x
              → Ended (
                  and_then
                    (x.0, (l, x.1))
                    (λ supported.
                      if not supported
                      then fail_report locks io temp_dir
                      else (on_host (io.get_image_artifacts_path spec) >>= λ (image, host).
                          on_locks (determine_id locks (given spec.local_instance_id))
                          >>= create_or_report locks io temp_dir no_prompts spec image host
                              (no_id_message locks io temp_dir (given spec.local_instance_id)))))
          supported (ok true, v) h = located (io.get_image_artifacts_path spec v)
          supported (ok false, v) h = (q, inl (refl, inl (w, v, h)))
          supported (err e, v) h = inl q
