-- ===== src/Lock/Moves.antt =====
-- What each operation of a LocalInstanceLock does to the lock of the file: the abstract lock behind it.
use tools_acloud.Base.{
  true, false, none, some, ℕ, Option, if◌then◌else◌, ◌≡◌, ◌==◌, String, arith, ◌≢◌, ◌⊎◌, Bool-cases,
  ◌∙◌, refl, inl, ap, ==_iff, inr, Bool, sym, ltb, ◌&&◌, ◌||◌, not, str_eq,
}
use tools_acloud.Exec.{Result, Exec, ok, err, ◌>>=◌, and_then, pure}
use tools_acloud.Lock.{
  Os, unlock, State, call, assign, with_descriptor, ensure_parent, lock, flock, settle, after_flock,
  written, set_in_use, in_use_state, not_in_use_state, eacces, eagain, unlock_in_use,
  lock_if_not_in_use, lock_file_size,
}
use tools_acloud.Errors.{is_instance, function_timeout_error, os_error}

-- The owner that is left once a descriptor gives the lock up.
abbrev pub drop_owner : ℕ → Option ℕ → Option ℕ
drop_owner fd none = none
drop_owner fd (some x) = if x == fd then none else some x

module _ {W : Type 0} (owner : W → Option ℕ) where
  abbrev pub Keeps : {A : Type 0} → Exec W A → Type 0
  Keeps m = (w : W) → owner (m w).1 ≡ owner w

  -- What flock promises: the lock is exclusive, and a call that raises takes nothing.
  abbrev pub Takes : ℕ → W → Result (Unit {0}) × W → Type 0
  Takes fd w (ok _, v) = (owner v ≡ some fd) × ((owner w ≡ none) ⊎ (owner w ≡ some fd))
  Takes fd w (err e, v) = owner v ≡ owner w

  abbrev pub Frees : ℕ → W → Result (Unit {0}) × W → Type 0
  Frees fd w (ok _, v) = owner v ≡ drop_owner fd (owner w)
  Frees fd w (err e, v) = owner v ≡ owner w

  -- close gives up the descriptor's lock, and is taken not to raise.
  abbrev pub Closes : ℕ → W → Result (Unit {0}) × W → Type 0
  Closes fd w (ok _, v) = owner v ≡ drop_owner fd (owner w)
  Closes fd w (err e, v) = ⊥

  -- A descriptor that open gives is a new one: it has no lock.
  abbrev pub Opens : W → Result ℕ × W → Type 0
  Opens w (ok fd, v) = (owner v ≡ owner w) × (owner w ≢ some fd)
  Opens w (err e, v) = owner v ≡ owner w

  -- The documented behaviour of the file operations; `owner` is the descriptor that has the lock.
  pub record IsFlock (io : Os W) : Type 0 where
    pub parent_exists_keeps : Keeps io.parent_exists
    pub make_parent_keeps : Keeps io.make_parent
    pub seek_keeps : (fd : ℕ) → Keeps (io.seek_start fd)
    pub write_keeps : (fd : ℕ) (s : String) → Keeps (io.write fd s)
    pub read_keeps : (fd n : ℕ) → Keeps (io.read fd n)
    pub opens : (w : W) → Opens w (io.open_file w)
    pub flock_within_takes : (t fd : ℕ) (w : W) → Takes fd w (io.flock_within t fd w)
    pub flock_at_once_takes : (fd : ℕ) (w : W) → Takes fd w (io.flock_at_once fd w)
    pub flock_frees : (fd : ℕ) (w : W) → Frees fd w (io.flock_free fd w)
    pub closes : (fd : ℕ) (w : W) → Closes fd w (io.close fd w)

-- The three things that can happen to an object's descriptor and the owner of the lock.
abbrev pub Stay : Option ℕ → Option ℕ → Option ℕ → Option ℕ → Type 0
Stay d o d' o' = (d' ≡ d) × (o' ≡ o)

abbrev pub Take : Option ℕ → Option ℕ → Option ℕ → Option ℕ → Type 0
Take d o d' o' = (fd : ℕ) × (d ≡ none) × (o ≡ none) × (d' ≡ some fd) × (o' ≡ some fd)

abbrev pub Free : Option ℕ → Option ℕ → Option ℕ → Option ℕ → Type 0
Free d o d' o' = (fd : ℕ) × (d ≡ some fd) × (o ≡ some fd) × (d' ≡ none) × (o' ≡ none)

-- An object with a descriptor has the lock.
abbrev pub IsHonest : Option ℕ → Option ℕ → Type 0
IsHonest none o = Unit
IsHonest (some fd) o = o ≡ some fd

module _ {W : Type 0} (owner : W → Option ℕ) (io : Os W) (laws : IsFlock owner io)
    (file_path : String) where
  drop_own : (fd : ℕ) (o : Option ℕ) → o ≡ some fd → drop_owner fd o ≡ none
  drop_own fd o e = rw e (ground arith)

  drop_other : (fd : ℕ) (o : Option ℕ) → o ≢ some fd → drop_owner fd o ≡ o
  drop_other fd none ne = refl
  drop_other fd (some x) ne = elim (Bool-cases (x == fd)) [
    | inl y ↦ absurd (ne (ap some ((==_iff x fd).0 y)))
    | inr n ↦ rw n refl
  ]

  -- Unlock
  abbrev pub Unlocked : State W → Result (Unit {0}) × State W → Type 0
  Unlocked (d, w) (ok _, (d', v)) = Free d (owner w) d' (owner v)
  Unlocked (d, w) (err e, (d', v)) = Stay d (owner w) d' (owner v)

  closed :
      (fd : ℕ) (w : W) (o : owner w ≡ some fd) (x : Result (Unit {0}) × W)
      → owner x.1 ≡ none
      → (y : Result (Unit {0}) × W) → Closes owner fd x.1 y
      → Unlocked (some fd, w) ((call (λ _. y) >>= λ _. assign none) (some fd, w))
  closed fd w o x freed (ok _, v) h = (fd, refl, o, refl, h ∙ rw freed refl)
  closed fd w o x freed (err e, v) h = absurd h

  unlock_after :
      (fd : ℕ) (w : W) (o : owner w ≡ some fd) (x : Result (Unit {0}) × W)
      → Frees owner fd w x
      → Unlocked
          (some fd, w)
          ((call (λ _. and_then x (λ _. io.close fd)) >>= λ _. assign none) (some fd, w))
  unlock_after fd w o (ok _, v) h =
      closed fd w o (ok tt, v) (h ∙ drop_own fd (owner w) o) (io.close fd v) (laws.closes fd v)
  unlock_after fd w o (err e, v) h = (refl, h)

  pub unlock-Unlocked :
      (d : Option ℕ) (w : W) → IsHonest d (owner w) → Unlocked (d, w) (unlock io file_path (d, w))
  unfolding unlock with_descriptor
  unlock-Unlocked none w h = (refl, refl)
  unlock-Unlocked (some fd) w h = unlock_after fd w h (io.flock_free fd w) (laws.flock_frees fd w)

  -- SetInUse
  after-Keeps :
      {A B : Type 0} (x : Result A × W) (f : A → Exec W B)
      → ((a : A) → Keeps owner (f a))
      → owner (and_then x f).1 ≡ owner x.1
  after-Keeps (ok a, v) f k = k a v
  after-Keeps (err e, v) f k = refl

  then-Keeps :
      {A B : Type 0} (m : Exec W A) (f : A → Exec W B)
      → Keeps owner m
      → ((a : A) → Keeps owner (f a))
      → Keeps owner (m >>= f)
  then-Keeps m f h k w = after-Keeps (m w) f k ∙ h w

  written-state : (x : Result ℕ × State W) → (and_then x (written io file_path)).1 ≡ x.1
  unfolding written
  written-state (ok n, s) = elim (Bool-cases (n == 1)) [ inl y ↦ rw y refl | inr n' ↦ rw n' refl ]
  written-state (err e, s) = refl

  -- SetInUse leaves the lock alone.
  pub set_in_use-Stay :
      (in_use : Bool) (d : Option ℕ) (w : W)
      → let s = (set_in_use io file_path in_use (d, w)).1 in Stay d (owner w) s.0 (owner s.1)
  unfolding set_in_use with_descriptor
  set_in_use-Stay in_use none w = (refl, refl)
  set_in_use-Stay in_use (some fd) w =
      let m =
        io.seek_start fd >>= λ _. io.write fd (if in_use then in_use_state else not_in_use_state) in
      let e = written-state (call m (some fd, w)) in
      (
        ap (λ (s : State W). s.0) e,
        ap (λ (s : State W). owner s.1) e
            ∙ then-Keeps (io.seek_start fd)
                (λ _. io.write fd (if in_use then in_use_state else not_in_use_state))
                (laws.seek_keeps fd) (λ _. laws.write_keeps fd _) w,
      )

  -- Lock: True comes with the lock, and nothing else does.
  abbrev pub Locked : State W → Result Bool × State W → Type 0
  Locked (d, w) (ok true, (d', v)) = Take d (owner w) d' (owner v)
  Locked (d, w) (ok false, (d', v)) = Stay d (owner w) d' (owner v)
  Locked (d, w) (err e, (d', v)) = Stay d (owner w) d' (owner v)

  abbrev Flocked : ℕ → W → Result Bool × W → Type 0
  Flocked fd w (ok true, v) = (owner v ≡ some fd) × ((owner w ≡ none) ⊎ (owner w ≡ some fd))
  Flocked fd w (ok false, v) = owner v ≡ owner w
  Flocked fd w (err e, v) = owner v ≡ owner w

  after_flock-Flocked :
      (fd : ℕ) (w : W) (x : Result (Unit {0}) × W)
      → Takes owner fd w x
      → Flocked fd w (after_flock x)
  unfolding after_flock
  after_flock-Flocked fd w (ok _, v) h = h
  after_flock-Flocked fd w (err e, v) h = elim (Bool-cases (is_instance e function_timeout_error)) [
    | inl y ↦ rw y h
    | inr n ↦ elim (Bool-cases (is_instance e os_error && (e.code == eacces || e.code == eagain))) [
      | inl y ↦ rw n (rw y h)
      | inr n' ↦ rw n (rw n' h)
    ]
  ]

  flock-Flocked : (t fd : ℕ) (w : W) → Flocked fd w (flock io file_path t fd w)
  unfolding flock
  flock-Flocked t fd w = after_flock-Flocked fd w _ (by_timeout (ltb 0 t))
    where
      by_timeout :
          (b : Bool)
          → Takes owner fd w ((if b then io.flock_within t fd else io.flock_at_once fd) w)
      by_timeout true = laws.flock_within_takes t fd w
      by_timeout false = laws.flock_at_once_takes fd w

  -- Closing the new descriptor after an attempt that failed.
  given_up :
      (r : Result Bool) (fd : ℕ) (w u : W)
      → owner u ≡ owner w
      → owner w ≢ some fd
      → ((s : State W) → Stay none (owner w) s.0 (owner s.1) → Locked (none, w) (r, s))
      → (y : Result (Unit {0}) × W) → Closes owner fd u y
      → Locked
          (none, w)
          (and_then (and_then (y.0, (some fd, y.1)) (λ _. assign none)) (λ _ s. (r, s)))
  given_up r fd w u same new stays (ok _, v) h =
      stays (none, v) (refl, h ∙ ap (drop_owner fd) same ∙ drop_other fd (owner w) new)
  given_up r fd w u same new stays (err e, v) h = absurd h

  settle-Locked :
      (fd : ℕ) (w v : W)
      → owner v ≡ owner w
      → owner w ≢ some fd
      → (y : Result Bool × W) → Flocked fd v y
      → Locked (none, w) (settle io file_path fd y)
  unfolding settle
  settle-Locked fd w v same new (ok true, u) (own, inl free) =
      (fd, refl, sym same ∙ free, refl, own)
  settle-Locked fd w v same new (ok true, u) (own, inr taken) = absurd (new (sym same ∙ taken))
  settle-Locked fd w v same new (ok false, u) h =
      given_up (ok false) fd w u (h ∙ same) new (λ s st. st) (io.close fd u) (laws.closes fd u)
  settle-Locked fd w v same new (err e, u) h =
      given_up (err e) fd w u (h ∙ same) new (λ s st. st) (io.close fd u) (laws.closes fd u)

  ensure_parent-Keeps : Keeps owner (ensure_parent io file_path)
  unfolding ensure_parent
  ensure_parent-Keeps =
      then-Keeps io.parent_exists (λ there. if there then pure tt else io.make_parent)
        laws.parent_exists_keeps by_test
    where
      by_test : (b : Bool) → Keeps owner (if b then pure tt else io.make_parent)
      by_test true w = refl
      by_test false w = laws.make_parent_keeps w

  opened :
      (x : Result (Unit {0}) × W) (w : W)
      → owner x.1 ≡ owner w
      → Opens owner w (and_then x (λ _. io.open_file))
  opened (err e, v) w h = h
  opened (ok _, v) w h = from_there (io.open_file v) (laws.opens v)
    where
      from_there : (y : Result ℕ × W) → Opens owner v y → Opens owner w y
      from_there (ok fd, u) (a, b) = (a ∙ h, λ own. b (h ∙ own))
      from_there (err e, u) a = a ∙ h

  lock_after :
      (t : ℕ) (w : W) (x : Result ℕ × W)
      → Opens owner w x
      → Locked
          (none, w)
          (and_then
            (x.0, (none, x.1))
            (λ fd (_, v). settle io file_path fd (flock io file_path t fd v)))
  lock_after t w (err e, v) h = (refl, h)
  lock_after t w (ok fd, v) h =
      settle-Locked fd w v h.0 h.1 (flock io file_path t fd v) (flock-Flocked t fd v)

  pub lock-Locked : (t : ℕ) (d : Option ℕ) (w : W) → Locked (d, w) (lock io file_path t (d, w))
  unfolding lock
  lock-Locked t (some fd) w = (refl, refl)
  lock-Locked t none w =
      lock_after t w _ (opened (ensure_parent io file_path w) w (ensure_parent-Keeps w))

  -- LockIfNotInUse: True comes with the lock and False without it; an exception may leave the object
  -- with the lock, where the file could not be read and Unlock raised.
  abbrev pub LockedUnused : State W → Result Bool × State W → Type 0
  LockedUnused (d, w) (ok true, (d', v)) = Take d (owner w) d' (owner v)
  LockedUnused (d, w) (ok false, (d', v)) = Stay d (owner w) d' (owner v)
  LockedUnused (d, w) (err e, (d', v)) =
      Stay d (owner w) d' (owner v) ⊎ Take d (owner w) d' (owner v)

  -- Unlock after Take.
  back :
      (r : Result Bool) (d : Option ℕ) (w : W) (fd : ℕ) (v : W)
      → d ≡ none
      → owner w ≡ none
      → owner v ≡ some fd
      → ((s : State W) → Stay d (owner w) s.0 (owner s.1) → LockedUnused (d, w) (r, s))
      → (x : Result (Unit {0}) × State W) → Unlocked (some fd, v) x
      → LockedUnused (d, w) (and_then x (λ _ s. (r, s)))
  back r d w fd v empty free own stays (ok _, (d', u)) (fd', a, b, c, e) =
      stays (d', u) (c ∙ sym empty, e ∙ sym free)
  back r d w fd v empty free own stays (err e, (d', u)) (a, b) = inr (fd, empty, free, a, b ∙ own)

  read_after :
      (d : Option ℕ) (w : W) (fd : ℕ) (v : W)
      → d ≡ none
      → owner w ≡ none
      → owner v ≡ some fd
      → (y : Result String) → LockedUnused (d, w) (unlock_in_use io file_path (y, (some fd, v)))
  unfolding unlock_in_use
  read_after d w fd v empty free own (err e) =
      back (err e) d w fd v empty free own (λ s st. inl st) _ (unlock-Unlocked (some fd) v own)
  read_after d w fd v empty free own (ok content) =
      elim (Bool-cases (str_eq content in_use_state)) [
        | inl y ↦ rw y (
            back (ok false) d w fd v empty free own (λ s st. st) _
              (unlock-Unlocked (some fd) v own))
        | inr n ↦ rw n (fd, empty, free, refl, own)
      ]

  after_lock-LockedUnused :
      (d : Option ℕ) (w : W) (x : Result Bool × State W)
      → Locked (d, w) x
      → LockedUnused
          (d, w)
          (and_then x (λ locked s.
            if not locked
            then (ok false, s)
            else unlock_in_use io file_path
                (with_descriptor io file_path (λ fd. call (io.read fd lock_file_size)) s)))
  unfolding with_descriptor
  after_lock-LockedUnused d w (err e, (d', v)) h = inl h
  after_lock-LockedUnused d w (ok false, (d', v)) h = h
  after_lock-LockedUnused d w (ok true, (none, v)) (fd, empty, free, e, own) = absurd (cc)
  after_lock-LockedUnused d w (ok true, (some x, v)) (fd, empty, free, e, own) =
      read_after d w x (io.read x lock_file_size v).1 empty free
        (laws.read_keeps x lock_file_size v ∙ own ∙ sym e) (io.read x lock_file_size v).0

  pub lock_if_not_in_use-LockedUnused :
      (t : ℕ) (d : Option ℕ) (w : W)
      → LockedUnused (d, w) (lock_if_not_in_use io file_path t (d, w))
  unfolding lock_if_not_in_use
  lock_if_not_in_use-LockedUnused t d w =
      after_lock-LockedUnused d w (lock io file_path t (d, w)) (lock-Locked t d w)
