-- ===== src/LocalCreate/LockFiles.antt =====
-- The LocalInstanceLock objects of the instance ids, each on its own file, as the locks that creating and
-- listing take.
use tools_acloud.Base.{
  ℕ, Bool, true, false, none, some, Option, String, is_some, str_eq, ◌==◌, ◌≡◌, ◌∙◌, ◌⊎◌, inl, inr,
  refl, ap, sym, if◌then◌else◌, Bool-cases, ==_iff,
}
use tools_acloud.Exec.{Result, ok, err, Exec, and_then, ◌>>=◌}
use tools_acloud.LocalCreate.{Locks}
use tools_acloud.LocalCreate.Unlocked.{IsLocking, Told, ToldUnused, Freed, Marked}
use tools_acloud.Lock
use tools_acloud.Lock.{Os, State, with_descriptor, call, assign, written}
use tools_acloud.Lock.Moves.{
  IsFlock, Locked, LockedUnused, lock-Locked, lock_if_not_in_use-LockedUnused,
}
use tools_acloud.Lock.System.{update}

module _ {W : Type 0} (os_of : ℕ → Os W) (path_of : ℕ → String) where
  -- The descriptor of each id's object, and the world.
  abbrev pub Objects : Type 0
  Objects = (ℕ → Option ℕ) × W

  -- A method of the object of an id.
  abbrev pub on_object : {A : Type 0} → ℕ → Exec (State W) A → Exec Objects A
  on_object id m (f, w) = let (r, s) = m (f id, w) in (r, (update f id s.0, s.1))

  -- Lock() waits five seconds.
  abbrev pub lock_files : Locks Objects
  lock_files = record {
    lock = λ id. on_object id (Lock.lock (os_of id) (path_of id) Lock.default_timeout_secs);
    lock_if_not_in_use = λ id t. on_object id (Lock.lock_if_not_in_use (os_of id) (path_of id) t);
    set_in_use = λ id b. on_object id (Lock.set_in_use (os_of id) (path_of id) b);
    unlock = λ id. on_object id (Lock.unlock (os_of id) (path_of id));
  }

  abbrev pub held_by : Objects → ℕ → Bool
  held_by l id = is_some (l.0 id)

  module _ (in_use : ℕ → W → Bool) where
    abbrev pub marked_in : Objects → ℕ → Bool
    marked_in l id = in_use id l.1

    -- A write that returns has written the one character, or says that it has not.
    abbrev pub Writes : ℕ → String → Result ℕ × W → Type 0
    Writes id s (ok n, v) =
        (in_use id v ≡ str_eq s Lock.in_use_state) ⊎ ((n == Lock.lock_file_size) ≡ false)
    Writes id s (err e, v) = Unit

    abbrev pub Sought : (ℕ → ℕ → W → Bool) → ℕ → ℕ → Result (Unit {0}) × W → Type 0
    Sought at_start id fd (ok _, v) = at_start id fd v ≡ true
    Sought at_start id fd (err e, v) = Unit

    -- What a lock file says is its first character. `at_start` tells whether a descriptor's offset is 0, as
    -- it is after a seek to the start that returns; a write goes where the offset is, and nothing is said
    -- of one elsewhere. Freeing and closing leave all files alone.
    pub record IsMarking (at_start : ℕ → ℕ → W → Bool) : Type 0 where
      pub seeks : (id fd : ℕ) (w : W) → Sought at_start id fd ((os_of id).seek_start fd w)
      pub writes :
          (id fd : ℕ) (s : String) (w : W)
          → at_start id fd w ≡ true
          → Writes id s ((os_of id).write fd s w)
      pub flock_free_keeps :
          (id fd j : ℕ) (w : W) → in_use j ((os_of id).flock_free fd w).1 ≡ in_use j w
      pub close_keeps : (id fd j : ℕ) (w : W) → in_use j ((os_of id).close fd w).1 ≡ in_use j w

  held_same :
      (f : ℕ → Option ℕ) (id : ℕ) (d : Option ℕ)
      → d ≡ f id
      → (j : ℕ) → is_some (update f id d j) ≡ is_some (f j)
  held_same f id d e j = elim (Bool-cases (id == j)) [
    | inl y ↦ rw y (ap is_some (e ∙ ap f ((==_iff id j).0 y)))
    | inr n ↦ rw n refl
  ]

  held_but :
      (f : ℕ → Option ℕ) (id : ℕ) (d : Option ℕ) (j : ℕ)
      → ((id == j) ≡ true) ⊎ (is_some (update f id d j) ≡ is_some (f j))
  held_but f id d j = elim (Bool-cases (id == j)) [ inl y ↦ inl y | inr n ↦ inr (rw n refl) ]

  held_freed :
      (f : ℕ → Option ℕ) (id j : ℕ)
      → (is_some (update f id none j) ≡ false)
        ⊎ (((id == j) ≡ false) × (is_some (update f id none j) ≡ is_some (f j)))
  held_freed f id j = elim (Bool-cases (id == j)) [
    | inl y ↦ inl (rw y refl)
    | inr n ↦ inr (n, rw n refl)
  ]

  module _ (owner : ℕ → W → Option ℕ) (laws : (id : ℕ) → IsFlock (owner id) (os_of id))
      (in_use : ℕ → W → Bool) (at_start : ℕ → ℕ → W → Bool)
      (marking : IsMarking in_use at_start) where
    lock-Told : (id : ℕ) (l : Objects) → Told held_by (marked_in in_use) id l (lock_files.lock id l)
    lock-Told id (f, w) =
        by_result (Lock.lock (os_of id) (path_of id) Lock.default_timeout_secs (f id, w)) (
          lock-Locked (owner id) (os_of id) (laws id) (path_of id) Lock.default_timeout_secs (f id)
            w)
      where
        by_result :
            (x : Result Bool × State W)
            → Locked (owner id) (os_of id) (laws id) (path_of id) (f id, w) x
            → Told held_by (marked_in in_use) id (f, w) (x.0, (update f id x.1.0, x.1.1))
        by_result (ok true, (d, v)) h = held_but f id d
        by_result (ok false, (d, v)) h = held_same f id d h.0
        by_result (err e, (d, v)) h = held_same f id d h.0

    lock_unused-Told :
        (id t : ℕ) (l : Objects)
        → ToldUnused held_by (marked_in in_use) id l (lock_files.lock_if_not_in_use id t l)
    lock_unused-Told id t (f, w) =
        by_result (Lock.lock_if_not_in_use (os_of id) (path_of id) t (f id, w))
          (lock_if_not_in_use-LockedUnused (owner id) (os_of id) (laws id) (path_of id) t (f id) w)
      where
        by_result :
            (x : Result Bool × State W)
            → LockedUnused (owner id) (os_of id) (laws id) (path_of id) (f id, w) x
            → ToldUnused held_by (marked_in in_use) id (f, w) (x.0, (update f id x.1.0, x.1.1))
        by_result (ok true, (d, v)) h = held_but f id d
        by_result (ok false, (d, v)) h = held_same f id d h.0
        by_result (err e, (d, v)) h = tt

    close-Freed :
        (f : ℕ → Option ℕ) (id fd : ℕ) (w : W) (v : W)
        → ((j : ℕ) → in_use j v ≡ in_use j w)
        → (y : Result (Unit {0}) × W) → ((j : ℕ) → in_use j y.1 ≡ in_use j v)
        → Freed held_by
            (marked_in in_use)
            id
            (f, w)
            (let z = and_then (y.0, (some fd, y.1)) (λ _. assign none) in
              (z.0, (update f id z.1.0, z.1.1)))
    close-Freed f id fd w v k (ok _, u) c = (held_freed f id, λ j. c j ∙ k j)
    close-Freed f id fd w v k (err e, u) c = tt

    free-Freed :
        (f : ℕ → Option ℕ) (id fd : ℕ) (w : W) (x : Result (Unit {0}) × W)
        → ((j : ℕ) → in_use j x.1 ≡ in_use j w)
        → Freed held_by
            (marked_in in_use)
            id
            (f, w)
            (let z =
                (call (λ _. and_then x (λ _. (os_of id).close fd)) >>= λ _. assign none)
                  (some fd, w) in
              (z.0, (update f id z.1.0, z.1.1)))
    free-Freed f id fd w (ok _, v) k =
        close-Freed f id fd w v k ((os_of id).close fd v) (λ j. marking.close_keeps id fd j v)
    free-Freed f id fd w (err e, v) k = tt

    unlock-Freed :
        (f : ℕ → Option ℕ) (id : ℕ) (w : W) (d : Option ℕ)
        → Freed held_by
            (marked_in in_use)
            id
            (f, w)
            (let z = Lock.unlock (os_of id) (path_of id) (d, w) in
              (z.0, (update f id z.1.0, z.1.1)))
    unfolding Lock.unlock with_descriptor
    unlock-Freed f id w none = tt
    unlock-Freed f id w (some fd) =
        free-Freed f id fd w ((os_of id).flock_free fd w) (λ j. marking.flock_free_keeps id fd j w)

    abbrev state_text : Bool → String
    state_text b = if b then Lock.in_use_state else Lock.not_in_use_state

    state_text-read : (b : Bool) → str_eq (state_text b) Lock.in_use_state ≡ b
    state_text-read true = refl
    state_text-read false = refl

    written-Marked :
        (f : ℕ → Option ℕ) (id fd : ℕ) (b : Bool) (w : W)
        → some fd ≡ f id
        → (y : Result ℕ × W) → Writes in_use id (state_text b) y
        → Marked held_by
            (marked_in in_use)
            id
            b
            (f, w)
            (let z = and_then (y.0, (some fd, y.1)) (written (os_of id) (path_of id)) in
              (z.0, (update f id z.1.0, z.1.1)))
    unfolding written
    written-Marked f id fd b w e (err x, v) h = held_same f id (some fd) e
    written-Marked f id fd b w e (ok n, v) h = elim (Bool-cases (n == Lock.lock_file_size)) [
      | inl y ↦ rw y (held_same f id (some fd) e, says y h)
      | inr m ↦ rw m (held_same f id (some fd) e)
    ]
      where
        says :
            (n == Lock.lock_file_size) ≡ true
            → (in_use id v ≡ str_eq (state_text b) Lock.in_use_state)
              ⊎ ((n == Lock.lock_file_size) ≡ false)
            → in_use id v ≡ b
        says y (inl g) = g ∙ state_text-read b
        says y (inr m) = absurd (let p : true ≡ false = sym y ∙ m in cc)

    seek-Marked :
        (f : ℕ → Option ℕ) (id fd : ℕ) (b : Bool) (w : W)
        → some fd ≡ f id
        → (x : Result (Unit {0}) × W) → Sought in_use at_start id fd x
        → Marked held_by
            (marked_in in_use)
            id
            b
            (f, w)
            (let z =
                (call (λ _. and_then x (λ _. (os_of id).write fd (state_text b)))
                    >>= written (os_of id) (path_of id))
                  (some fd, w) in
              (z.0, (update f id z.1.0, z.1.1)))
    seek-Marked f id fd b w e (ok _, v) start =
        written-Marked f id fd b w e ((os_of id).write fd (state_text b) v)
          (marking.writes id fd (state_text b) v start)
    seek-Marked f id fd b w e (err x, v) h = held_same f id (some fd) e

    set_in_use-Marked :
        (f : ℕ → Option ℕ) (id : ℕ) (b : Bool) (w : W) (d : Option ℕ)
        → d ≡ f id
        → Marked held_by
            (marked_in in_use)
            id
            b
            (f, w)
            (let z = Lock.set_in_use (os_of id) (path_of id) b (d, w) in
              (z.0, (update f id z.1.0, z.1.1)))
    unfolding Lock.set_in_use with_descriptor
    set_in_use-Marked f id b w none e = held_same f id none e
    set_in_use-Marked f id b w (some fd) e =
        seek-Marked f id fd b w e ((os_of id).seek_start fd w) (marking.seeks id fd w)

    -- On files that flock locks as documented, and whose first character is what a write at offset 0 has
    -- left there, the LocalInstanceLock objects of the ids are locks as creating and listing local
    -- instances need them: an id is held while its object has a descriptor, and marked while its file
    -- says that it is in use.
    pub lock_files-IsLocking : IsLocking held_by (marked_in in_use) lock_files
    lock_files-IsLocking = record {
      lock_tells = lock-Told;
      lock_if_not_in_use_tells = lock_unused-Told;
      unlock_frees = λ id l. unlock-Freed l.0 id l.1 (l.0 id);
      set_in_use_marks = λ id b l. set_in_use-Marked l.0 id b l.1 (l.0 id) refl;
    }
