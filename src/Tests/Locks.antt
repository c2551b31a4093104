-- ===== src/Tests/Locks.antt =====
-- The theorems on the lock file and on creating a local instance, at concrete inputs.
use tools_acloud.Base.{
  true, none, some, ℕ, zero, suc, Option, ◌≡◌, ◌≢◌, ◌==◌, ◌⊎◌, ◌+◌, refl, inl, inr, if◌then◌else◌,
  Bool-cases, ==_iff, arith, is_some, ap, str_eq, Bool,
}
use tools_acloud.Exec.{Result, ok, err, Exec}
use tools_acloud.Errors.{os_error}
use tools_acloud.Lock
use tools_acloud.Lock.{Os}
use tools_acloud.Lock.Moves.{IsFlock, Takes, drop_owner}
use tools_acloud.Lock.System.{
  System, Represents, LockStep, Step-Represents, Reach-exclusive, Call, after_call, update, start,
  later, method,
}
use tools_acloud.LocalCreate.LockFiles.{
  IsMarking, held_by, marked_in, lock_files, lock_files-IsLocking,
}
use tools_acloud.LocalCreate.Unlocked.{IsLocking}

-- The descriptor that has the lock, and a number for new descriptors.
abbrev Disk : Type 0
Disk = Option ℕ × ℕ

abbrev owner_of : Disk → Option ℕ
owner_of w = w.0

abbrev fresh : Disk → ℕ
fresh (none, n) = n
fresh (some x, n) = suc (x + n)

abbrev flock_now : ℕ → Disk → Result (Unit {0}) × Disk
flock_now fd (none, n) = (ok tt, (some fd, n))
flock_now fd (some x, n) =
    if x == fd
    then (ok tt, (some x, n))
    else (err (record { cls = os_error; code = Lock.eagain; message = "" }), (some x, n))

abbrev disk_os : Os Disk
disk_os = record {
  parent_exists = λ w. (ok true, w);
  make_parent = λ w. (ok tt, w);
  open_file = λ w. (ok (fresh w), (w.0, suc w.1));
  close = λ fd w. (ok tt, (drop_owner fd w.0, w.1));
  flock_within = λ t fd w. flock_now fd w;
  flock_at_once = λ fd w. flock_now fd w;
  flock_free = λ fd w. (ok tt, (drop_owner fd w.0, w.1));
  seek_start = λ fd w. (ok tt, w);
  write = λ fd s w. (ok 1, w);
  read = λ fd n w. (ok "N", w);
}

fresh_new : (w : Disk) → owner_of w ≢ some (fresh w)
fresh_new (none, n) = λ e. cc
fresh_new (some x, n) = λ e.
    let h : x ≡ suc (x + n) = ap (λ o. elim o [ none ↦ zero | some y ↦ y ]) e in omega (arith, h)

flock_now-Takes : (fd : ℕ) (w : Disk) → Takes owner_of fd w (flock_now fd w)
flock_now-Takes fd (none, n) = (refl, inl refl)
flock_now-Takes fd (some x, n) = elim (Bool-cases (x == fd)) [
  | inl y ↦ rw y (ap some ((==_iff x fd).0 y), inr (ap some ((==_iff x fd).0 y)))
  | inr e ↦ rw e refl
]

disk_laws : IsFlock owner_of disk_os
disk_laws = record {
  parent_exists_keeps = λ w. refl;
  make_parent_keeps = λ w. refl;
  seek_keeps = λ fd w. refl;
  write_keeps = λ fd s w. refl;
  read_keeps = λ fd n w. refl;
  opens = λ w. (refl, fresh_new w);
  flock_within_takes = λ t fd w. flock_now-Takes fd w;
  flock_at_once_takes = λ fd w. flock_now-Takes fd w;
  flock_frees = λ fd w. refl;
  closes = λ fd w. refl;
}

abbrev no_objects : System Disk
no_objects = record { file_desc = λ _. none; world = (none, 7) }

-- The state after a call of an object.
abbrev called : ℕ → Call → System Disk → System Disk
called i c s = record {
  file_desc = update s.file_desc i (after_call disk_os "x.lock" c (s.file_desc i, s.world)).0;
  world = (after_call disk_os "x.lock" c (s.file_desc i, s.world)).1;
}

Step-Represents_example :
    (b : Option ℕ) × Represents owner_of disk_os "x.lock" (called 0 (Call.lock 5) no_objects) b
    × LockStep none b
Step-Represents_example =
    Step-Represents owner_of disk_os "x.lock" disk_laws {s = no_objects}
      {t = called 0 (Call.lock 5) no_objects} {a = none} (refl, λ j. refl) (method 0 (Call.lock 5))

Reach-exclusive_example :
    let s = called 1 (Call.lock_if_not_in_use 0) (called 0 (Call.lock 5) no_objects) in
    ((s.file_desc 0 ≡ none) ⊎ (s.file_desc 1 ≡ none))
    × ((owner_of s.world ≡ none) ⊎ ((h : ℕ) × (is_some (s.file_desc h) ≡ true)))
Reach-exclusive_example =
    Reach-exclusive owner_of disk_os "x.lock" disk_laws
      {s = called 1 (Call.lock_if_not_in_use 0) (called 0 (Call.lock 5) no_objects)} 0 1
      (later (later (start (none, 7) refl) (method 0 (Call.lock 5)))
        (method 1 (Call.lock_if_not_in_use 0)))
      refl

-- A disk on which the files of the ids say whether they are in use, and descriptors have offsets; one lock
-- serves all ids. A write that is not at the start leaves the first character alone.
abbrev Files : Type 0
Files = Disk × ((ℕ → Bool) × (ℕ → ℕ))

abbrev on_disk : {A : Type 0} → Exec Disk A → Exec Files A
on_disk m (d, f) = let (r, d') = m d in (r, (d', f))

abbrev mark : (ℕ → Bool) → ℕ → Bool → ℕ → Bool
mark f id b j = if id == j then b else f j

abbrev move : (ℕ → ℕ) → ℕ → ℕ → ℕ → ℕ
move f fd n j = if fd == j then n else f j

abbrev write_at : ℕ → ℕ → Bool → (ℕ → Bool) → ℕ → ℕ → Bool
write_at id fd b f n = if n == 0 then mark f id b else f

abbrev files_os : ℕ → Os Files
files_os id = record {
  parent_exists = on_disk disk_os.parent_exists;
  make_parent = on_disk disk_os.make_parent;
  open_file = on_disk disk_os.open_file;
  close = λ fd. on_disk (disk_os.close fd);
  flock_within = λ t fd. on_disk (flock_now fd);
  flock_at_once = λ fd. on_disk (flock_now fd);
  flock_free = λ fd. on_disk (disk_os.flock_free fd);
  seek_start = λ fd (d, (f, o)). (ok tt, (d, (f, move o fd 0)));
  write = λ fd s (d, (f, o)).
      (ok 1, (d, (write_at id fd (str_eq s Lock.in_use_state) f (o fd), move o fd (suc (o fd)))));
  read = λ fd n (d, (f, o)). (
    ok (if f id then Lock.in_use_state else Lock.not_in_use_state),
    (d, (f, move o fd (suc (o fd)))),
  );
}

abbrev files_owner : ℕ → Files → Option ℕ
files_owner id w = w.0.0

on_disk-Takes :
    (id fd : ℕ) (w : Files) (x : Result (Unit {0}) × Disk)
    → Takes owner_of fd w.0 x
    → Takes (files_owner id) fd w (x.0, (x.1, w.1))
on_disk-Takes id fd w (ok _, v) h = h
on_disk-Takes id fd w (err e, v) h = h

files_laws : (id : ℕ) → IsFlock (files_owner id) (files_os id)
files_laws id = record {
  parent_exists_keeps = λ w. refl;
  make_parent_keeps = λ w. refl;
  seek_keeps = λ fd w. refl;
  write_keeps = λ fd s w. refl;
  read_keeps = λ fd n w. refl;
  opens = λ w. (refl, fresh_new w.0);
  flock_within_takes = λ t fd w. on_disk-Takes id fd w (flock_now fd w.0) (flock_now-Takes fd w.0);
  flock_at_once_takes = λ fd w. on_disk-Takes id fd w (flock_now fd w.0) (flock_now-Takes fd w.0);
  flock_frees = λ fd w. refl;
  closes = λ fd w. refl;
}

abbrev files_in_use : ℕ → Files → Bool
files_in_use id w = w.1.0 id

abbrev files_start : ℕ → ℕ → Files → Bool
files_start id fd w = w.1.1 fd == 0

files-IsMarking : IsMarking files_os (λ id. "lock") files_in_use files_start
files-IsMarking = record {
  seeks = λ id fd w. rw ((==_iff fd fd).1 refl) refl;
  writes = λ id fd s w h. inl (rw h (rw ((==_iff id id).1 refl) refl));
  flock_free_keeps = λ id fd j w. refl;
  close_keeps = λ id fd j w. refl;
}

lock_files-IsLocking_example :
    IsLocking
      (held_by files_os (λ id. "lock"))
      (marked_in files_os (λ id. "lock") files_in_use)
      (lock_files files_os (λ id. "lock"))
lock_files-IsLocking_example =
    lock_files-IsLocking files_os (λ id. "lock") files_owner files_laws files_in_use files_start
      files-IsMarking
