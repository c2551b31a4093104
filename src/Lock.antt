-- ===== src/Lock.antt =====
-- internal/lib/local_instance_lock.py: LocalInstanceLock. The calls of os and fcntl, and the timeout that
-- utils.TimeoutException puts on a call, are a record of actions of the world. A descriptor stands for
-- the open file of one object, so that two objects never have the same.
pub mod Moves
pub mod System
use tools_acloud.Base.{
  true, false, [], none, some, String, Option, ℕ, Bool, if◌then◌else◌, ltb, ◌==◌, not, str_eq, ◌&&◌,
  ◌||◌,
}
use tools_acloud.Exec.{Result, Exec, ok, err, ◌>>=◌, pure, raise}
use tools_acloud.Errors.{is_instance, exc, runtime_error, function_timeout_error, os_error}
use tools_acloud.Base.Text.{◌<>◌}

pub record Os (W : Type 0) : Type 0 where
  pub parent_exists : Exec W Bool
  pub make_parent : Exec W (Unit {0})
  pub open_file : Exec W ℕ
  pub close : ℕ → Exec W (Unit {0})
  -- fcntl.flock with LOCK_EX under a timeout, with LOCK_EX | LOCK_NB, and with LOCK_UN.
  pub flock_within : ℕ → ℕ → Exec W (Unit {0})
  pub flock_at_once : ℕ → Exec W (Unit {0})
  pub flock_free : ℕ → Exec W (Unit {0})
  pub seek_start : ℕ → Exec W (Unit {0})
  pub write : ℕ → String → Exec W ℕ
  pub read : ℕ → ℕ → Exec W String

abbrev pub lock_file_size : ℕ
lock_file_size = 1

-- _DEFAULT_TIMEOUT_SECS
abbrev pub default_timeout_secs : ℕ
default_timeout_secs = 5

-- _IN_USE_STATE and _NOT_IN_USE_STATE
abbrev pub in_use_state : String
in_use_state = "I"

abbrev pub not_in_use_state : String
not_in_use_state = "N"

-- errno.EACCES, errno.EAGAIN
abbrev pub eacces : ℕ
eacces = 13

abbrev pub eagain : ℕ
eagain = 11

-- The object's `_file_desc`, beside the world.
abbrev pub State : Type 0 → Type 0
State W = Option ℕ × W

module _ {W : Type 0} where
  abbrev pub call : {A : Type 0} → Exec W A → Exec (State W) A
  call m (d, w) = let (a, w') = m w in (a, (d, w'))

  -- `self._file_desc = d`
  abbrev pub assign : Option ℕ → Exec (State W) (Unit {0})
  assign d (_, w) = (ok tt, (d, w))

  -- The `except` clauses of _Flock. An exception's errno is its code.
  unfoldable pub after_flock : Result (Unit {0}) × W → Result Bool × W
  after_flock (ok _, w) = (ok true, w)
  after_flock (err e, w) =
      if is_instance e function_timeout_error
      then (ok false, w)
      else if is_instance e os_error && (e.code == eacces || e.code == eagain)
      then (ok false, w)
      else (err e, w)

  module _ (io : Os W) (file_path : String) where
    -- _Flock, with the descriptor in hand.
    unfoldable pub flock : ℕ → ℕ → Exec W Bool
    unfolding after_flock
    flock timeout_secs fd w =
        after_flock
          ((if ltb 0 timeout_secs then io.flock_within timeout_secs fd else io.flock_at_once fd) w)

    -- `if not os.path.exists(parent_dir): os.makedirs(parent_dir)`
    unfoldable pub ensure_parent : Exec W (Unit {0})
    ensure_parent = io.parent_exists >>= λ there. if there then pure tt else io.make_parent

    -- The `finally` of Lock: `successful` is the result that _Flock gave, if it gave one.
    unfoldable pub settle : ℕ → Result Bool × W → Result Bool × State W
    settle fd (ok true, w) = (ok true, (some fd, w))
    settle fd (ok false, w) =
        ((call (io.close fd) >>= λ _. assign none) >>= λ _. pure false) (some fd, w)
    settle fd (err e, w) = ((call (io.close fd) >>= λ _. assign none) >>= λ _. raise e) (some fd, w)

    unfoldable pub lock : ℕ → Exec (State W) Bool
    unfolding ensure_parent flock settle
    lock timeout_secs (some fd, w) =
        (err (exc os_error (file_path <> " has been locked.")), (some fd, w))
    lock timeout_secs (none, w) =
        (call (ensure_parent >>= λ _. io.open_file) >>= λ fd (_, v).
        settle fd (flock timeout_secs fd v))
          (none, w)

    -- _CheckFileDescriptor, with the descriptor for what follows.
    unfoldable pub with_descriptor : {A : Type 0} → (ℕ → Exec (State W) A) → Exec (State W) A
    with_descriptor f (none, w) =
        (err (exc runtime_error (file_path <> " has not been locked.")), (none, w))
    with_descriptor f (some fd, w) = f fd (some fd, w)

    unfoldable pub written : ℕ → Exec (State W) (Unit {0})
    written n =
        if n == lock_file_size then pure tt else raise (exc os_error ("Cannot write " <> file_path))

    unfoldable pub set_in_use : Bool → Exec (State W) (Unit {0})
    unfolding with_descriptor written
    set_in_use in_use = with_descriptor λ fd.
        call (
          io.seek_start fd >>= λ _. io.write fd (if in_use then in_use_state else not_in_use_state))
        >>= written

    unfoldable pub unlock : Exec (State W) (Unit {0})
    unfolding with_descriptor
    unlock = with_descriptor λ fd. call (io.flock_free fd >>= λ _. io.close fd) >>= λ _. assign none

    -- The rest of LockIfNotInUse after a Lock that succeeded: `in_use` is True until the file is read.
    unlock_in_use : Result String × State W → Result Bool × State W
    unfolding unlock
    unlock_in_use (err e, s) = (unlock >>= λ _. raise e) s
    unlock_in_use (ok content, s) =
        if str_eq content in_use_state then (unlock >>= λ _. pure false) s else (ok true, s)

    unfoldable pub lock_if_not_in_use : ℕ → Exec (State W) Bool
    unfolding lock unlock_in_use with_descriptor
    lock_if_not_in_use timeout_secs = lock timeout_secs >>= λ locked s.
        if not locked
        then (ok false, s)
        else unlock_in_use (with_descriptor (λ fd. call (io.read fd lock_file_size)) s)
