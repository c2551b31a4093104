-- ===== src/Exec.antt =====
-- Python code that reads and writes the world and may raise: what was done before a raise stays
-- done, so the state comes back beside the exception.
use tools_acloud.Constants
use tools_acloud.Errors.{Exc, system_exit}

-- sys.exit(constants.EXIT_BY_USER)
abbrev pub user_exit : Exc
user_exit = record { cls = system_exit; code = Constants.exit_by_user; message = "" }

pub data Result {ℓ} (A : Type ℓ) : Type ℓ where
  ok : A → Result A
  err : Exc → Result A

abbrev pub Exec : Type 0 → Type 0 → Type 0
Exec S A = S → Result A × S

module _ {S A B : Type 0} where
  -- What a statement does once the one before it has ended.
  abbrev pub handle : Result A × S → (A → Exec S B) → (Exc → Exec S B) → Result B × S
  handle (ok a, s) f g = f a s
  handle (err e, s) f g = g e s

module _ {S A : Type 0} where
  abbrev pub pure : A → Exec S A
  pure a s = (ok a, s)

  abbrev pub raise : Exc → Exec S A
  raise e s = (err e, s)

  -- `try: m` `except` clauses that hand on what they do not catch, as `h` says.
  abbrev pub catch : Exec S A → (Exc → Exec S A) → Exec S A
  catch m h s = handle (m s) pure h

module _ {S A B : Type 0} where
  abbrev pub and_then : Result A × S → (A → Exec S B) → Result B × S
  and_then (ok a, s) f = f a s
  and_then (err e, s) f = (err e, s)

  infixl 5 ◌>>=◌
  abbrev pub ◌>>=◌ : Exec S A → (A → Exec S B) → Exec S B
  ◌>>=◌ m f s = and_then (m s) f

module _ {S A : Type 0} where
  abbrev pub resume : Result (Unit {0}) × S → Result A → Result A × S
  resume (ok _, s) r = (r, s)
  resume (err e, s) r = (err e, s)

  -- `try: m` `finally: f`: an exception of `f` takes the place of what `m` gave.
  abbrev pub finally : Exec S A → Exec S (Unit {0}) → Exec S A
  finally m f s = let (r, s') = m s in resume (f s') r
