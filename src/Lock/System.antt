-- ===== src/Lock/System.antt =====
-- Several LocalInstanceLock objects on one lock file, in any interleaving of their methods.
use tools_acloud.Base.{
  true, false, none, some, ℕ, Option, String, if◌then◌else◌, ◌≡◌, Bool, ◌==◌, ◌⊎◌, Bool-cases, inl,
  sym, inr, ap, ==_iff, ◌∙◌, is_some, refl, arith,
}
use tools_acloud.Lock
use tools_acloud.Lock.{Os, State}
use tools_acloud.Lock.Moves.{
  Stay, IsFlock, IsHonest, Take, Locked, Free, lock-Locked, LockedUnused,
  lock_if_not_in_use-LockedUnused, set_in_use-Stay, Unlocked, unlock-Unlocked,
}
use tools_acloud.Exec.{Result, ok, err}

-- A call of a method on one object.
pub data Call : Type 0 where
  lock : ℕ → Call
  lock_if_not_in_use : ℕ → Call
  set_in_use : Bool → Call
  unlock : Call

-- What the call leaves of the object and the world.
abbrev pub after_call : {W : Type 0} → Os W → String → Call → State W → State W
after_call io file_path (lock t) s = (Lock.lock io file_path t s).1
after_call io file_path (lock_if_not_in_use t) s = (Lock.lock_if_not_in_use io file_path t s).1
after_call io file_path (set_in_use b) s = (Lock.set_in_use io file_path b s).1
after_call io file_path unlock s = (Lock.unlock io file_path s).1

-- The descriptor of each object, by its number, and the world.
pub record System (W : Type 0) : Type 0 where
  pub file_desc : ℕ → Option ℕ
  pub world : W

abbrev pub update : (ℕ → Option ℕ) → ℕ → Option ℕ → ℕ → Option ℕ
update f i d j = if i == j then d else f j

-- The abstract lock: nobody holds it, or one object does.
pub data LockStep : Option ℕ → Option ℕ → Type 0 where
  rest : {a b : Option ℕ} → b ≡ a → LockStep a b
  acquire : {a b : Option ℕ} (i : ℕ) → a ≡ none → b ≡ some i → LockStep a b
  release : {a b : Option ℕ} (i : ℕ) → a ≡ some i → b ≡ none → LockStep a b

module _ {W : Type 0} (owner : W → Option ℕ) (io : Os W) (file_path : String) where
  -- One call of one object, or a change of the world that leaves the lock alone.
  pub data Step (s : System W) : System W → Type 0 where
    method :
        (i : ℕ) (c : Call)
        → Step s (record {
          file_desc = update s.file_desc i (after_call io file_path c (s.file_desc i, s.world)).0;
          world = (after_call io file_path c (s.file_desc i, s.world)).1;
        })
    elsewhere : (v : W) → owner v ≡ owner s.world → Step s (record s { world = v })

  -- From objects without descriptors and a lock that is free.
  pub data Reach : System W → Type 0 where
    start : (w : W) → owner w ≡ none → Reach (record { file_desc = λ _. none; world = w })
    later : {s t : System W} → Reach s → Step s t → Reach t

  -- The abstract lock that a state stands for.
  abbrev pub Represents : System W → Option ℕ → Type 0
  Represents s none = (owner s.world ≡ none) × ((i : ℕ) → s.file_desc i ≡ none)
  Represents s (some h) =
      (fd : ℕ) × (owner s.world ≡ some fd)
      × (s.file_desc h ≡ some fd)
      × ((j : ℕ) → ((h == j) ≡ true) ⊎ (s.file_desc j ≡ none))

  abbrev Move : Option ℕ → Option ℕ → Option ℕ → Option ℕ → Type 0
  Move d o d' o' = Stay d o d' o' ⊎ Take d o d' o' ⊎ Free d o d' o'

  Represents-IsHonest :
      (s : System W) (a : Option ℕ) (i : ℕ)
      → Represents s a
      → IsHonest (s.file_desc i) (owner s.world)
  Represents-IsHonest s none i (free, empty) = rw (empty i) tt
  Represents-IsHonest s (some h) i (fd, own, mine, others) = elim (others i) [
    | inl y ↦ rw (sym (ap s.file_desc ((==_iff h i).0 y)) ∙ mine) own
    | inr n ↦ rw n tt
  ]

  module _ (laws : IsFlock owner io) where
    after_call-Move :
        (c : Call) (d : Option ℕ) (w : W)
        → IsHonest d (owner w)
        → let s = after_call io file_path c (d, w) in Move d (owner w) s.0 (owner s.1)
    after_call-Move (lock t) d w h =
        by_result (Lock.lock io file_path t (d, w)) (lock-Locked owner io laws file_path t d w)
      where
        by_result :
            (x : Result Bool × State W)
            → Locked owner io laws file_path (d, w) x
            → Move d (owner w) x.1.0 (owner x.1.1)
        by_result (ok true, s) m = inr (inl m)
        by_result (ok false, s) m = inl m
        by_result (err e, s) m = inl m
    after_call-Move (lock_if_not_in_use t) d w h =
        by_result (Lock.lock_if_not_in_use io file_path t (d, w))
          (lock_if_not_in_use-LockedUnused owner io laws file_path t d w)
      where
        by_result :
            (x : Result Bool × State W)
            → LockedUnused owner io laws file_path (d, w) x
            → Move d (owner w) x.1.0 (owner x.1.1)
        by_result (ok true, s) m = inr (inl m)
        by_result (ok false, s) m = inl m
        by_result (err e, s) (inl m) = inl m
        by_result (err e, s) (inr m) = inr (inl m)
    after_call-Move (set_in_use b) d w h = inl (set_in_use-Stay owner io laws file_path b d w)
    after_call-Move unlock d w h =
        by_result (Lock.unlock io file_path (d, w)) (unlock-Unlocked owner io laws file_path d w h)
      where
        by_result :
            (x : Result (Unit {0}) × State W)
            → Unlocked owner io laws file_path (d, w) x
            → Move d (owner w) x.1.0 (owner x.1.1)
        by_result (ok _, s) m = inr (inr m)
        by_result (err e, s) m = inl m

  update_self : (f : ℕ → Option ℕ) (i : ℕ) (d : Option ℕ) → update f i d i ≡ d
  update_self f i d = rw ((==_iff i i).1 refl) refl

  update_same : (f : ℕ → Option ℕ) (i : ℕ) (d : Option ℕ) → d ≡ f i → (j : ℕ) → update f i d j ≡ f j
  update_same f i d e j = elim (Bool-cases (i == j)) [
    | inl y ↦ rw y (e ∙ ap f ((==_iff i j).0 y))
    | inr n ↦ rw n refl
  ]

  update-none :
      (f : ℕ → Option ℕ) (i j : ℕ) → ((i == j) ≡ true) ⊎ (f j ≡ none) → update f i none j ≡ none
  update-none f i j (inl y) = rw y refl
  update-none f i j (inr n) = elim (Bool-cases (i == j)) [ inl y ↦ rw y refl | inr m ↦ rw m n ]

  others_after :
      (f : ℕ → Option ℕ) (h i : ℕ) (d : Option ℕ)
      → d ≡ f i
      → ((j : ℕ) → ((h == j) ≡ true) ⊎ (f j ≡ none))
      → (j : ℕ) → ((h == j) ≡ true) ⊎ (update f i d j ≡ none)
  others_after f h i d e others j = elim (others j) [
    | inl y ↦ inl y
    | inr n ↦ inr (update_same f i d e j ∙ n)
  ]

  others_new :
      (f : ℕ → Option ℕ) (i : ℕ) (d : Option ℕ)
      → ((j : ℕ) → f j ≡ none)
      → (j : ℕ) → ((i == j) ≡ true) ⊎ (update f i d j ≡ none)
  others_new f i d empty j = elim (Bool-cases (i == j)) [
    | inl y ↦ inl y
    | inr n ↦ inr (rw n (empty j))
  ]

  -- What comes of the abstract lock when object `i` has moved.
  abbrev After : System W → Option ℕ → ℕ → Option ℕ → W → Type 0
  After s a i d v =
      (b : Option ℕ) × Represents (record { file_desc = update s.file_desc i d; world = v }) b
      × LockStep a b

  stayed :
      (s : System W) (a : Option ℕ) (i : ℕ) (d : Option ℕ) (v : W)
      → Represents s a
      → d ≡ s.file_desc i
      → owner v ≡ owner s.world
      → After s a i d v
  stayed s none i d v (free, empty) e o =
      (none, (o ∙ free, λ j. update_same s.file_desc i d e j ∙ empty j), rest refl)
  stayed s (some h) i d v (fd, own, mine, others) e o = (
    some h,
    (fd, o ∙ own, update_same s.file_desc i d e h ∙ mine, others_after s.file_desc h i d e others),
    rest refl,
  )

  took :
      (s : System W) (a : Option ℕ) (i : ℕ) (d : Option ℕ) (v : W)
      → Represents s a
      → Take (s.file_desc i) (owner s.world) d (owner v)
      → After s a i d v
  took s none i d v (free, empty) (fd, _, _, e, o) = (
    some i,
    (fd, o, update_self s.file_desc i d ∙ e, others_new s.file_desc i d empty),
    acquire i refl refl,
  )
  took s (some h) i d v (fd, own, mine, others) (fd', _, free, e, o) =
      absurd (let p : some fd ≡ none = (sym own ∙ free) in cc)

  freed :
      (s : System W) (a : Option ℕ) (i : ℕ) (d : Option ℕ) (v : W)
      → Represents s a
      → Free (s.file_desc i) (owner s.world) d (owner v)
      → After s a i d v
  freed s none i d v (free, empty) (fd, e, _, _, _) =
      absurd (let p : some fd ≡ none = (sym e ∙ empty i) in cc)
  freed s (some h) i d v (fd, own, mine, others) (fd', e, _, e', o) = elim (others i) [
    | inl y ↦ (
      none,
      (o, λ j. rw e' (update-none s.file_desc i j (moved_holder h i j y (others j)))),
      release h refl refl,
    )
    | inr n ↦ absurd (let p : some fd' ≡ none = (sym e ∙ n) in cc)
  ]
    where
      moved_holder :
          (h i j : ℕ)
          → (h == i) ≡ true
          → ((h == j) ≡ true) ⊎ (s.file_desc j ≡ none)
          → ((i == j) ≡ true) ⊎ (s.file_desc j ≡ none)
      moved_holder h i j y o = rw ((==_iff h i).0 y) at o

  world_moved :
      (s : System W) (a : Option ℕ) (v : W)
      → Represents s a
      → owner v ≡ owner s.world
      → Represents (record s { world = v }) a
  world_moved s none v (free, empty) e = (e ∙ free, empty)
  world_moved s (some h) v (fd, own, mine, others) e = (fd, e ∙ own, mine, others)

  moved :
      (s : System W) (a : Option ℕ) (i : ℕ) (d : Option ℕ) (v : W)
      → Represents s a
      → Move (s.file_desc i) (owner s.world) d (owner v)
      → After s a i d v
  moved s a i d v r (inl (e, o)) = stayed s a i d v r e o
  moved s a i d v r (inr (inl m)) = took s a i d v r m
  moved s a i d v r (inr (inr m)) = freed s a i d v r m

  module _ (laws : IsFlock owner io) where
    -- Every step of the objects is a step of the abstract lock, or leaves it alone: nobody acquires a
    -- lock that is held, and nobody but its holder releases it.
    pub Step-Represents :
        {s t : System W} {a : Option ℕ}
        → Represents s a
        → Step s t
        → (b : Option ℕ) × Represents t b × LockStep a b
    Step-Represents {s} {a = a} r (method i c) =
        moved s a i _ _ r
          (after_call-Move laws c (s.file_desc i) s.world (Represents-IsHonest s a i r))
    Step-Represents {s} {a = a} r (elsewhere v e) = (a, world_moved s a v r e, rest refl)

    Reach-Represents : {s : System W} → Reach s → (a : Option ℕ) × Represents s a
    Reach-Represents (start w free) = (none, (free, λ i. refl))
    Reach-Represents (later r st) =
        let (a, h) = Reach-Represents r in let (b, k, _) = Step-Represents h st in (b, k)

    one_of_two :
        (s : System W) (a : Option ℕ) (i j : ℕ)
        → (i == j) ≡ false
        → Represents s a
        → ((s.file_desc i ≡ none) ⊎ (s.file_desc j ≡ none))
          × ((owner s.world ≡ none) ⊎ ((h : ℕ) × (is_some (s.file_desc h) ≡ true)))
    one_of_two s none i j ne (free, empty) = (inl (empty i), inl free)
    one_of_two s (some h) i j ne (fd, own, mine, others) =
        (either (others i) (others j), inr (h, rw mine refl))
      where
        either :
            ((h == i) ≡ true) ⊎ (s.file_desc i ≡ none)
            → ((h == j) ≡ true) ⊎ (s.file_desc j ≡ none)
            → (s.file_desc i ≡ none) ⊎ (s.file_desc j ≡ none)
        either (inr n) q = inl n
        either (inl y) (inr n) = inr n
        either (inl y) (inl z) = absurd (ground arith)

    -- In every state that calls of the methods lead to, in any interleaving, of two objects one at least
    -- has no descriptor of the locked file; and unless some object has one, the lock of the file is free.
    pub Reach-exclusive :
        {s : System W} (i j : ℕ)
        → Reach s
        → (i == j) ≡ false
        → ((s.file_desc i ≡ none) ⊎ (s.file_desc j ≡ none))
          × ((owner s.world ≡ none) ⊎ ((h : ℕ) × (is_some (s.file_desc h) ≡ true)))
    Reach-exclusive {s} i j r ne = let (a, h) = Reach-Represents r in one_of_two s a i j ne h
