-- ===== src/Cloud/Pages.antt =====
-- ListWithMultiPages returns the items of all pages, in the order of the pages.
use tools_acloud.Base.{
  ℕ, zero, suc, ◌≤◌, Option, none, some, List, [], ◌++◌, String, ◌≡◌, refl, true, false, arith, ◌∙◌,
  ap,
}
use mathlib.Core.List.{append_assoc}
use tools_acloud.Exec.{Result, ok, err, Exec}
use tools_acloud.Cloud.{Page, is_last, or_default, after_page, list_pages, list_with_multi_pages}

module _ {A W : Type 0} (get_page : Option String → Exec W (Page A)) where
  -- `Served n token w items r`: asked from `token` on, the server gives `n` pages that hold `items`
  -- together, and then it is at its last page, or it raises, as `r` says.
  pub data Served : ℕ → Option String → W → List A → Result (Unit {0}) × W → Type 0 where
    last :
        {token : Option String} {w v : W} (p : Page A)
        → get_page token w ≡ (ok p, v)
        → is_last p.next_page_token ≡ true
        → Served 1 token w (or_default p.items []) (ok tt, v)
    more :
        {n : ℕ} {token : Option String} {w v : W} {items : List A} {r : Result (Unit {0}) × W}
        (p : Page A)
        → get_page token w ≡ (ok p, v)
        → is_last p.next_page_token ≡ false
        → Served n p.next_page_token v items r
        → Served (suc n) token w (or_default p.items [] ++ items) r
    fault :
        {token : Option String} {w v : W} (e : _)
        → get_page token w ≡ (err e, v)
        → Served 1 token w [] (err e, v)

  -- The listing with what was gathered before, or the exception alone.
  abbrev pub listed : List A → Result (Unit {0}) × W → Result (List A) × W
  listed items (ok _, w) = (ok items, w)
  listed items (err e, w) = (err e, w)

  list_pages-Served :
      {n : ℕ} {token : Option String} {w : W} {items : List A} {r : Result (Unit {0}) × W}
      → Served n token w items r
      → (fuel : ℕ) → n ≤ fuel
      → (before : List A)
      → list_pages get_page fuel token before w ≡ some (listed (before ++ items) r)
  unfolding list_pages after_page
  list_pages-Served (last p got end) zero h before = absurd (omega arith)
  list_pages-Served (last p got end) (suc fuel) h before = rw got (rw end refl)
  list_pages-Served (more p got go s) zero h before = absurd (omega arith)
  list_pages-Served {r = r} (more {items = items} p got go s) (suc fuel) h before = rw got (
      rw go (
        list_pages-Served s fuel (omega arith) (before ++ or_default p.items [])
        ∙ ap (λ l. some (listed l r)) (append_assoc before _ items)))
  list_pages-Served (fault e got) zero h before = absurd (omega arith)
  list_pages-Served (fault e got) (suc fuel) h before = rw got refl

  -- With fuel for the pages of the server, ListWithMultiPages returns the items of all of them in
  -- order, whether or not the last page's token is None or the empty text, and an exception of a page
  -- is its own.
  pub list_with_multi_pages-Served :
      {n : ℕ} {w : W} {items : List A} {r : Result (Unit {0}) × W} (fuel : ℕ)
      → Served n none w items r
      → n ≤ fuel
      → list_with_multi_pages get_page fuel w ≡ some (listed items r)
  unfolding list_with_multi_pages
  list_with_multi_pages-Served fuel s h = list_pages-Served s fuel h []
